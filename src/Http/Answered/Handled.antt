-- ===== src/Http/Answered/Handled.antt =====
-- The handlers and the routes return no error: they write it into their answer.
use go_auth_api.Base.{
  Bool-cases, Option, String, arith, if◌then◌else◌, inl, inr, none, some, str_eq,
}
use go_auth_api.Errors.{message, tenant_inactive, tenant_not_found}
use go_auth_api.Http.{Request, Response, Web, client_ip, respond, text_body}
use go_auth_api.Http.Answered.{Answers, Answers-bind, Answers-catch, Answers-pure}
use go_auth_api.Http.Handlers.{
  change_password_handler, health_handler, login_handler, logout_handler, me_handler,
  refresh_handler, resend_verification_handler, reset_password_handler, revoke_all_handler,
  send_reset_password_email_handler, signup_handler, verify_email_handler,
}
use go_auth_api.Http.Middleware.{
  jwt_middleware, rate_limit_middleware, tenant_middleware, unless_limited,
}
use go_auth_api.Http.Routes.{revoke_all_route, tenant_route}
use go_auth_api.Models.Account.{Tenant, tenant_is_active}
use go_auth_api.RateLimit.Limiter.{check_login, check_password_reset_request, check_signup}
use go_auth_api.Service.Context.{Context, Service}
use go_auth_api.World.{Env}
use go_auth_api.World.Action.{Action, catch, pure, ◌>>=◌}

module _ (env : Env) (s : Service) (web : Web) (r : Request) where
  pub change_password_handler-Answers :
      (ctx : Context) → Answers (change_password_handler env s web r ctx)
  unfolding change_password_handler pure catch ◌>>=◌
  change_password_handler-Answers ctx = record { holds = λ w. ground arith }

  pub send_reset_password_email_handler-Answers :
      (ctx : Context) → Answers (send_reset_password_email_handler env s web r ctx)
  unfolding send_reset_password_email_handler pure catch ◌>>=◌
  send_reset_password_email_handler-Answers ctx = record { holds = λ w. ground arith }

  pub reset_password_handler-Answers :
      (ctx : Context) → Answers (reset_password_handler env s web r ctx)
  unfolding reset_password_handler pure catch ◌>>=◌
  reset_password_handler-Answers ctx = record { holds = λ w. ground arith }

  pub signup_handler-Answers : (ctx : Context) → Answers (signup_handler env s web r ctx)
  unfolding signup_handler pure catch ◌>>=◌
  signup_handler-Answers ctx = record { holds = λ w. ground arith }

  pub login_handler-Answers : (ctx : Context) → Answers (login_handler env s web r ctx)
  unfolding login_handler pure catch ◌>>=◌
  login_handler-Answers ctx = record { holds = λ w. ground arith }

  pub refresh_handler-Answers : (ctx : Context) → Answers (refresh_handler env s web r ctx)
  unfolding refresh_handler pure catch ◌>>=◌
  refresh_handler-Answers ctx = record { holds = λ w. ground arith }

  pub logout_handler-Answers : (ctx : Context) → Answers (logout_handler env s web r ctx)
  unfolding logout_handler pure catch ◌>>=◌
  logout_handler-Answers ctx = record { holds = λ w. ground arith }

  pub resend_verification_handler-Answers :
      (ctx : Context) → Answers (resend_verification_handler env s web r ctx)
  unfolding resend_verification_handler pure catch ◌>>=◌
  resend_verification_handler-Answers ctx = record { holds = λ w. ground arith }

  pub verify_email_handler-Answers : Answers (verify_email_handler env s web r)
  unfolding verify_email_handler pure catch ◌>>=◌
  verify_email_handler-Answers = record { holds = λ w. ground arith }

  pub revoke_all_route-Answers : Answers (revoke_all_route env s web r)
  unfolding revoke_all_route jwt_middleware revoke_all_handler pure catch ◌>>=◌
  revoke_all_route-Answers = record { holds = λ w. ground arith }

  pub me_route-Answers : Answers (jwt_middleware env web r me_handler)
  unfolding jwt_middleware me_handler pure
  me_route-Answers = record { holds = λ w. ground arith }

  pub health_handler-Answers : Answers (health_handler env)
  unfolding health_handler pure catch ◌>>=◌
  health_handler-Answers = record { holds = λ w. ground arith }

  unless_limited-Answers :
      (check : Action (Unit {0})) (next : Action Response)
      → Answers next
      → Answers (unless_limited env web r check next)
  unfolding unless_limited pure
  unless_limited-Answers check next h =
      Answers-bind _ _ (Answers-catch _ _ (λ e. Answers-pure _))
        (λ o. record { holds = λ w. ground (arith, h.holds w) })

  rate_limit_middleware-Answers :
      (next : Action Response) → Answers next → Answers (rate_limit_middleware env web r next)
  unfolding rate_limit_middleware
  rate_limit_middleware-Answers next h =
      let limited : (check : Action (Unit {0})) → Answers (unless_limited env web r check next) =
        λ check. unless_limited-Answers check next h in
      let email : String = web.email_member r.body in
      record {
        holds = λ w. ground (
          arith,
          h.holds w,
          (limited (check_login env (client_ip web r) email)).holds w,
          (limited (check_signup env (client_ip web r))).holds w,
          (limited (check_password_reset_request env (client_ip web r) email)).holds w,
        );
      }

  -- What `TenantMiddleware` does with the tenant that it has looked up.
  found-Answers :
      (next : Context → Action Response) (found : Option Tenant)
      → ((ctx : Context) → Answers (next ctx))
      → Answers (elim found [
        | none ↦ pure (respond 401 (text_body (message tenant_not_found)))
        | some tenant ↦
            if tenant_is_active tenant
            then next (some tenant)
            else pure (respond 403 (text_body (message tenant_inactive)))
      ])
  unfolding pure
  found-Answers next none h = Answers-pure _
  found-Answers next (some tenant) h = record {
    holds = λ w. ground (arith, (h (some tenant)).holds w);
  }

  pub tenant_route-Answers :
      (handler : Context → Action Response)
      → ((ctx : Context) → Answers (handler ctx))
      → Answers (tenant_route env web r handler)
  unfolding tenant_route tenant_middleware
  tenant_route-Answers handler h =
      elim (Bool-cases (str_eq (web.trim_space (r.header "X-Tenant")) "")) [
        | inl e ↦ rw (tenant_middleware, e) (Answers-pure _)
        | inr e ↦
            rw (tenant_middleware, e)
              (Answers-bind _ _ (Answers-catch _ _ (λ e. Answers-pure _))
                (λ found. found-Answers _ found (λ ctx. rate_limit_middleware-Answers _ (h ctx))))
      ]
