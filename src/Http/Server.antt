-- ===== src/Http/Server.antt =====
-- `InitRouter` of internal/config/router.go with `RequestIDMiddleware` and `RecovererMiddleware` of
-- internal/auth/middleware.go: a request from its arrival to its answer. The CORS handler, the
-- counters and the log lines between them are left out. The parameter `unrouted` is what chi answers
-- where no route takes a request (404 and 405), and the pages of promhttp and swagger.
use go_auth_api.Base.{Bool, String, false, if◌then◌else◌, str_eq, true, ◌&&◌}
use go_auth_api.Http.{Request, Response, Web, error_body, respond}
use go_auth_api.Http.Handlers.{
  change_password_handler, health_handler, login_handler, logout_handler, me_handler,
  refresh_handler, resend_verification_handler, reset_password_handler,
  send_reset_password_email_handler, signup_handler, verify_email_handler,
}
use go_auth_api.Http.Middleware.{jwt_middleware}
use go_auth_api.Http.Routes.{revoke_all_route, tenant_route}
use go_auth_api.Service.Context.{Service}
use go_auth_api.World.{Env, Outcome, err, ok, panicked}
use go_auth_api.World.Action.{Action, catch, must_call, new_uuid_v7, pure, ◌>>=◌}

pub data Method : Type 0 where
  get post other_method : Method

abbrev same_method : Method → Method → Bool
same_method get get = true
same_method post post = true
same_method _ _ = false

-- `RecovererMiddleware`
abbrev pub recovered : Outcome Response → Outcome Response
recovered (ok response) = ok response
recovered (err e) = err e
recovered panicked = ok (respond 500 (error_body "internal server error"))

unfoldable pub recoverer_middleware : Action Response → Action Response
recoverer_middleware next w = let (o, w') = next w in (recovered o, w')

module _ (env : Env) (s : Service) (web : Web) (unrouted : Method → String → Response)
    (method : Method) (r : Request) where
  -- `RequestIDMiddleware`: the identifier of the request, which its answer carries too.
  unfoldable pub request_id : Action String
  request_id =
      if str_eq (r.header "X-Request-ID") ""
      then catch (do id ← new_uuid_v7 env; pure (env.uuid_text id))
          (λ _. do n ← must_call env; pure (env.uuid_text (env.new_uuid n)))
      else pure (r.header "X-Request-ID")

  abbrev at : Method → String → Bool
  at m path = same_method method m && str_eq r.path path

  -- `RegisterRoutes`
  unfoldable pub register_routes : Action Response
  register_routes =
      if at post "/auth/password-change"
      then tenant_route env web r (change_password_handler env s web r)
      else if at get "/auth/send-resetemail"
      then tenant_route env web r (send_reset_password_email_handler env s web r)
      else if at post "/auth/reset-password"
      then tenant_route env web r (reset_password_handler env s web r)
      else if at post "/auth/signup"
      then tenant_route env web r (signup_handler env s web r)
      else if at post "/auth/login"
      then tenant_route env web r (login_handler env s web r)
      else if at post "/auth/refresh"
      then tenant_route env web r (refresh_handler env s web r)
      else if at post "/auth/logout"
      then tenant_route env web r (logout_handler env s web r)
      else if at get "/auth/verify-email"
      then tenant_route env web r (λ _. verify_email_handler env s web r)
      else if at post "/auth/resend-verification"
      then tenant_route env web r (resend_verification_handler env s web r)
      else if at get "/auth/me"
      then jwt_middleware env web r me_handler
      else if at post "/auth/revoke-all"
      then revoke_all_route env s web r
      else if at get "/auth/health"
      then health_handler env
      else pure (unrouted method r.path)

  -- `InitRouter`: the answer, under the request's identifier.
  unfoldable pub serve_http : Action (String × Response)
  serve_http = do
    id ← request_id
    response ← recoverer_middleware register_routes
    pure (id, response)
