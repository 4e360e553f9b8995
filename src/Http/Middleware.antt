-- ===== src/Http/Middleware.antt =====
-- internal/auth/middleware.go: `TenantMiddleware`, `RateLimitMiddleware`, `JWTMiddleware`.
-- What follows a middleware, with the tenant of the context.
use go_auth_api.Base.{String, if◌then◌else◌, none, some, str_eq, ℕ}
use go_auth_api.Errors.{
  message, rate_limited, tenant_header_missing, tenant_inactive, tenant_not_found,
}
use go_auth_api.Http.{Request, Response, Web, client_ip, error_body, respond, text_body}
use go_auth_api.Models.Account.{tenant_is_active}
use go_auth_api.RateLimit.Limiter.{check_login, check_password_reset_request, check_signup}
use go_auth_api.Repo.Tenants.{find_by_tenant_name}
use go_auth_api.Service.Context.{Context}
use go_auth_api.World.{Env}
use go_auth_api.World.Action.{Action, attempt, error_of, pure, ◌>>=◌}

module _ (env : Env) (web : Web) (r : Request) where
  -- `TenantMiddleware`
  unfoldable pub tenant_middleware : (Context → Action Response) → Action Response
  tenant_middleware next =
      let tenant_name = web.trim_space (r.header "X-Tenant") in
      if str_eq tenant_name ""
      then pure (respond 400 (text_body (message tenant_header_missing)))
      else do
        found ← attempt (find_by_tenant_name env tenant_name)
        elim found [
          | none ↦ pure (respond 401 (text_body (message tenant_not_found)))
          | some tenant ↦
              if tenant_is_active tenant
              then next (some tenant)
              else pure (respond 403 (text_body (message tenant_inactive)))
        ]

  -- `if checkErr != nil { … }; next.ServeHTTP(w, r)`: a failure of the limiter lets the request pass.
  unfoldable pub unless_limited : Action (Unit {0}) → Action Response → Action Response
  unless_limited check next = do
    check_err ← error_of check
    elim check_err [
      | none ↦ next
      | some rate_limited ↦ pure (respond 429 (error_body "too many attempts, try again later"))
      | some _ ↦ next
    ]

  -- `RateLimitMiddleware`
  unfoldable pub rate_limit_middleware : Action Response → Action Response
  rate_limit_middleware next =
      let ip = client_ip web r in
      if str_eq r.path "/auth/login"
      then unless_limited (check_login env ip (web.email_member r.body)) next
      else if str_eq r.path "/auth/signup"
      then unless_limited (check_signup env ip) next
      else if str_eq r.path "/auth/send-resetemail"
      then unless_limited (check_password_reset_request env ip (web.email_member r.body)) next
      else next

  -- `JWTMiddleware`: the user's id and address go on.
  unfoldable pub jwt_middleware : (ℕ × String → Action Response) → Action Response
  jwt_middleware next = elim (web.bearer (r.header "Authorization")) [
    | none ↦ pure (respond 401 (text_body "missing token"))
    | some token ↦ elim (web.verify_jwt token) [
      | none ↦ pure (respond 401 (text_body "invalid token"))
      | some claims ↦ next claims
    ]
  ]
