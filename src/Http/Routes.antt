-- ===== src/Http/Routes.antt =====
-- `RegisterRoutes` of internal/auth/handlers.go: the handlers behind their middleware.
-- A route of the first group: `TenantMiddleware`, then `RateLimitMiddleware`.
use go_auth_api.Base.{none}
use go_auth_api.Http.{Request, Response, Web}
use go_auth_api.Http.Handlers.{revoke_all_handler}
use go_auth_api.Http.Middleware.{jwt_middleware, rate_limit_middleware, tenant_middleware}
use go_auth_api.Service.Context.{Context, Service}
use go_auth_api.World.{Env}
use go_auth_api.World.Action.{Action}

unfoldable pub tenant_route : Env → Web → Request → (Context → Action Response) → Action Response
tenant_route env web r handler =
    tenant_middleware env web r (λ ctx. rate_limit_middleware env web r (handler ctx))

-- `POST /auth/revoke-all`, of the second group: behind `JWTMiddleware` only, so that no tenant is in
-- the context.
unfoldable pub revoke_all_route : Env → Service → Web → Request → Action Response
revoke_all_route env s web r = jwt_middleware env web r (revoke_all_handler env s web r none)
