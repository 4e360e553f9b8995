-- ===== src/Http/Guards.antt =====
-- What the middleware lets through.
-- The request was refused with one of the three answers of `TenantMiddleware`, and nothing happened.
use go_auth_api.Base.{
  Bool-cases, Option-cases, String, inl, inr, refl, some, str_eq, true, ◌≡◌, ◌⊎◌,
}
use go_auth_api.Errors.{map_auth_error}
use go_auth_api.Http.{Request, Response, Web, error_body, respond, respond_json_error, text_body}
use go_auth_api.Http.Handlers.{revoke_all_handler}
use go_auth_api.Http.Middleware.{jwt_middleware, tenant_middleware}
use go_auth_api.Http.Routes.{revoke_all_route}
use go_auth_api.Models.Account.{Tenant, tenant_is_active}
use go_auth_api.Repo.Tenants.{tenant_by_name}
use go_auth_api.Service.Context.{Context, Service}
use go_auth_api.Service.Sessions.{revoke_all}
use go_auth_api.Sql.{select_one}
use go_auth_api.World.{Env, Outcome, World, err, ok, panicked}
use go_auth_api.World.Action.{Action, catch, ◌>>=◌}
use go_auth_api.World.Ends.{Ends, Ends-bind, Ends-catch, Ends-execute_pool, Ends-pure}

abbrev pub Refused : Outcome Response → World → World → Type 0
Refused (ok response) w w' =
    (w'.db ≡ w.db) × ((response.status ≡ 400) ⊎ ((response.status ≡ 401) ⊎ (response.status ≡ 403)))
Refused (err _) w w' = ⊥
Refused panicked w w' = ⊥

-- The request went on, for the active tenant that the header names.
abbrev pub PassedOn :
    Web → Request → (Context → Action Response) → Outcome Response → World → World → Type 0
PassedOn web r next o w w' =
    (tenant : Tenant) × (select_one
        (λ (t : Tenant). str_eq t.tenant_name (web.trim_space (r.header "X-Tenant"))) w.db.tenants
      ≡ some tenant)
    × (tenant_is_active tenant ≡ true)
    × (w₁ : World) × (w₁.db ≡ w.db)
    × ((o, w') ≡ next (some tenant) w₁)

-- `TenantMiddleware`: a request is either refused with 400, 401 or 403 and the database as it was, or
-- it is handed on with the tenant that its header names, which is in the table and active.
pub tenant_middleware-Guards :
    (env : Env) (web : Web) (r : Request) (next : Context → Action Response) (w : World)
    → Refused (tenant_middleware env web r next w).0 w (tenant_middleware env web r next w).1
      ⊎ PassedOn web r next
          (tenant_middleware env web r next w).0
          w
          (tenant_middleware env web r next w).1
unfolding tenant_middleware tenant_by_name
tenant_middleware-Guards env web r next w =
    let name : String = web.trim_space (r.header "X-Tenant") in
    let end : Ends (tenant_middleware env web r next) w
        (λ o w'. Refused o w w' ⊎ PassedOn web r next o w w') =
      elim (Bool-cases (str_eq name "")) [
        | inl e ↦ rw (tenant_middleware, e) (Ends-pure _ _ (inl (refl, inl refl)))
        | inr e ↦
            rw (tenant_middleware, e)
              (Ends-bind _ _ _ (
                Ends-catch _ _ _ (
                  Ends-bind _ _ _ (
                    Ends-execute_pool env _ _
                      (λ m _. Ends-pure _ _ (Ends-pure _ _ (inl (refl, inr (inl refl)))))
                      (elim (Option-cases
                        (select_one (λ (t : Tenant). str_eq t.tenant_name name) w.db.tenants)) [
                          | inl e₁ ↦
                              rw e₁ (Ends-pure _ _ (Ends-pure _ _ (inl (refl, inr (inl refl)))))
                          | inr (tenant, e₁) ↦ rw e₁ (
                              Ends-pure _ _ (elim (Bool-cases (tenant_is_active tenant)) [
                                | inl live ↦
                                    rw live
                                      (record { holds = inr (tenant, refl, live, _, refl, refl) })
                                | inr dead ↦ rw dead (Ends-pure _ _ (inl (refl, inr (inr refl))))
                              ]))
                        ])))))
      ] in
    end.holds

-- `POST /auth/revoke-all` revokes nothing: whatever the request, the answer is one of 401 and 500, and
-- the world is as it was.
pub revoke_all_route_refuses :
    (env : Env) (s : Service) (web : Web) (r : Request) (w : World)
    → ((revoke_all_route env s web r w).1 ≡ w)
      × (((revoke_all_route env s web r w).0 ≡ ok (respond 401 (text_body "missing token")))
          ⊎ (((revoke_all_route env s web r w).0 ≡ ok (respond 401 (text_body "invalid token")))
              ⊎ ((revoke_all_route env s web r w).0
                  ≡ ok (respond 500 (error_body "internal server error")))))
unfolding revoke_all_route jwt_middleware revoke_all_handler revoke_all ◌>>=◌ catch
    respond_json_error map_auth_error
revoke_all_route_refuses env s web r w =
    elim (Option-cases (web.bearer (r.header "Authorization"))) [
      | inl e ↦ rw (jwt_middleware, e) (refl, inl refl)
      | inr (token, e) ↦ elim (Option-cases (web.verify_jwt token)) [
        | inl e₁ ↦ rw (jwt_middleware, e, e₁) (refl, inr (inl refl))
        | inr (claims, e₁) ↦ rw (jwt_middleware, e, e₁) (refl, inr (inr refl))
      ]
    ]
