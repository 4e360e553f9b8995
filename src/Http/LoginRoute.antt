-- ===== src/Http/LoginRoute.antt =====
-- `POST /auth/login` from the request to the database.
use go_auth_api.Base.{
  Option-cases, String, arith, inl, inr, refl, some, str_eq, subst, sym, true, ℕ, ◌∙◌, ◌≡◌, ◌≢◌,
  ◌⊎◌,
}
use go_auth_api.Errors.{
  Error, email_already_exists, email_not_verified, invalid_credentials, invalid_token,
  invalid_verification_token, map_auth_error, refresh_reuse,
}
use go_auth_api.Http.{
  Body, Request, Response, Web, client_ip, login_body, respond, respond_json_error, validate_email,
  validate_password,
}
use go_auth_api.Http.Guards.{PassedOn, Refused, tenant_middleware-Guards}
use go_auth_api.Http.Handlers.{login_handler}
use go_auth_api.Http.Limited.{Ends-unless_limited, check_login-passive}
use go_auth_api.Http.Middleware.{rate_limit_middleware}
use go_auth_api.Http.Routes.{tenant_route}
use go_auth_api.Models.Account.{Tenant, tenant_is_active}
use go_auth_api.Service.Context.{Service}
use go_auth_api.Service.Login.Endings.{LoggedIn, Login, login-Login}
use go_auth_api.Sql.{select_one}
use go_auth_api.World.{Database, Env, Outcome, World, err, ok, panicked}
use go_auth_api.World.Action.{pure}
use go_auth_api.World.Ends.{Continues, Ends, Ends-bind, Ends-catch, Ends-pure, Handles}

-- A login over HTTP that was let in.
pub record LetIn (env : Env) (s : Service) (web : Web) (r : Request) (d d' : Database)
    (response : Response) : Type 0 where
  pub tenant : Tenant
  pub named :
      select_one
        (λ (t : Tenant). str_eq t.tenant_name (web.trim_space (r.header "X-Tenant")))
        d.tenants
      ≡ some tenant
  pub live : tenant_is_active tenant ≡ true
  pub email : String
  pub password : String
  pub decoded : web.decode_login r.body ≡ some (email, password)
  pub tokens : String × String × String
  pub logged_in : LoggedIn env s email tenant.id password d d' tokens
  pub reply : response ≡ respond 200 (login_body tokens.0 tokens.1 tokens.2)

abbrev pub LoginAnswer :
    Env → Service → Web → Request → Database → Outcome Response → Database → Type 0
LoginAnswer env s web r d (ok response) d' =
    LetIn env s web r d d' response ⊎ ((d' ≡ d) × (response.status ≢ 200))
LoginAnswer env s web r d (err _) d' = ⊥
LoginAnswer env s web r d panicked d' = ⊥

-- No error is answered with 200.
respond_json_error-refuses : (e : Error) → (respond_json_error e).status ≢ 200
unfolding respond_json_error map_auth_error
respond_json_error-refuses email_already_exists h = omega arith
respond_json_error-refuses invalid_credentials h = omega arith
respond_json_error-refuses invalid_token h = omega arith
respond_json_error-refuses email_not_verified h = omega arith
respond_json_error-refuses refresh_reuse h = omega arith
respond_json_error-refuses invalid_verification_token h = omega arith
respond_json_error-refuses _ h = omega arith

module _ (env : Env) (s : Service) (web : Web) (r : Request) (d : Database) where
  abbrev Answers : Outcome Response → World → Type 0
  Answers o w = LoginAnswer env s web r d o w.db

  bad :
      (status : ℕ) (body : Body) (w : World)
      → status ≢ 200
      → w.db ≡ d
      → Ends (pure (respond status body)) w Answers
  bad status body w n kept = Ends-pure _ _ (inr (kept, n))

  let_in :
      (tenant : Tenant) (email password : String) (o : Outcome (String × String × String))
      (w w' : World)
      → select_one
          (λ (t : Tenant). str_eq t.tenant_name (web.trim_space (r.header "X-Tenant")))
          d.tenants
        ≡ some tenant
      → tenant_is_active tenant ≡ true
      → web.decode_login r.body ≡ some (email, password)
      → w.db ≡ d
      → Login env s email tenant.id password w.db o w'.db
      → Continues
          (λ (t : String × String × String). pure (respond 200 (login_body t.0 t.1 t.2)))
          (Handles (λ e. pure (respond_json_error e)) Answers)
          o
          w'
  let_in tenant email password (ok t) w w' named live decoded kept h = Ends-pure _ _ (
      inl (record {
        tenant = tenant;
        named = named;
        live = live;
        email = email;
        password = password;
        decoded = decoded;
        tokens = t;
        logged_in =
            subst (λ (x : Database). LoggedIn env s email tenant.id password x w'.db t) kept h;
        reply = refl;
      }))
  let_in tenant email password (err e) w w' named live decoded kept h =
      Ends-pure _ _ (inr (h ∙ kept, respond_json_error-refuses e))
  let_in tenant email password panicked w w' named live decoded kept never = absurd never

  login_handler-Answers :
      (tenant : Tenant) (w : World)
      → select_one
          (λ (t : Tenant). str_eq t.tenant_name (web.trim_space (r.header "X-Tenant")))
          d.tenants
        ≡ some tenant
      → tenant_is_active tenant ≡ true
      → w.db ≡ d
      → Ends (login_handler env s web r (some tenant)) w Answers
  unfolding login_handler
  login_handler-Answers tenant w named live kept = elim (Option-cases (web.decode_login r.body)) [
    | inl e ↦ rw (login_handler, e) (bad 400 _ w (λ h. omega arith) kept)
    | inr ((email, password), e) ↦ elim (Option-cases (validate_email web email)) [
      | inr (bad_email, e₁) ↦ rw (login_handler, e, e₁) (bad 400 _ w (λ h. omega arith) kept)
      | inl e₁ ↦ elim (Option-cases (validate_password password)) [
        | inr (short, e₂) ↦ rw (login_handler, e, e₁, e₂) (bad 400 _ w (λ h. omega arith) kept)
        | inl e₂ ↦
            rw (login_handler, e, e₁, e₂)
              (Ends-catch _ _ _ (
                Ends-bind _ _ _ (record {
                  holds =
                      let_in tenant email password _ w _ named live e kept
                        (login-Login env s tenant email password (client_ip web r) w);
                })))
      ]
    ]
  ]

  limited_login :
      (tenant : Tenant) (w : World)
      → r.path ≡ "/auth/login"
      → select_one
          (λ (t : Tenant). str_eq t.tenant_name (web.trim_space (r.header "X-Tenant")))
          d.tenants
        ≡ some tenant
      → tenant_is_active tenant ≡ true
      → w.db ≡ d
      → Ends (rate_limit_middleware env web r (login_handler env s web r (some tenant))) w Answers
  unfolding rate_limit_middleware
  limited_login tenant w path named live kept =
      simp (rate_limit_middleware, path)
        (Ends-unless_limited env web r _ _ w
          (check_login-passive env (client_ip web r) (web.email_member r.body) w)
          (λ w₁ k. login_handler-Answers tenant w₁ named live (k ∙ kept))
          (λ w₁ k. inr (k ∙ kept, λ h. omega arith)))

  guarded :
      (o : Outcome Response) (w w' : World)
      → r.path ≡ "/auth/login"
      → w.db ≡ d
      → Refused o w w'
        ⊎ PassedOn web r
            (λ ctx. rate_limit_middleware env web r (login_handler env s web r ctx))
            o
            w
            w'
      → LoginAnswer env s web r d o w'.db
  guarded (ok response) w w' path at (inl (kept, inl h)) = inr (kept ∙ at, λ k. omega arith)
  guarded (ok response) w w' path at (inl (kept, inr (inl h))) = inr (kept ∙ at, λ k. omega arith)
  guarded (ok response) w w' path at (inl (kept, inr (inr h))) = inr (kept ∙ at, λ k. omega arith)
  guarded (err _) w w' path at (inl never) = absurd never
  guarded panicked w w' path at (inl never) = absurd never
  guarded o w w' path at (inr (tenant, named, live, w₁, kept, e)) =
      subst (λ (p : Outcome Response × World). LoginAnswer env s web r d p.0 p.1.db) (sym e)
        (limited_login tenant w₁ path
          (subst
            (λ (x : Database).
              select_one
                (λ (t : Tenant). str_eq t.tenant_name (web.trim_space (r.header "X-Tenant")))
                x.tenants
              ≡ some tenant)
            at named)
          live (kept ∙ at)).holds

-- A request to the login route, whatever it holds and whatever fails: it is answered with 200 only
-- where its header names an active tenant and its body the address and the password of an unlocked
-- account of that tenant, and then one live refresh token of the account and one event have been
-- added to the database, and the answer carries the new tokens; any other answer leaves the database
-- as it was. There is always an answer.
pub login_route-Answers :
    (env : Env) (s : Service) (web : Web) (r : Request) (w : World)
    → r.path ≡ "/auth/login"
    → LoginAnswer env s web r w.db
        (tenant_route env web r (login_handler env s web r) w).0
        (tenant_route env web r (login_handler env s web r) w).1.db
unfolding tenant_route
login_route-Answers env s web r w path = guarded env s web r w.db _ w _ path refl (
    tenant_middleware-Guards env web r
      (λ ctx. rate_limit_middleware env web r (login_handler env s web r ctx)) w)
