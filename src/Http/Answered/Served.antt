-- ===== src/Http/Answered/Served.antt =====
-- The server answers every request.
use go_auth_api.Base.{
  Bool-cases, Option-cases, String, arith, eq_iff, inl, inr, is_some, refl, str_eq, suc, true, ◌≡◌,
  ◌⊎◌,
}
use go_auth_api.Http.{Request, Response, Web, error_body, respond}
use go_auth_api.Http.Answered.{Answers, NoError}
use go_auth_api.Http.Answered.Handled.{
  change_password_handler-Answers, health_handler-Answers, login_handler-Answers,
  logout_handler-Answers, me_route-Answers, refresh_handler-Answers,
  resend_verification_handler-Answers, reset_password_handler-Answers, revoke_all_route-Answers,
  send_reset_password_email_handler-Answers, signup_handler-Answers, tenant_route-Answers,
  verify_email_handler-Answers,
}
use go_auth_api.Http.Server.{
  Method, recovered, recoverer_middleware, register_routes, request_id, serve_http,
}
use go_auth_api.Service.Context.{Service}
use go_auth_api.World.{Env, Outcome, World, err, ok, panicked}
use go_auth_api.World.Action.{call, catch, crash, pure, ◌>>=◌}

module _ (env : Env) (s : Service) (web : Web) (pages : Method → String → Response)
    (method : Method) (r : Request) where
  register_routes-Answers : Answers (register_routes env s web pages method r)
  unfolding register_routes pure
  register_routes-Answers = record {
    holds = λ w. ground (
      arith,
      (tenant_route-Answers env s web r _ (change_password_handler-Answers env s web r)).holds w,
      (tenant_route-Answers env s web r _
            (send_reset_password_email_handler-Answers env s web r)).holds
          w,
      (tenant_route-Answers env s web r _ (reset_password_handler-Answers env s web r)).holds w,
      (tenant_route-Answers env s web r _ (signup_handler-Answers env s web r)).holds w,
      (tenant_route-Answers env s web r _ (login_handler-Answers env s web r)).holds w,
      (tenant_route-Answers env s web r _ (refresh_handler-Answers env s web r)).holds w,
      (tenant_route-Answers env s web r _ (logout_handler-Answers env s web r)).holds w,
      (tenant_route-Answers env s web r _ (λ ctx. verify_email_handler-Answers env s web r)).holds
          w,
      (tenant_route-Answers env s web r _ (resend_verification_handler-Answers env s web r)).holds
          w,
      (me_route-Answers env s web r).holds w,
      (revoke_all_route-Answers env s web r).holds w,
      (health_handler-Answers env s web r).holds w,
    );
  }

  -- The random source failed twice in a row, for a request that brought no identifier.
  abbrev pub NoRequestId : World → Type 0
  NoRequestId w =
      (r.header "X-Request-ID" ≡ "")
      × (is_some (env.fault w.calls) ≡ true)
      × (is_some (env.fault (suc w.calls)) ≡ true)

  request_id_cases :
      (w : World)
      → ((id : String) × ((request_id env s web pages method r w).0 ≡ ok id))
        ⊎ (((request_id env s web pages method r w).0 ≡ panicked) × NoRequestId w)
  unfolding request_id pure crash catch call ◌>>=◌
  request_id_cases w = elim (Bool-cases (str_eq (r.header "X-Request-ID") "")) [
    | inl e ↦ elim (Option-cases (env.fault w.calls)) [
      | inl f ↦ inl (env.uuid_text (env.new_uuid w.calls), rw (e, f) refl)
      | inr (m, f) ↦ elim (Option-cases (env.fault (suc w.calls))) [
        | inl g ↦ inl (env.uuid_text (env.new_uuid (suc w.calls)), rw (e, f, g) refl)
        | inr (n, g) ↦
            inr
              (rw (e, f, g) refl, ((eq_iff (r.header "X-Request-ID") "").0 e, rw f refl, rw g refl))
      ]
    ]
    | inr e ↦ inl (r.header "X-Request-ID", rw e refl)
  ]

  recovered_ok : (o : Outcome Response) → NoError o → (a : Response) × (recovered o ≡ ok a)
  recovered_ok (ok a) h = (a, refl)
  recovered_ok (err e) h = absurd h
  recovered_ok panicked h = (respond 500 (error_body "internal server error"), refl)

  -- A request to any path is answered, whatever fails and whatever panics in its handler: provided
  -- that it brings an identifier, or that one can be drawn for it in one of two attempts. Else the
  -- panic of `uuid.NewString` leaves the program's handlers.
  pub serve_http-Answers :
      (w : World)
      → ((a : String × Response) × ((serve_http env s web pages method r w).0 ≡ ok a))
        ⊎ (((serve_http env s web pages method r w).0 ≡ panicked) × NoRequestId w)
  unfolding serve_http recoverer_middleware pure ◌>>=◌
  serve_http-Answers w = elim (request_id_cases w) [
    | inl (id, e) ↦
        let (a, q) =
          recovered_ok _
            (register_routes-Answers.holds (request_id env s web pages method r w).1) in
        inl ((id, a), rw (e, q) refl)
    | inr (p, bad) ↦ inr (rw p refl, bad)
  ]
