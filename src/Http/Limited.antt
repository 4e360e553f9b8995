-- ===== src/Http/Limited.antt =====
-- `RateLimitMiddleware` around a handler: what holds of the handler's end holds of the whole.
use go_auth_api.Base.{Bool-cases, Option, String, inl, inr, none, refl, some, ◌/◌, ◌==◌, ◌≡◌}
use go_auth_api.Errors.{Error, rate_limited}
use go_auth_api.Http.{Request, Response, Web, error_body, respond}
use go_auth_api.Http.Middleware.{unless_limited}
use go_auth_api.Models.Account.{second}
use go_auth_api.RateLimit.Limiter.{check_login, redis_keys}
use go_auth_api.RateLimit.Scripts.{login_check}
use go_auth_api.World.{Env, Outcome, World, err, ok, panicked}
use go_auth_api.World.Action.{Action, pure}
use go_auth_api.World.Ends.{
  Continues, Ends, Ends-bind, Ends-call, Ends-catch, Ends-mono, Ends-pure, Ends-raise,
  Ends-time_now, Handles,
}

abbrev pub NotPanicked : {A : Type 0} → Outcome A → Type 0
NotPanicked (ok _) = Unit {0}
NotPanicked (err _) = Unit {0}
NotPanicked panicked = ⊥

-- `CheckLogin` writes nothing and does not panic.
pub check_login-passive :
    (env : Env) (ip email : String) (w : World)
    → Ends (check_login env ip email) w (λ o w'. (w'.db ≡ w.db) × NotPanicked o)
unfolding check_login
check_login-passive env ip email w = Ends-bind _ _ _ (
    Ends-time_now env _ _ (
      Ends-call env _ _ (λ m _. (refl, tt))
        (record {
          holds =
              elim (Bool-cases (
                login_check (redis_keys "login" ip email) (env.clock w.calls / second) w.redis
                == 1)) [
                  | inl e ↦ rw e (Ends-raise _ _ (refl, tt))
                  | inr e ↦ rw e (Ends-pure _ _ (refl, tt))
                ];
        })))

module _ (env : Env) (web : Web) (r : Request) {Q : Outcome Response → World → Type 0} where
  pub Ends-unless_limited :
      (check : Action (Unit {0})) (next : Action Response) (w : World)
      → Ends check w (λ o w'. (w'.db ≡ w.db) × NotPanicked o)
      → ((w₁ : World) → w₁.db ≡ w.db → Ends next w₁ Q)
      → ((w₁ : World)
          → w₁.db ≡ w.db
          → Q (ok (respond 429 (error_body "too many attempts, try again later"))) w₁)
      → Ends (unless_limited env web r check next) w Q
  unfolding unless_limited
  Ends-unless_limited check next w passive go limited =
      Ends-bind _ _ _ (Ends-catch _ _ _ (Ends-bind _ _ _ (Ends-mono check w passive cases)))
    where
      refusal : Response
      refusal = respond 429 (error_body "too many attempts, try again later")

      after :
          (e : Error) (w₁ : World)
          → w₁.db ≡ w.db
          → Ends (elim e [ rate_limited ↦ pure refusal | _ ↦ next ]) w₁ Q
      after rate_limited w₁ k = Ends-pure _ _ (limited w₁ k)
      after _ w₁ k = go w₁ k

      cases :
          (o : Outcome (Unit {0})) (w₁ : World)
          → (w₁.db ≡ w.db) × NotPanicked o
          → Continues
              (λ _. pure none)
              (Handles
                (λ e. pure (some e))
                (Continues
                  (λ (found : Option Error). elim found [
                    | none ↦ next
                    | some rate_limited ↦ pure refusal
                    | some _ ↦ next
                  ])
                  Q))
              o
              w₁
      cases (ok _) w₁ (k, _) = Ends-pure _ _ (go w₁ k)
      cases (err e) w₁ (k, _) = Ends-pure _ _ (after e w₁ k)
      cases panicked w₁ (k, never) = absurd never
