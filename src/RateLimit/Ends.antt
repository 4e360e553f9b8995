-- ===== src/RateLimit/Ends.antt =====
-- The limiter changes nothing but the hashes in Redis.
use go_auth_api.Base.{String, refl, ℕ}
use go_auth_api.Errors.{external}
use go_auth_api.RateLimit.Limiter.{record_login_failure}
use go_auth_api.World.{Env, Outcome, World, err}
use go_auth_api.World.Action.{Action, ◌>>=◌}
use go_auth_api.World.Ends.{Ends, Ends-bind, Ends-call, Ends-time_now, SameData}

module _ (env : Env) {B : Type 0} {Q : Outcome B → World → Type 0} where
  pub Ends-record_login_failure :
      (ip email : String) (n : ℕ) (f : ℕ → Action B) (w : World)
      → ((m : String) (w' : World) → SameData w w' → Q (err (external m)) w')
      → ((r : ℕ) (w' : World) → SameData w w' → Ends (f r) w' Q)
      → Ends (record_login_failure env ip email n >>= f) w Q
  unfolding record_login_failure
  Ends-record_login_failure ip email n f w failing h = Ends-bind _ _ _ (
      Ends-time_now env _ _ (
        Ends-call env _ _ (λ m _. failing m _ (refl, refl))
          (record { holds = h _ _ (refl, refl) })))
