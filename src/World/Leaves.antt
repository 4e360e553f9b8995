-- ===== src/World/Leaves.antt =====
-- Actions that leave a part of the database alone, statement by statement.
use go_auth_api.Base.{Option, String, ap, none, refl, some, ℕ, ◌∙◌, ◌≡◌}
use go_auth_api.Errors.{Error}
use go_auth_api.World.{Database, Env, Outcome, World, err, ok, panicked}
use go_auth_api.World.Action.{
  Action, Statement, answer, call, catch, crash, deliver, execute, handle, ignore_error, must_call,
  on_pool, pool, proceed, pure, raise, tick, time_now, ◌>>=◌,
}

pub record Leaves {A X : Type 0} (f : Database → X) (m : Action A) : Type 0 where
  pub holds : (w : World) → f (m w).1.db ≡ f w.db

module _ {X : Type 0} {f : Database → X} where
  pub Leaves-pure : {A : Type 0} (a : A) → Leaves f (pure a)
  unfolding pure
  Leaves-pure a = record { holds = λ w. refl }

  pub Leaves-raise : {A : Type 0} (e : Error) → Leaves f (raise {A = A} e)
  unfolding raise
  Leaves-raise e = record { holds = λ w. refl }

  pub Leaves-crash : {A : Type 0} → Leaves f (crash {A = A})
  unfolding crash
  Leaves-crash = record { holds = λ w. refl }

module _ {A B X : Type 0} {f : Database → X} where
  proceed-Leaves :
      (k : A → Action B) (o : Outcome A) (w : World)
      → ((a : A) → Leaves f (k a))
      → f (proceed o k w).1.db ≡ f w.db
  proceed-Leaves k (ok a) w h = (h a).holds w
  proceed-Leaves k (err e) w h = refl
  proceed-Leaves k panicked w h = refl

  pub Leaves-bind :
      (m : Action A) (k : A → Action B)
      → Leaves f m
      → ((a : A) → Leaves f (k a))
      → Leaves f (m >>= k)
  unfolding ◌>>=◌
  Leaves-bind m k h g = record { holds = λ w. proceed-Leaves k (m w).0 (m w).1 g ∙ h.holds w }

module _ {A X : Type 0} {f : Database → X} where
  handle-Leaves :
      (k : Error → Action A) (o : Outcome A) (w : World)
      → ((e : Error) → Leaves f (k e))
      → f (handle k o w).1.db ≡ f w.db
  handle-Leaves k (ok a) w h = refl
  handle-Leaves k (err e) w h = (h e).holds w
  handle-Leaves k panicked w h = refl

  pub Leaves-catch :
      (m : Action A) (k : Error → Action A)
      → Leaves f m
      → ((e : Error) → Leaves f (k e))
      → Leaves f (catch m k)
  unfolding catch
  Leaves-catch m k h g = record { holds = λ w. handle-Leaves k (m w).0 (m w).1 g ∙ h.holds w }

  pub Leaves-on_pool :
      (now : ℕ) (stmt : Statement A)
      → ((d : Database) → f (stmt now d).1 ≡ f d)
      → Leaves f (on_pool now stmt)
  unfolding on_pool
  Leaves-on_pool now stmt h = record { holds = λ w. h w.db }

answer_leaves : (fault : Option String) (n : ℕ) (w : World) → (answer fault n w).1.db ≡ w.db
answer_leaves none n w = refl
answer_leaves (some m) n w = refl

module _ (env : Env) {X : Type 0} {f : Database → X} where
  pub Leaves-call : Leaves f (call env)
  unfolding call
  Leaves-call = record { holds = λ w. ap f (answer_leaves (env.fault w.calls) w.calls (tick w)) }

  pub Leaves-time_now : Leaves f (time_now env)
  unfolding time_now
  Leaves-time_now = record { holds = λ w. refl }

  pub Leaves-deliver : (to token : String) → Leaves f (deliver env to token)
  unfolding deliver
  Leaves-deliver to token = record { holds = λ w. refl }

  pub Leaves-execute_pool :
      {A : Type 0} (stmt : Statement A)
      → ((now : ℕ) (d : Database) → f (stmt now d).1 ≡ f d)
      → Leaves f (execute env pool stmt)
  Leaves-execute_pool stmt h =
      Leaves-bind _ _ Leaves-call (λ n. Leaves-on_pool (env.clock n) stmt (h (env.clock n)))

  pub Leaves-ignore_error : (m : Action (Unit {0})) → Leaves f m → Leaves f (ignore_error m)
  Leaves-ignore_error m h = Leaves-catch _ _ h (λ e. Leaves-pure tt)

  pub Leaves-must_call : Leaves f (must_call env)
  Leaves-must_call = Leaves-catch _ _ Leaves-call (λ e. Leaves-crash)
