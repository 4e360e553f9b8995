-- ===== src/World/Ends.antt =====
-- How an action ends: a statement about its outcome and the world that it leaves, with one rule for
-- each way to build an action. A rule for a call has a premise for its failure.
use go_auth_api.Base.{Option, String, none, refl, some, ℕ, ◌≡◌}
use go_auth_api.Broker.{opened}
use go_auth_api.Errors.{Error, external}
use go_auth_api.World.{Env, Outcome, Tx, World, err, ok, panicked}
use go_auth_api.World.Action.{
  Action, Statement, answer, begin_tx, call, catch, commit, deferring_rollback, execute, finish,
  handle, in_tx, on_pool, on_tx, open_tx, pool, proceed, pure, raise, rolled_back, run_in,
  seen_by_tx, tick, time_now, ◌>>=◌,
}

pub record Ends {A : Type 0} (m : Action A) (w : World) (Q : Outcome A → World → Type 0)
    : Type 0 where
  pub holds : Q (m w).0 (m w).1

-- What is left to show of `m >>= f` once `m` has ended.
abbrev pub Continues :
    {A B : Type 0} → (A → Action B) → (Outcome B → World → Type 0) → Outcome A → World → Type 0
Continues f Q (ok a) w = Ends (f a) w Q
Continues f Q (err e) w = Q (err e) w
Continues f Q panicked w = Q panicked w

-- What is left to show of `catch m handler` once `m` has ended.
abbrev pub Handles :
    {A : Type 0} → (Error → Action A) → (Outcome A → World → Type 0) → Outcome A → World → Type 0
Handles handler Q (ok a) w = Q (ok a) w
Handles handler Q (err e) w = Ends (handler e) w Q
Handles handler Q panicked w = Q panicked w

module _ {A : Type 0} (Q : Outcome A → World → Type 0) where
  catch_cases :
      (handler : Error → Action A) (r : Outcome A) (w : World)
      → Handles handler Q r w
      → Q (handle handler r w).0 (handle handler r w).1
  catch_cases handler (ok a) w h = h
  catch_cases handler (err e) w h = h.holds
  catch_cases handler panicked w h = h

module _ {A : Type 0} {Q : Outcome A → World → Type 0} where
  pub Ends-pure : (a : A) (w : World) → Q (ok a) w → Ends (pure a) w Q
  unfolding pure
  Ends-pure a w h = record { holds = h }

  pub Ends-raise : (e : Error) (w : World) → Q (err e) w → Ends (raise e) w Q
  unfolding raise
  Ends-raise e w h = record { holds = h }

  pub Ends-catch :
      (m : Action A) (handler : Error → Action A) (w : World)
      → Ends m w (Handles handler Q)
      → Ends (catch m handler) w Q
  unfolding catch
  Ends-catch m handler w h = record { holds = catch_cases Q handler (m w).0 (m w).1 h.holds }

  pub Ends-rollback :
      (m : Action A) (w : World)
      → Ends m w (λ r w'. Q r (rolled_back w'))
      → Ends (deferring_rollback m) w Q
  unfolding deferring_rollback
  Ends-rollback m w h = record { holds = h.holds }

  pub Ends-on_pool :
      (now : ℕ) (stmt : Statement A) (w : World)
      → Q (stmt now w.db).0 (record w { db = (stmt now w.db).1; tx = seen_by_tx now stmt w.tx })
      → Ends (on_pool now stmt) w Q
  unfolding on_pool
  Ends-on_pool now stmt w h = record { holds = h }

  pub Ends-on_tx :
      (stmt : Statement A) (w : World)
      → Q (run_in w.tx stmt w).0 (run_in w.tx stmt w).1
      → Ends (on_tx stmt) w Q
  unfolding on_tx
  Ends-on_tx stmt w h = record { holds = h }

  pub Ends-mono :
      {P : Outcome A → World → Type 0} (m : Action A) (w : World)
      → Ends m w P
      → ((r : Outcome A) (w' : World) → P r w' → Q r w')
      → Ends m w Q
  Ends-mono m w h f = record { holds = f _ _ h.holds }

module _ {A B : Type 0} (Q : Outcome B → World → Type 0) where
  proceed_cases :
      (f : A → Action B) (r : Outcome A) (w : World)
      → Continues f Q r w
      → Q (proceed r f w).0 (proceed r f w).1
  proceed_cases f (ok a) w h = h.holds
  proceed_cases f (err e) w h = h
  proceed_cases f panicked w h = h

module _ {A B : Type 0} {Q : Outcome B → World → Type 0} where
  pub Ends-bind :
      (m : Action A) (f : A → Action B) (w : World) → Ends m w (Continues f Q) → Ends (m >>= f) w Q
  unfolding ◌>>=◌
  Ends-bind m f w h = record { holds = proceed_cases Q f (m w).0 (m w).1 h.holds }

module _ (env : Env) {B : Type 0} {Q : Outcome B → World → Type 0} where
  -- A call and what follows it.
  pub Ends-call :
      (f : ℕ → Action B) (w : World)
      → ((m : String) → env.fault w.calls ≡ some m → Q (err (external m)) (tick w))
      → Ends (f w.calls) (tick w) Q
      → Ends (call env >>= f) w Q
  unfolding ◌>>=◌ call
  Ends-call f w failing h = record { holds = go (env.fault w.calls) refl }
    where
      go :
          (fault : Option String)
          → env.fault w.calls ≡ fault
          → Q
              (proceed (answer fault w.calls (tick w)).0 f (answer fault w.calls (tick w)).1).0
              (proceed (answer fault w.calls (tick w)).0 f (answer fault w.calls (tick w)).1).1
      go none e = h.holds
      go (some m) e = failing m e

  pub Ends-time_now :
      (f : ℕ → Action B) (w : World)
      → Ends (f (env.clock w.calls)) (tick w) Q
      → Ends (time_now env >>= f) w Q
  unfolding ◌>>=◌ time_now
  Ends-time_now f w h = record { holds = h.holds }

module _ (env : Env) {B : Type 0} {Q : Outcome B → World → Type 0} where
  -- `BeginTx` and what follows it.
  pub Ends-begin_tx :
      (f : Unit {0} → Action B) (w : World)
      → ((m : String) → env.fault w.calls ≡ some m → Q (err (external m)) (tick w))
      → Ends
          (f tt)
          (record (tick w) { tx = some (record { work = w.db; began = env.clock w.calls }) })
          Q
      → Ends (begin_tx env >>= f) w Q
  unfolding ◌>>=◌ open_tx
  Ends-begin_tx f w failing h =
      Ends-bind _ _ _ (Ends-call env {Q = Continues f Q} _ _ failing (record { holds = h }))

  -- `ExecContext` or `QueryRowContext` in an open transaction.
  pub Ends-execute_tx :
      (stmt : Statement B) (w : World) (t : Tx)
      → w.tx ≡ some t
      → ((m : String) → env.fault w.calls ≡ some m → Q (err (external m)) (tick w))
      → Q
          (stmt t.began t.work).0
          (record (tick w) { tx = some (record t { work = (stmt t.began t.work).1 }) })
      → Ends (execute env in_tx stmt) w Q
  Ends-execute_tx stmt w t opened failing h =
      Ends-call env (λ _. on_tx stmt) w failing (Ends-on_tx stmt (tick w) (rw opened h))

  -- The same on the pool.
  pub Ends-execute_pool :
      (stmt : Statement B) (w : World)
      → ((m : String) → env.fault w.calls ≡ some m → Q (err (external m)) (tick w))
      → Q (stmt (env.clock w.calls) w.db).0 (record (tick w) {
        db = (stmt (env.clock w.calls) w.db).1;
        tx = seen_by_tx (env.clock w.calls) stmt w.tx;
      })
      → Ends (execute env pool stmt) w Q
  Ends-execute_pool stmt w failing h =
      Ends-call env _ w failing (Ends-on_pool (env.clock w.calls) stmt (tick w) h)

module _ (env : Env) {Q : Outcome (Unit {0}) → World → Type 0} where
  pub Ends-commit :
      (w : World) (t : Tx)
      → w.tx ≡ some t
      → ((m : String) → env.fault w.calls ≡ some m → Q (err (external m)) (rolled_back (tick w)))
      → Q (ok tt) (record (tick w) { db = t.work; tx = none })
      → Ends (commit env) w Q
  unfolding commit
  Ends-commit w t opened failing h = record { holds = simp opened (go (env.fault w.calls) refl) }
    where
      go :
          (fault : Option String)
          → env.fault w.calls ≡ fault
          → Q (finish fault (some t) w).0 (finish fault (some t) w).1
      go none e = h
      go (some m) e = failing m e

-- Nothing that the database or the request's transaction holds has changed.
abbrev pub SameData : World → World → Type 0
SameData w w' = (w'.db ≡ w.db) × (w'.tx ≡ w.tx)
