-- ===== src/World/Action.antt =====
-- Operations as state passing with errors and panics, calls out of the program, and SQL statements
-- inside and outside a transaction (`database/sql`, internal/auth/dbtx).
use go_auth_api.Base.{Bool, if◌then◌else◌, Option, String, none, some, suc, ℕ, ◌∷◌}
use go_auth_api.Errors.{Error, external, tx_done}
use go_auth_api.Models.Event.{Payload}
use go_auth_api.World.{Database, Env, EventEnvelope, Outcome, Tx, World, err, ok, panicked}

abbrev pub Action : Type 0 → Type 0
Action A = World → Outcome A × World

module _ {A : Type 0} where
  unfoldable pub pure : A → Action A
  pure a w = (ok a, w)

  unfoldable pub raise : Error → Action A
  raise e w = (err e, w)

  -- A Go panic.
  unfoldable pub crash : Action A
  crash w = (panicked, w)

  -- `if err != nil { … }`: the handler runs where the error of `m` left the world.
  abbrev pub handle : (Error → Action A) → Outcome A → Action A
  handle handler (ok a) w = (ok a, w)
  handle handler (err e) w = handler e w
  handle handler panicked w = (panicked, w)

  unfoldable pub catch : Action A → (Error → Action A) → Action A
  catch m handler w = let (r, w') = m w in handle handler r w'

module _ {A B : Type 0} where
  abbrev pub proceed : Outcome A → (A → Action B) → Action B
  proceed (ok a) f w = f a w
  proceed (err e) f w = (err e, w)
  proceed panicked f w = (panicked, w)

  infixl 5 ◌>>=◌ ◌>>◌
  -- Opening this opens `pure`, `raise`, `crash` and `catch` too.
  unfoldable pub ◌>>=◌ : Action A → (A → Action B) → Action B
  unfolding pure raise crash catch
  ◌>>=◌ m f w = let (r, w') = m w in proceed r f w'

  abbrev pub ◌>>◌ : Action A → Action B → Action B
  m >> k = m >>= λ _. k

-- `_ = m`: the error is dropped.
abbrev pub ignore_error : Action (Unit {0}) → Action (Unit {0})
ignore_error m = catch m (λ _. pure tt)

-- What `m` returned, or none where it returned an error.
abbrev pub attempt : {A : Type 0} → Action A → Action (Option A)
attempt m = catch (m >>= λ a. pure (some a)) (λ _. pure none)

-- The error of `m`, if it returned one.
abbrev pub error_of : Action (Unit {0}) → Action (Option Error)
error_of m = catch (m >> pure none) (λ e. pure (some e))

-- `dbtx.DBTX`: the pool `*sql.DB`, or the open transaction `*sql.Tx`.
pub data Conn : Type 0 where
  pool in_tx : Conn

-- A SQL statement at the time that it reads as `NOW()`.
abbrev pub Statement : Type 0 → Type 0
Statement A = ℕ → Database → Outcome A × Database

-- The world after one more call.
abbrev pub tick : World → World
tick w = record w { calls = suc w.calls }

module _ {A : Type 0} where
  -- What an open transaction sees of a statement that another connection commits (READ COMMITTED).
  abbrev pub seen_by_tx : ℕ → Statement A → Option Tx → Option Tx
  seen_by_tx now stmt none = none
  seen_by_tx now stmt (some t) = some (record t { work = (stmt now t.work).1 })

  -- A statement on the pool commits at once.
  unfoldable pub on_pool : ℕ → Statement A → Action A
  on_pool now stmt w =
      ((stmt now w.db).0, record w { db = (stmt now w.db).1; tx = seen_by_tx now stmt w.tx })

  abbrev pub run_in : Option Tx → Statement A → Action A
  run_in none stmt w = (err tx_done, w)
  run_in (some t) stmt w = (
    (stmt t.began t.work).0,
    record w { tx = some (record t { work = (stmt t.began t.work).1 }) },
  )

  -- A statement in the transaction is seen by the transaction alone, and reads the time of `BEGIN`.
  unfoldable pub on_tx : Statement A → Action A
  on_tx stmt w = run_in w.tx stmt w

abbrev pub answer : Option String → ℕ → World → Outcome ℕ × World
answer none n w = (ok n, w)
answer (some m) n w = (err (external m), w)

abbrev pub finish : Option String → Option Tx → World → Outcome (Unit {0}) × World
finish fault none w = (err tx_done, w)
finish none (some t) w = (ok tt, record w { db = t.work; tx = none; calls = suc w.calls })
finish (some m) (some t) w = (err (external m), record w { tx = none; calls = suc w.calls })

-- What a failed publication leaves with the broker.
abbrev pub unconfirmed : Bool → EventEnvelope → World → World
unconfirmed anyway envelope w = if anyway then record w { broker = envelope ∷ w.broker } else w

abbrev pub published_as : Option String → Bool → EventEnvelope → Action (Unit {0})
published_as none anyway envelope w = (ok tt, record w { broker = envelope ∷ w.broker })
published_as (some m) anyway envelope w = (err (external m), unconfirmed anyway envelope w)

module _ (env : Env) where
  -- A call out of the program: it fails as `fault` says, and else its answer is read at its index.
  unfoldable pub call : Action ℕ
  call w = answer (env.fault w.calls) w.calls (tick w)

  -- `time.Now()`
  unfoldable pub time_now : Action ℕ
  time_now w = (ok (env.clock w.calls), tick w)

  -- `uuid.NewV7()`
  abbrev pub new_uuid_v7 : Action ℕ
  new_uuid_v7 = do n ← call; pure (env.new_uuid n)

  -- `uuid.NewString()`, which panics where no random bytes are to be had.
  abbrev pub must_call : Action ℕ
  must_call = catch call (λ _. crash)

  -- `json.Marshal(v)`
  abbrev pub marshal : Payload → Action Payload
  marshal v = do call; pure v

  unfoldable pub deliver : String → String → Action (Unit {0})
  deliver to token w = (ok tt, record w { mails = (to, token) ∷ w.mails })

  -- `mailer.SendVerificationEmail`
  abbrev pub send_mail : String → String → Action (Unit {0})
  send_mail to token = do call; deliver to token

  -- `broker.Publish`: it returns nil where the broker has confirmed the message; where it returns an
  -- error (the message could not be sent, a time-out, a context that ended), the broker may have
  -- confirmed the message or not.
  unfoldable pub publish : EventEnvelope → Action (Unit {0})
  publish envelope w =
      published_as (env.fault w.calls) (env.confirmed_anyway w.calls) envelope (tick w)

  -- `ExecContext`, `QueryRowContext`
  abbrev pub execute : {A : Type 0} → Conn → Statement A → Action A
  execute pool stmt = do n ← call; on_pool (env.clock n) stmt
  execute in_tx stmt = do call; on_tx stmt

  unfoldable pub open_tx : ℕ → Action (Unit {0})
  open_tx began w = (ok tt, record w { tx = some (record { work = w.db; began = began }) })

  -- `db.BeginTx(ctx, nil)`
  abbrev pub begin_tx : Action (Unit {0})
  begin_tx = do n ← call; open_tx (env.clock n)

  -- `tx.Commit()`: a transaction that fails to commit is over, and has written nothing.
  unfoldable pub commit : Action (Unit {0})
  commit w = finish (env.fault w.calls) w.tx w

-- `tx.Rollback()`, which does nothing after a commit.
abbrev pub rolled_back : World → World
rolled_back w = record w { tx = none }

-- `defer func() { _ = tx.Rollback() }()`: the rollback runs however the rest ends.
unfoldable pub deferring_rollback : {A : Type 0} → Action A → Action A
deferring_rollback m w = let (r, w') = m w in (r, rolled_back w')
