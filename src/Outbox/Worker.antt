-- ===== src/Outbox/Worker.antt =====
-- internal/outbox/worker.go: the configuration of a worker, one tick, and the loop of `Run` on what its
-- `select` receives. When the ticker fires is a parameter, and the log lines are left out; a negative
-- interval or size, which counts as 0, is one that is not set.
use go_auth_api.Base.{
  refl, List, Option, String, [], suc, zero, ◌≡◌, ◌∙◌, if◌then◌else◌, ℕ, ◌*◌, ◌==◌, ◌∷◌,
}
use go_auth_api.Errors.{Error}
use go_auth_api.Models.Account.{second}
use go_auth_api.Outbox.Batch.{process_batch-returns}
use go_auth_api.Outbox.Processor.{process_batch}
use go_auth_api.World.{Env, World, ok}
use go_auth_api.World.Action.{Action, pure, ◌>>=◌}

pub record WorkerConfig : Type 0 where
  pub poll_interval : ℕ
  pub batch_size : ℕ

-- `defaultWorkerConfig`
abbrev pub default_worker_config : WorkerConfig
default_worker_config = record { poll_interval = 5 * second; batch_size = 50 }

-- The configuration that `NewWorker` gives a worker.
unfoldable pub new_worker : WorkerConfig → WorkerConfig
new_worker cfg = record {
  poll_interval =
      if cfg.poll_interval == 0 then default_worker_config.poll_interval else cfg.poll_interval;
  batch_size = if cfg.batch_size == 0 then default_worker_config.batch_size else cfg.batch_size;
}

-- `Worker.tick`
unfoldable pub tick_once : Env → WorkerConfig → String → Action (ℕ × Option Error)
tick_once env cfg worker_id = process_batch env cfg.batch_size worker_id

-- What the `select` of `Run` receives: its context is cancelled, or the ticker fires. When both are
-- ready, the `select` takes either.
pub data Signal : Type 0 where
  ctx_done : Signal
  ticker_fired : Signal

-- A worker waits at its `select`, or has closed `stopped`.
pub data WorkerState : Type 0 where
  polling : WorkerState
  stopped : WorkerState

-- The loop of `Run`, on the signals it receives one after the other.
unfoldable pub select_loop : Env → WorkerConfig → String → List Signal → Action WorkerState
unfolding tick_once
select_loop env cfg worker_id [] = pure polling
select_loop env cfg worker_id (ctx_done ∷ signals) = pure stopped
select_loop env cfg worker_id (ticker_fired ∷ signals) =
    tick_once env cfg worker_id >>= λ _. select_loop env cfg worker_id signals

-- `Worker.Run`: a tick before the first signal, then the loop.
unfoldable pub run_worker : Env → WorkerConfig → String → List Signal → Action WorkerState
run_worker env cfg worker_id signals =
    tick_once env cfg worker_id >>= λ _. select_loop env cfg worker_id signals

-- The ticker fires `n` times, and then what follows.
abbrev pub fires : ℕ → List Signal → List Signal
fires zero rest = rest
fires (suc n) rest = ticker_fired ∷ fires n rest

-- The world after a number of batches.
abbrev pub after_batches : Env → WorkerConfig → String → ℕ → World → World
after_batches env cfg worker_id zero w = w
after_batches env cfg worker_id (suc n) w =
    after_batches env cfg worker_id n (process_batch env cfg.batch_size worker_id w).1

module _ (env : Env) (cfg : WorkerConfig) (worker_id : String) where
  -- A tick always returns, and the worker goes on in the world after its batch.
  tick_once-then :
      {A : Type 0} (next : Action A) (w : World)
      → (tick_once env cfg worker_id >>= (λ _. next)) w
        ≡ next (process_batch env cfg.batch_size worker_id w).1
  unfolding tick_once ◌>>=◌
  tick_once-then next w =
      let (r, e) = process_batch-returns env cfg.batch_size worker_id w in rw e refl

  select_loop-fires :
      (n : ℕ) (rest : List Signal) (w : World)
      → select_loop env cfg worker_id (fires n rest) w
        ≡ select_loop env cfg worker_id rest (after_batches env cfg worker_id n w)
  unfolding select_loop
  select_loop-fires zero rest w = refl
  select_loop-fires (suc n) rest w =
      tick_once-then (select_loop env cfg worker_id (fires n rest)) w
      ∙ select_loop-fires n rest (process_batch env cfg.batch_size worker_id w).1

  run_worker-fires :
      (n : ℕ) (rest : List Signal) (w : World)
      → run_worker env cfg worker_id (fires n rest) w
        ≡ select_loop env cfg worker_id rest (after_batches env cfg worker_id (suc n) w)
  unfolding run_worker
  run_worker-fires n rest w =
      tick_once-then (select_loop env cfg worker_id (fires n rest)) w
      ∙ select_loop-fires n rest (process_batch env cfg.batch_size worker_id w).1

  -- A worker whose ticker has fired n times has processed n + 1 batches of the configured size, and
  -- waits for the next signal, whatever has failed in the batches; and where its context is cancelled
  -- then, it stops after these batches, whatever signals would have followed.
  pub run_worker_lem :
      (n : ℕ) (rest : List Signal) (w : World)
      → (run_worker env cfg worker_id (fires n []) w
          ≡ (ok polling, after_batches env cfg worker_id (suc n) w))
        × (run_worker env cfg worker_id (fires n (ctx_done ∷ rest)) w
            ≡ (ok stopped, after_batches env cfg worker_id (suc n) w))
  unfolding select_loop pure
  run_worker_lem n rest w = (run_worker-fires n [] w, run_worker-fires n (ctx_done ∷ rest) w)
