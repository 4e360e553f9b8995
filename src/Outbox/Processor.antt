-- ===== src/Outbox/Processor.antt =====
-- internal/outbox/processor.go. Log lines are left out.
use go_auth_api.Base.{
  List, Option, String, [], if◌then◌else◌, length, ltb, none, some, str_eq, ℕ, ◌*◌, ◌+◌, ◌<>◌, ◌^◌,
  ◌∷◌,
}
use go_auth_api.Errors.{Error, external, message}
use go_auth_api.Models.Account.{minute, second}
use go_auth_api.Models.Event.{OutboxEvent}
use go_auth_api.Repo.Outbox.{claim_batch, mark_failed, mark_published}
use go_auth_api.World.{Env, Outcome, err, ok, panicked}
use go_auth_api.World.Action.{
  Action, catch, crash, error_of, publish, pure, raise, time_now, ◌>>=◌, ◌>>◌,
}

-- `maxRetries`, which only decides about a log line
abbrev pub max_retries : ℕ
max_retries = 8

abbrev pub base_backoff : ℕ
base_backoff = 2 * second

abbrev pub max_backoff : ℕ
max_backoff = 5 * minute

abbrev pub claim_lock_duration : ℕ
claim_lock_duration = 30 * second

-- `backoffFor`. The product of floats is exact up to `maxBackoff`.
unfoldable pub backoff_for : ℕ → ℕ
backoff_for retry_count =
    let backoff = base_backoff * 2 ^ retry_count in
    if ltb max_backoff backoff then max_backoff else backoff

module _ (env : Env) where
  -- `decodeHeaders`: raw headers that are absent or empty are no headers.
  unfoldable pub decode_headers : Option String → Outcome (Option String)
  decode_headers none = ok none
  decode_headers (some raw) =
      if str_eq raw ""
      then ok none
      else elim (env.headers_error raw) [ none ↦ ok (some raw) | some m ↦ err (external m) ]

  -- `Processor.fail`, which always returns an error.
  unfoldable pub fail_event : OutboxEvent → Error → Action (Unit {0})
  fail_event event cause = do
    now ← time_now env
    catch (mark_failed env event.id (now + backoff_for event.retry_count) (message cause)) (λ e.
        raise (
          external (
            "publish failed ("
            <> message cause
            <> ") and failed to record failure: "
            <> message e)))
    raise cause

  -- `Processor.processOne`, once the headers are decoded.
  unfoldable pub publish_event : OutboxEvent → Option String → Action (Unit {0})
  publish_event event headers = do
    catch
        (publish env (record {
          event_id = event.id;
          event_type = event.event_type;
          payload = event.payload;
          headers = headers;
        }))
        (fail_event event)
    now ← time_now env
    catch (mark_published env event.id now) (λ e. raise (
        external
          ("failed to mark event " <> env.uuid_text event.id <> " published: " <> message e)))

  -- `Processor.processOne`
  unfoldable pub process_one : OutboxEvent → Action (Unit {0})
  process_one event = elim (decode_headers event.headers) [
    | ok headers ↦ publish_event event headers
    | err e ↦ fail_event event (external ("invalid headers: " <> message e))
    | panicked ↦ crash
  ]

  -- The loop of `ProcessBatch`, with the first error so far.
  unfoldable pub process_all : List OutboxEvent → Option Error → Action (Option Error)
  process_all [] first = pure first
  process_all (event ∷ events) first = error_of (process_one event) >>= λ e.
      process_all events (elim first [ none ↦ e | some f ↦ some f ])

  -- `Processor.ProcessBatch`: the number of events and the first error.
  unfoldable pub process_batch : ℕ → String → Action (ℕ × Option Error)
  process_batch batch_size worker_id =
      catch
        (do
          events ← claim_batch env batch_size worker_id claim_lock_duration
          first ← process_all events none
          pure (length events, first))
        (λ e. pure (0, some (external ("outbox: failed to claim pending events: " <> message e))))
