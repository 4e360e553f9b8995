-- ===== src/Broker.antt =====
-- internal/broker/rabbitmq.go: publisher confirms. The state is that of the fields under the two
-- mutexes, with what was sent on the result channels and the confirmations that were received, newest
-- first; each step is what one goroutine does while it holds a mutex. AMQP numbers the messages of a
-- channel from 1, and uses a number only for a message that was sent.
pub mod Confirms
pub mod Connection
-- `pendingPublish`, under its sequence number.
use go_auth_api.Base.{
  Bool, List, Option, String, [], false, map, none, some, suc, true, ℕ, ◌++◌, ◌<>◌, ◌==◌, ◌∷◌,
}
use go_auth_api.Sql.{delete_rows, select_one}

pub record PendingPublish : Type 0 where
  pub tag : ℕ
  pub routing_key : String

-- `results` has what each waiting call of `Publish` received: `none` is nil.
pub record RabbitMq : Type 0 where
  pub closed : Bool
  pub next_seq : ℕ
  pub pending_publishes : List PendingPublish
  pub results : List (ℕ × Option String)
  pub confirmations : List (ℕ × Bool)

abbrev pub opened : RabbitMq
opened = record {
  closed = false;
  next_seq = 1;
  pending_publishes = [];
  results = [];
  confirmations = [];
}

-- `delete(r.pending, seqNo)`
unfoldable pub withdraw : ℕ → RabbitMq → RabbitMq
unfolding delete_rows
withdraw tag r = record r {
  pending_publishes = delete_rows (λ (p : PendingPublish). p.tag == tag) r.pending_publishes;
}

-- `r.pending[seqNo] = …`, which replaces what the map had under the number.
unfoldable pub register_pending : String → RabbitMq → RabbitMq
unfolding withdraw
register_pending routing_key r = record r {
  pending_publishes =
      record { tag = r.next_seq; routing_key = routing_key }
      ∷ (withdraw r.next_seq r).pending_publishes;
}

-- `Publish` between `publishMu.Lock` and `publishMu.Unlock`, where the message is sent. Where
-- `PublishWithContext` fails, it is `register_pending` alone, and the `delete` comes later.
unfoldable pub publish_sent : String → RabbitMq → RabbitMq
unfolding register_pending
publish_sent routing_key r = record (register_pending routing_key r) { next_seq = suc r.next_seq }

-- The result that `handleConfirmation` sends.
abbrev pub confirm_result : Bool → String → Option String
confirm_result true routing_key = none
confirm_result false routing_key = some ("broker: broker nacked message for " <> routing_key)

-- `handleConfirmation`: the result goes to the call whose entry was found.
unfoldable pub handle_confirmation : ℕ → Bool → RabbitMq → RabbitMq
unfolding select_one withdraw
handle_confirmation tag ack r =
    let received = record (withdraw tag r) { confirmations = (tag, ack) ∷ r.confirmations } in
    elim (select_one (λ (p : PendingPublish). p.tag == tag) r.pending_publishes) [
      | none ↦ received
      | some p ↦ record received { results = (p.tag, confirm_result ack p.routing_key) ∷ r.results }
    ]

-- `failAllPending`
unfoldable pub fail_all_pending : String → RabbitMq → RabbitMq
fail_all_pending cause r = record r {
  results = map (λ (p : PendingPublish). (p.tag, some cause)) r.pending_publishes ++ r.results;
  pending_publishes = [];
}

-- A step of one of the goroutines. `Publish` tests `closed` at its start only, so a message may be
-- sent after `Close`. It gives up where the message could not be sent, on a time-out and when its
-- context ends.
pub data Step : RabbitMq → RabbitMq → Type 0 where
  sends : (key : String) (r : RabbitMq) → Step r (publish_sent key r)
  fails_to_send : (key : String) (r : RabbitMq) → Step r (register_pending key r)
  confirms : (tag : ℕ) (ack : Bool) (r : RabbitMq) → Step r (handle_confirmation tag ack r)
  gives_up : (tag : ℕ) (r : RabbitMq) → Step r (withdraw tag r)
  loses_connection : (cause : String) (r : RabbitMq) → Step r (fail_all_pending cause r)
  closes : (r : RabbitMq) → Step r (record r { closed = true })

pub data Reachable : RabbitMq → Type 0 where
  start_open : Reachable opened
  step_on : {r r' : RabbitMq} → Reachable r → Step r r' → Reachable r'
