-- ===== src/Broker/Connection.antt =====
-- internal/broker/rabbitmq.go: how the connection is made and closed. The AMQP library's answers are
-- parameters: an error's message, or none.
-- What `amqp.Dial`, `Channel`, `ExchangeDeclare` and `Confirm` answer.
use go_auth_api.Base.{
  Bool, Option, String, [], arith, false, if◌then◌else◌, none, refl, some, true, ◌<>◌, ◌≡◌,
}
use go_auth_api.Broker.{RabbitMq, fail_all_pending, opened}

pub record Dialling : Type 0 where
  pub dial_error : Option String
  pub channel_error : Option String
  pub declare_error : Option String
  pub confirm_error : Option String

pub record Connection : Type 0 where
  pub connection_is_open : Bool
  pub channel_is_open : Bool

abbrev pub connection : Bool → Bool → Connection
connection conn channel = record { connection_is_open = conn; channel_is_open = channel }

-- `NewRabbitMQ` after each of its calls: what it returns, and what it leaves open.
abbrev pub confirm_mode : Option String → (Option String × RabbitMq) × Connection
confirm_mode none = ((none, opened), connection true true)
confirm_mode (some e) = ((some e, opened), connection false false)

abbrev pub declare_exchange :
    Option String → Option String → (Option String × RabbitMq) × Connection
declare_exchange none confirm = confirm_mode confirm
declare_exchange (some e) confirm = ((some e, opened), connection false false)

-- `NewRabbitMQ`: an error, or the broker.
unfoldable pub new_rabbit_mq : Dialling → (Option String × RabbitMq) × Connection
new_rabbit_mq d = elim d.dial_error [
  | some e ↦ ((some e, opened), connection false false)
  | none ↦ elim d.channel_error [
    | some e ↦ ((some e, opened), connection false false)
    | none ↦ declare_exchange d.declare_error d.confirm_error
  ]
]

-- The error that `Close` returns.
abbrev pub close_error : Option String → Option String → Option String
close_error (some e) conn_error = some ("broker: error closing channel: " <> e)
close_error none (some e) = some ("broker: error closing connection: " <> e)
close_error none none = none

-- `Close`: after the confirmation loop has failed every call that waits, the channel and the
-- connection are closed.
unfoldable pub close :
    Option String → Option String → RabbitMq × Connection → Option String × (RabbitMq × Connection)
unfolding fail_all_pending
close channel_error conn_error (r, c) = if r.closed then (none, (r, c)) else (
  close_error channel_error conn_error,
  (
    fail_all_pending "broker: connection closed" (record r { closed = true }),
    connection false false,
  ),
)

-- A broker that was not made leaves nothing open, and one that was has everything open.
new_rabbit_mq-error :
    (d : Dialling) (e : String)
    → (new_rabbit_mq d).0.0 ≡ some e
    → (new_rabbit_mq d).1 ≡ connection false false
unfolding new_rabbit_mq
new_rabbit_mq-error d e h = ground arith

-- Closing twice is closing once, and after it no call waits.
close_twice :
    (ch conn ch' conn' : Option String) (r : RabbitMq) (c : Connection)
    → r.closed ≡ false
    → (close ch' conn' (close ch conn (r, c)).1 ≡ (none, (close ch conn (r, c)).1))
      × ((close ch conn (r, c)).1.0.pending_publishes ≡ [])
unfolding close fail_all_pending
close_twice ch conn ch' conn' r c e = rw e (refl, refl)
