-- ===== src/Examples/Broker.antt =====
-- A message is sent and confirmed.
use go_auth_api.Base.{[], none, refl, true, ◌∷◌, ◌≡◌}
use go_auth_api.Broker.{
  RabbitMq, Reachable, confirms, fails_to_send, gives_up, handle_confirmation, opened, publish_sent,
  register_pending, sends, start_open, step_on, withdraw,
}
use go_auth_api.Broker.Confirms.{Reachable-Truthful, Truthful}
use go_auth_api.Sql.{delete_rows, select_one}

abbrev sent_and_confirmed : RabbitMq
sent_and_confirmed = handle_confirmation 1 true (publish_sent "user.created" opened)

reached : Reachable sent_and_confirmed
reached =
    step_on (step_on start_open (sends "user.created" opened))
      (confirms 1 true (publish_sent "user.created" opened))

confirmed_run : sent_and_confirmed.results ≡ ((1, none) ∷ [])
unfolding handle_confirmation publish_sent register_pending withdraw select_one delete_rows
confirmed_run = refl

Reachable-Truthful_example : Truthful sent_and_confirmed
Reachable-Truthful_example = Reachable-Truthful sent_and_confirmed reached

-- A call fails to send, another call is given its number, and the first call withdraws the number:
-- the broker confirms the message of the second call, which receives no result.
abbrev race : RabbitMq
race =
    handle_confirmation 1 true
      (withdraw 1 (publish_sent "user.created" (register_pending "user.updated" opened)))

race_reached : Reachable race
race_reached =
    step_on
      (step_on
        (step_on (step_on start_open (fails_to_send "user.updated" opened))
          (sends "user.created" (register_pending "user.updated" opened)))
        (gives_up 1 (publish_sent "user.created" (register_pending "user.updated" opened))))
      (confirms 1 true
        (withdraw 1 (publish_sent "user.created" (register_pending "user.updated" opened))))

race_run :
    (race.confirmations ≡ ((1, true) ∷ [])) × (race.results ≡ []) × (race.pending_publishes ≡ [])
unfolding handle_confirmation publish_sent register_pending withdraw select_one delete_rows
race_run = (refl, refl, refl)
