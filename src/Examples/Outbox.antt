-- ===== src/Examples/Outbox.antt =====
-- Runs of the outbox.
use go_auth_api.Base.{All, [], arith, false, none, refl, some, ◌∷◌, ◌≡◌, ◌≤◌}
use go_auth_api.Errors.{external, message}
use go_auth_api.Examples.{ann, outage, shop, site, start, tables}
use go_auth_api.Models.Event.{OutboxEvent, new_event, pending, published, user_created}
use go_auth_api.Outbox.Backoff.{backoff_for_lem}
use go_auth_api.Outbox.Batch.{process_batch-MarksTrue}
use go_auth_api.Outbox.Claims.{Claims, claim_rows_disjoint, pending_rows_empty}
use go_auth_api.Outbox.Delivery.{MarksAreTrue}
use go_auth_api.Outbox.Processor.{
  backoff_for, base_backoff, decode_headers, fail_event, max_backoff, process_all, process_batch,
  process_one, publish_event,
}
use go_auth_api.Outbox.Worker.{
  ctx_done, default_worker_config, run_worker, run_worker_lem, after_batches, polling, stopped,
  ticker_fired,
}
use go_auth_api.Repo.Outbox.{
  claim_event, claim_rows, claimed_rows, insert_by_age, is_among, is_claimable, oldest_first,
  pending_rows, select_all, set_failed, set_published,
}
use go_auth_api.Service.Login.{login_payload}
use go_auth_api.Sql.{exists_row, update_rows}
use go_auth_api.World.{World, ok}
use go_auth_api.World.Action.{call, catch, on_pool, publish, time_now, ◌>>=◌}

abbrev waiting : OutboxEvent
waiting = new_event 60 user_created (login_payload ann shop "127.0.0.1" 60) 1000 900

abbrev queue : World
queue = record start { db = record tables { outbox_events = waiting ∷ [] } }

runs :
    ((process_batch site 50 "worker" queue).0 ≡ ok (1, none))
    × ((process_batch outage 50 "worker" queue).0
        ≡ ok (0, some (external "outbox: failed to claim pending events: connection refused")))
unfolding process_batch process_all process_one publish_event fail_event decode_headers publish
    claim_rows claimed_rows claim_event is_among is_claimable oldest_first insert_by_age select_all
    set_published set_failed message new_event update_rows exists_row ◌>>=◌ catch call time_now
    on_pool
runs = (refl, refl)

claim_rows_disjoint_example :
    All
      (λ e. is_among (claimed_rows (λ id. false) 50 1000 (waiting ∷ [])) e ≡ false)
      (claimed_rows
        (λ id. false)
        10
        1020
        (claim_rows (λ id. false) 50 "worker" 30 1000 queue.db).1.outbox_events)
claim_rows_disjoint_example =
    claim_rows_disjoint (λ id. false) (λ id. false) 50 10 "worker" 30 1000 1020 queue.db
      (omega arith)

pending_rows_empty_example : (pending_rows (λ id. false) 50 1000 queue.db).0 ≡ ok []
pending_rows_empty_example = pending_rows_empty (λ id. false) 50 1000 queue.db

backoff_for_lem_example :
    (base_backoff ≤ backoff_for 3)
    × (backoff_for 3 ≤ max_backoff)
    × (backoff_for 3 ≤ backoff_for 4)
    × (backoff_for 11 ≡ max_backoff)
backoff_for_lem_example = backoff_for_lem 3

process_batch-MarksTrue_example :
    MarksAreTrue
      (process_batch site 50 "worker" queue).1.broker
      (process_batch site 50 "worker" queue).1.db
unfolding new_event
process_batch-MarksTrue_example =
    process_batch-MarksTrue site 50 "worker" queue ((λ h. absurd (unpublished h)), tt)
  where
    unpublished : pending ≡ published → ⊥
    unpublished h = cc

run_worker_lem_example :
    (run_worker site default_worker_config "worker" (ticker_fired ∷ []) queue
      ≡ (ok polling, after_batches site default_worker_config "worker" 2 queue))
    × (run_worker site default_worker_config "worker"
          (ticker_fired ∷ ctx_done ∷ ticker_fired ∷ [])
          queue
        ≡ (ok stopped, after_batches site default_worker_config "worker" 2 queue))
run_worker_lem_example =
    run_worker_lem site default_worker_config "worker" 1 (ticker_fired ∷ []) queue
