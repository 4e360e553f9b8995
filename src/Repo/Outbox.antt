-- ===== src/Repo/Outbox.antt =====
-- internal/outbox/outbox_repository.go on the table `outbox_events`.
use go_auth_api.Base.{
  Bool, List, String, [], false, if◌then◌else◌, leb, ltb, map, none, not, some, str_eq, take, true,
  ℕ, ◌&&◌, ◌+◌, ◌==◌, ◌||◌, ◌∷◌,
}
use go_auth_api.Errors.{external}
use go_auth_api.Models.Event.{
  EventStatus, OutboxEvent, failed, pending, processing, published, publishing,
}
use go_auth_api.Sql.{exists_row, update_rows}
use go_auth_api.World.{Env, err, ok}
use go_auth_api.World.Action.{Action, Conn, Statement, call, execute, on_pool, pool, ◌>>=◌}

module _ (env : Env) where
  -- `INSERT INTO outbox_events`, with the `CHECK` on the status, which has no word "publishing".
  unfoldable pub insert_event : OutboxEvent → Statement (Unit {0})
  insert_event e now d =
      let stored : OutboxEvent = record e {
        locked_at = none;
        locked_until = none;
        locked_by = none;
      } in
      if exists_row (λ (r : OutboxEvent). r.id == e.id) d.outbox_events
      then (err (external env.unique_violation), d)
      else elim e.status [
        | publishing ↦ (err (external env.check_violation), d)
        | _ ↦ (ok tt, record d { outbox_events = stored ∷ d.outbox_events })
      ]

  -- `outbox_repo.CreateTx`; `Create` is the same statement on the pool.
  abbrev pub create_event : Conn → OutboxEvent → Action (Unit {0})
  create_event exec e = execute env exec (insert_event e)

-- The `WHERE` of `ClaimBatch`.
unfoldable pub is_claimable : ℕ → OutboxEvent → Bool
is_claimable now e = elim e.status [
  | pending ↦ true
  | processing ↦ elim e.locked_until [ none ↦ false | some until ↦ ltb until now ]
  | failed ↦ leb e.next_retry_at now
  | publishing ↦ false
  | published ↦ false
]

-- `ORDER BY created_at ASC`
unfoldable pub insert_by_age : OutboxEvent → List OutboxEvent → List OutboxEvent
insert_by_age e [] = e ∷ []
insert_by_age e (x ∷ xs) =
    if leb e.created_at x.created_at then e ∷ x ∷ xs else x ∷ insert_by_age e xs

unfoldable pub oldest_first : List OutboxEvent → List OutboxEvent
unfolding insert_by_age
oldest_first [] = []
oldest_first (x ∷ xs) = insert_by_age x (oldest_first xs)

unfoldable pub select_all : (OutboxEvent → Bool) → List OutboxEvent → List OutboxEvent
select_all p [] = []
select_all p (x ∷ xs) = if p x then x ∷ select_all p xs else select_all p xs

-- The common table expression `claimed`: `busy` tells the rows that another statement has locked,
-- which `SKIP LOCKED` passes over.
unfoldable pub claimed_rows : (ℕ → Bool) → ℕ → ℕ → List OutboxEvent → List OutboxEvent
unfolding is_claimable oldest_first select_all
claimed_rows busy limit now rows =
    take limit (oldest_first (select_all (λ e. is_claimable now e && not (busy e.id)) rows))

-- The `SET` of `ClaimBatch`.
unfoldable pub claim_event : String → ℕ → ℕ → OutboxEvent → OutboxEvent
claim_event worker_id lock_duration now e = record e {
  status = processing;
  locked_at = some now;
  locked_until = some (now + lock_duration);
  locked_by = some worker_id;
}

unfoldable pub is_among : List OutboxEvent → OutboxEvent → Bool
unfolding exists_row
is_among claimed e = exists_row (λ (c : OutboxEvent). c.id == e.id) claimed

-- `outbox_repo.ClaimBatch`
unfoldable pub claim_rows : (ℕ → Bool) → ℕ → String → ℕ → Statement (List OutboxEvent)
unfolding claimed_rows claim_event is_among
claim_rows busy limit worker_id lock_duration now d =
    let claimed = claimed_rows busy limit now d.outbox_events in
    (
      ok (map (claim_event worker_id lock_duration now) claimed),
      record d {
        outbox_events =
            update_rows (is_among claimed) (claim_event worker_id lock_duration now)
              d.outbox_events;
      },
    )

-- The `WHERE` of `FetchPending`, whose status words are capitalised: `'Pending', 'Failed'`.
unfoldable pub status_text : EventStatus → String
status_text pending = "pending"
status_text processing = "processing"
status_text publishing = "publishing"
status_text published = "published"
status_text failed = "failed"

unfoldable pub is_fetchable : ℕ → OutboxEvent → Bool
unfolding status_text
is_fetchable now e =
    (str_eq (status_text e.status) "Pending" || str_eq (status_text e.status) "Failed")
    && leb e.next_retry_at now

-- `outbox_repo.FetchPending`
unfoldable pub pending_rows : (ℕ → Bool) → ℕ → Statement (List OutboxEvent)
unfolding is_fetchable oldest_first select_all
pending_rows busy limit now d = (
  ok (
      take limit
        (oldest_first (select_all (λ e. is_fetchable now e && not (busy e.id)) d.outbox_events))),
  d,
)

-- `outbox_repo.MarkPublished`
unfoldable pub set_published : ℕ → ℕ → Statement (Unit {0})
set_published id published_at now d = (
  ok tt,
  record d {
    outbox_events =
        update_rows (λ (e : OutboxEvent). e.id == id)
          (λ e. record e {
            status = published;
            published_at = some published_at;
            last_error = none;
          })
          d.outbox_events;
  },
)

-- `outbox_repo.MarkFailed`
unfoldable pub set_failed : ℕ → ℕ → String → Statement (Unit {0})
set_failed id next_retry_at last_err now d = (
  ok tt,
  record d {
    outbox_events =
        update_rows (λ (e : OutboxEvent). e.id == id)
          (λ e. record e {
            status = failed;
            retry_count = e.retry_count + 1;
            next_retry_at = next_retry_at;
            last_error = some last_err;
          })
          d.outbox_events;
  },
)

module _ (env : Env) where
  abbrev pub claim_batch : ℕ → String → ℕ → Action (List OutboxEvent)
  claim_batch limit worker_id lock_duration = do
    n ← call env
    on_pool (env.clock n) (claim_rows (env.row_busy n) limit worker_id lock_duration)

  abbrev pub fetch_pending : ℕ → Action (List OutboxEvent)
  fetch_pending limit = do n ← call env; on_pool (env.clock n) (pending_rows (env.row_busy n) limit)

  abbrev pub mark_published : ℕ → ℕ → Action (Unit {0})
  mark_published id published_at = execute env pool (set_published id published_at)

  abbrev pub mark_failed : ℕ → ℕ → String → Action (Unit {0})
  mark_failed id next_retry_at last_err = execute env pool (set_failed id next_retry_at last_err)
