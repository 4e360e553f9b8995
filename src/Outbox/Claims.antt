-- ===== src/Outbox/Claims.antt =====
-- What `ClaimBatch` claims, and for how long the claim holds.
use go_auth_api.Base.{
  All, All-mono, Any, Bool, Option, none, some, ltb, ◌<◌, ◌==◌, List, String, [], arith, false, leb,
  length, length-take-le, map, not, refl, str_eq, suc, take, true, zero, ℕ, ◌&&◌, ◌+◌, ◌||◌, ◌∷◌,
  ◌≡◌, ◌≤◌, ◌⊎◌,
}
use go_auth_api.Models.Event.{
  EventStatus, OutboxEvent, failed, pending, processing, published, publishing,
}
use go_auth_api.Outbox.Order.{
  Ascending, IsInOrNewer, oldest_first-Ascending, select_oldest, take-Ascending,
}
use go_auth_api.Outbox.Selected.{
  IsIn, claimed_rows-All, exists_row-oldest_first, own_rows, select_all_complete, take-all,
}
use go_auth_api.Repo.Outbox.{
  claim_event, claim_rows, claimed_rows, is_among, is_claimable, is_fetchable, oldest_first,
  pending_rows, select_all, status_text,
}
use go_auth_api.Sql.Laws.{update_rows_pointwise}
use go_auth_api.Sql.{exists_row, update_rows}
use go_auth_api.World.{Database, Outcome, ok}

-- An event that a worker may claim: it is pending, or it has failed and its retry is due, or a claim
-- on it has run out.
pub data Due (now : ℕ) (e : OutboxEvent) : Type 0 where
  due_first : e.status ≡ pending → Due now e
  due_again : e.status ≡ failed → e.next_retry_at ≤ now → Due now e
  due_unlocked :
      (until : ℕ) → e.status ≡ processing → e.locked_until ≡ some until → until < now → Due now e

is_claimable-Due : (now : ℕ) (e : OutboxEvent) → is_claimable now e ≡ true → Due now e
unfolding is_claimable
is_claimable-Due now e h = go e.status refl h
  where
    locked :
        (until : Option ℕ)
        → e.status ≡ processing
        → e.locked_until ≡ until
        → (elim until [ none ↦ false | some u ↦ ltb u now ]) ≡ true
        → Due now e
    locked none s l h = absurd cc
    locked (some u) s l h = due_unlocked u s l (ground arith)

    go :
        (status : EventStatus)
        → e.status ≡ status
        → (elim status [
          | pending ↦ true
          | processing ↦ elim e.locked_until [ none ↦ false | some until ↦ ltb until now ]
          | failed ↦ leb e.next_retry_at now
          | publishing ↦ false
          | published ↦ false
        ])
          ≡ true
        → Due now e
    go pending s h = due_first s
    go processing s h = locked e.locked_until s refl h
    go failed s h = due_again s (ground arith)
    go publishing s h = absurd cc
    go published s h = absurd cc

-- The row of a claimed event.
abbrev pub claimed_as : String → ℕ → ℕ → OutboxEvent → OutboxEvent
claimed_as worker lock now e = record e {
  status = processing;
  locked_at = some now;
  locked_until = some (now + lock);
  locked_by = some worker;
}

Due-is_claimable : (now : ℕ) (e : OutboxEvent) → Due now e → is_claimable now e ≡ true
unfolding is_claimable
Due-is_claimable now e (due_first s) = rw s refl
Due-is_claimable now e (due_again s h) = rw s (ground arith)
Due-is_claimable now e (due_unlocked u s l h) = rw (s, l) (ground arith)

claimed_rows_complete :
    (busy : ℕ → Bool) (limit now : ℕ) (rows : List OutboxEvent)
    → length (claimed_rows busy limit now rows) < limit
    → All
        (λ (e : OutboxEvent).
          Due now e → busy e.id ≡ false → IsIn (claimed_rows busy limit now rows) e)
        rows
unfolding claimed_rows
claimed_rows_complete busy limit now rows h =
    All-mono _ _
      (λ e f due free.
        rw
          (
            take-all limit _ h,
            exists_row-oldest_first (λ (c : OutboxEvent). c.id == e.id)
                (select_all (λ e. is_claimable now e && not (busy e.id)) rows),
          )
          (f (rw (Due-is_claimable now e due, free) refl)))
      rows (select_all_complete (λ e. is_claimable now e && not (busy e.id)) rows)

eligible_rows :
    (busy : ℕ → Bool) (limit now : ℕ) (rows : List OutboxEvent)
    → All
        (λ (e : OutboxEvent). Any (λ r. r ≡ e) rows × Due now e × (busy e.id ≡ false))
        (claimed_rows busy limit now rows)
eligible_rows busy limit now rows =
    claimed_rows-All (λ e. Any (λ r. r ≡ e) rows) _ busy limit now rows
      (λ e h k row. (row, is_claimable-Due now e h, k)) (own_rows rows)

claimed_rows-Ascending :
    (busy : ℕ → Bool) (limit now : ℕ) (rows : List OutboxEvent)
    → Ascending (claimed_rows busy limit now rows)
unfolding claimed_rows
claimed_rows-Ascending busy limit now rows =
    take-Ascending limit _
      (oldest_first-Ascending (select_all (λ e. is_claimable now e && not (busy e.id)) rows))

claimed_rows_oldest :
    (busy : ℕ → Bool) (limit now : ℕ) (rows : List OutboxEvent)
    → All
        (λ (e : OutboxEvent).
          Due now e → busy e.id ≡ false → IsInOrNewer (claimed_rows busy limit now rows) e)
        rows
unfolding claimed_rows
claimed_rows_oldest busy limit now rows =
    All-mono _ _ (λ e f due free. f (rw (Due-is_claimable now e due, free) refl)) rows
      (select_oldest (λ e. is_claimable now e && not (busy e.id)) limit rows)

-- What a claim on these rows with this limit takes.
pub record Claims (busy : ℕ → Bool) (limit now : ℕ) (rows claimed : List OutboxEvent) : Type 0 where
  pub bound : length claimed ≤ limit
  pub eligible :
      All (λ (e : OutboxEvent). Any (λ r. r ≡ e) rows × Due now e × (busy e.id ≡ false)) claimed
  pub complete :
      length claimed < limit
      → All
          (λ (e : OutboxEvent).
            Due now e
            → busy e.id ≡ false
            → exists_row (λ (c : OutboxEvent). c.id == e.id) claimed ≡ true)
          rows
  pub ordered : Ascending claimed
  pub oldest :
      All
        (λ (e : OutboxEvent).
          Due now e
          → busy e.id ≡ false
          → (exists_row (λ (c : OutboxEvent). c.id == e.id) claimed ≡ true)
            ⊎ All (λ (c : OutboxEvent). c.created_at ≤ e.created_at) claimed)
        rows

pub claim_rows_lem :
    (busy : ℕ → Bool) (limit : ℕ) (worker : String) (lock now : ℕ) (d : Database)
    → (claimed : List OutboxEvent) × Claims busy limit now d.outbox_events claimed
      × ((claim_rows busy limit worker lock now d).0
          ≡ ok (map (claimed_as worker lock now) claimed))
      × ((claim_rows busy limit worker lock now d).1 ≡ record d {
        outbox_events =
            update_rows
              (λ (e : OutboxEvent). exists_row (λ (c : OutboxEvent). c.id == e.id) claimed)
              (claimed_as worker lock now)
              d.outbox_events;
      })
unfolding claim_rows claim_event is_among claimed_rows
claim_rows_lem busy limit worker lock now d = (
  claimed_rows busy limit now d.outbox_events,
  record {
    bound = length-take-le limit _;
    eligible = eligible_rows busy limit now d.outbox_events;
    complete = claimed_rows_complete busy limit now d.outbox_events;
    ordered = claimed_rows-Ascending busy limit now d.outbox_events;
    oldest = claimed_rows_oldest busy limit now d.outbox_events;
  },
  refl,
  refl,
)

-- Two claims do not overlap: while the first claim's lock lasts, a later claim, by whichever worker
-- and with whatever limit, takes none of the rows of the first.
pub claim_rows_disjoint :
    (busy busy' : ℕ → Bool) (limit limit' : ℕ) (worker : String) (lock now later : ℕ) (d : Database)
    → later ≤ now + lock
    → All
        (λ e. is_among (claimed_rows busy limit now d.outbox_events) e ≡ false)
        (claimed_rows busy' limit' later (claim_rows busy limit worker lock now d).1.outbox_events)
unfolding claim_rows is_claimable claim_event
claim_rows_disjoint busy busy' limit limit' worker lock now later d held =
    claimed_rows-All (λ e. is_claimable later e ≡ true → is_among claimed e ≡ false) _ busy' limit'
      later _ (λ e due free p. p due)
      (update_rows_pointwise _ (is_among claimed) (claim_event worker lock now) d.outbox_events
        (λ e hit due. absurd (locked e due)) (λ e miss due. miss))
  where
    claimed : List OutboxEvent
    claimed = claimed_rows busy limit now d.outbox_events

    locked : (e : OutboxEvent) → is_claimable later (claim_event worker lock now e) ≡ true → ⊥
    locked e due = ground arith

-- `FetchPending` returns no event at all, whatever the table: its status words are capitalised, and
-- no status is.
pub pending_rows_empty :
    (busy : ℕ → Bool) (limit now : ℕ) (d : Database) → (pending_rows busy limit now d).0 ≡ ok []
unfolding pending_rows is_fetchable status_text oldest_first select_all
pending_rows_empty busy limit now d = rw (none_selected d.outbox_events) (ends limit)
  where
    never :
        (status : EventStatus)
        → (str_eq (status_text status) "Pending" || str_eq (status_text status) "Failed") ≡ false
    never pending = refl
    never processing = refl
    never publishing = refl
    never published = refl
    never failed = refl

    none_selected :
        (rows : List OutboxEvent)
        → select_all (λ e. is_fetchable now e && not (busy e.id)) rows ≡ []
    none_selected [] = refl
    none_selected (e ∷ rows) = rw (never e.status, none_selected rows) refl

    ends : (n : ℕ) → ◌≡◌ {A = Outcome (List OutboxEvent)} (ok (take n [])) (ok [])
    ends zero = refl
    ends (suc n) = refl
