-- ===== src/Outbox/Batch.antt =====
-- The marks in the outbox stay true through whole batches.
use go_auth_api.Base.{
  List, Option, String, [], inl, inr, length, none, refl, some, ℕ, ◌<>◌, ◌∷◌, ◌≡◌,
}
use go_auth_api.Errors.{Error, external, message}
use go_auth_api.Models.Event.{OutboxEvent}
use go_auth_api.Outbox.Claims.{claim_rows_lem}
use go_auth_api.Outbox.Delivery.{
  MarksAreTrue, MaybeSent, MarksAreTrue-claim_rows, MarksAreTrue-sent, MarksAreTrue-set_failed,
  MarksAreTrue-set_published, Processed, envelope_of, process_one-Processed,
}
use go_auth_api.Outbox.Processor.{claim_lock_duration, process_all, process_batch, process_one}
use go_auth_api.Repo.Outbox.{set_failed, set_published}
use go_auth_api.World.{Database, Env, EventEnvelope, Outcome, World, err, ok, panicked}
use go_auth_api.World.Action.{Action, error_of, pure, ◌>>=◌}
use go_auth_api.World.Ends.{
  Continues, Ends, Ends-bind, Ends-call, Ends-catch, Ends-mono, Ends-on_pool, Ends-pure, Handles,
}

module _ (env : Env) where
  MarksAreTrue-MaybeSent :
      (event : OutboxEvent) (sent sent' : List EventEnvelope) (d : Database)
      → MaybeSent env event sent sent'
      → MarksAreTrue sent d
      → MarksAreTrue sent' d
  MarksAreTrue-MaybeSent event sent sent' d (inl same) h = rw same h
  MarksAreTrue-MaybeSent event sent sent' d (inr (headers, decoded, more)) h =
      rw more (MarksAreTrue-sent (envelope_of event headers) sent d h)

  keeps :
      (event : OutboxEvent) (w w' : World) (r : Outcome (Unit {0}))
      → Processed env event w r w'
      → MarksAreTrue w.broker w.db
      → MarksAreTrue w'.broker w'.db
  unfolding set_published set_failed
  keeps event w w' (ok _) (headers, decoded, sent, at, stored) h =
      rw (sent, stored)
        (MarksAreTrue-set_published (envelope_of event headers) w.broker event.id at 0 w.db refl h)
  keeps event w w' (err _) (inl (maybe, inl stored)) h =
      rw stored (MarksAreTrue-MaybeSent event _ _ w.db maybe h)
  keeps event w w' (err _) (inl (maybe, inr (at, reason, stored))) h = rw stored (
      MarksAreTrue-set_failed w'.broker event.id _ reason 0 w.db
        (MarksAreTrue-MaybeSent event _ _ w.db maybe h))
  keeps event w w' (err _) (inr (headers, decoded, sent, stored)) h =
      rw (sent, stored) (MarksAreTrue-sent (envelope_of event headers) w.broker w.db h)
  keeps event w w' panicked never h = absurd never

-- A part of a batch that returns a value, with the marks true if `P` holds.
abbrev pub MarksTrue : {A : Type 0} → Type 0 → Outcome A → World → Type 0
MarksTrue P (ok a) w = P → MarksAreTrue w.broker w.db
MarksTrue P (err e) w = ⊥
MarksTrue P panicked w = ⊥

-- A part that returns, or fails with an error.
abbrev Unpanicked : {A : Type 0} → (World → Type 0) → Outcome A → World → Type 0
Unpanicked R (ok a) w = R w
Unpanicked R (err e) w = R w
Unpanicked R panicked w = ⊥

-- The loop's step: what `m` keeps holds afterwards, if it fails too.
Ends-error_of :
    {Q : Outcome (Option Error) → World → Type 0} (R : World → Type 0) (m : Action (Unit {0}))
    (w : World)
    → Unpanicked R (m w).0 (m w).1
    → ((e : Option Error) (w' : World) → R w' → Q (ok e) w')
    → Ends (error_of m) w Q
Ends-error_of {Q = Q} R m w h f =
    Ends-catch _ _ _
      (Ends-bind _ _ _ (Ends-mono {P = Unpanicked R} m w (record { holds = h }) cases))
  where
    cases :
        (r : Outcome (Unit {0})) (w' : World)
        → Unpanicked R r w'
        → Continues (λ _. pure none) (Handles (λ e. pure (some e)) Q) r w'
    cases (ok _) w' k = Ends-pure _ _ (f none w' k)
    cases (err e) w' k = Ends-pure _ _ (f (some e) w' k)
    cases panicked w' k = absurd k

module _ (env : Env) (P : Type 0) where
  process_one-MarksTrue :
      (event : OutboxEvent) (w : World)
      → (P → MarksAreTrue w.broker w.db)
      → Unpanicked
          (λ w'. P → MarksAreTrue w'.broker w'.db)
          (process_one env event w).0
          (process_one env event w).1
  process_one-MarksTrue event w h =
      go (process_one env event w).0 _ (process_one-Processed env event w)
    where
      go :
          (r : Outcome (Unit {0})) (w' : World)
          → Processed env event w r w'
          → Unpanicked (λ w'. P → MarksAreTrue w'.broker w'.db) r w'
      go (ok a) w' end = λ p. keeps env event w w' (ok a) end (h p)
      go (err e) w' end = λ p. keeps env event w w' (err e) end (h p)
      go panicked w' end = end

  process_all-MarksTrue :
      (events : List OutboxEvent) (first : Option Error) (w : World)
      → (P → MarksAreTrue w.broker w.db)
      → Ends (process_all env events first) w (MarksTrue P)
  unfolding process_all
  process_all-MarksTrue [] first w h = Ends-pure _ _ h
  process_all-MarksTrue (event ∷ events) first w h = Ends-bind _ _ _ (
      Ends-error_of (λ w'. P → MarksAreTrue w'.broker w'.db) _ w (process_one-MarksTrue event w h)
        (λ e w' k. process_all-MarksTrue events _ w' k))

  -- The answer of a batch whose claim failed.
  abbrev claim_failed : Error → Action (ℕ × Option Error)
  claim_failed e =
      pure (0, some (external ("outbox: failed to claim pending events: " <> message e)))

  -- A batch once its events are claimed.
  batch_rest :
      (events : List OutboxEvent) (w : World)
      → (P → MarksAreTrue w.broker w.db)
      → Ends {A = ℕ × Option Error}
          (do first ← process_all env events none; pure (length events, first))
          w
          (Handles claim_failed (MarksTrue P))
  batch_rest events w h =
      Ends-bind _ _ _ (Ends-mono _ w (process_all-MarksTrue events none w h) cases)
    where
      cases :
          (r : Outcome (Option Error)) (w' : World)
          → MarksTrue P r w'
          → Continues
              (λ first. pure (length events, first))
              (Handles claim_failed (MarksTrue P))
              r
              w'
      cases (ok first) w' k = Ends-pure _ _ k
      cases (err e) w' k = absurd k
      cases panicked w' k = absurd k

  process_batch-ends :
      (batch_size : ℕ) (worker : String) (w : World)
      → (P → MarksAreTrue w.broker w.db)
      → Ends (process_batch env batch_size worker) w (MarksTrue P)
  unfolding process_batch
  process_batch-ends batch_size worker w h = Ends-catch _ _ _ (
      Ends-bind _ _ _ (
        Ends-call env _ _ (λ m _. Ends-pure _ _ h)
          (Ends-on_pool _ _ _ (
            rw
              ((claim_rows_lem (env.row_busy w.calls) batch_size worker claim_lock_duration
                (env.clock w.calls) w.db).2)
              (batch_rest _ _ (λ p.
                MarksAreTrue-claim_rows w.broker (env.row_busy w.calls) batch_size worker
                  claim_lock_duration (env.clock w.calls) w.db (h p)))))))

module _ (env : Env) where
  -- A batch returns a number and the first error, whatever fails in it.
  pub process_batch-returns :
      (batch_size : ℕ) (worker : String) (w : World)
      → (r : ℕ × Option Error) × ((process_batch env batch_size worker w).0 ≡ ok r)
  process_batch-returns batch_size worker w =
      go (process_batch env batch_size worker w).0 _
        (process_batch-ends env ⊥ batch_size worker w (λ never. absurd never)).holds
    where
      go :
          (o : Outcome (ℕ × Option Error)) (w' : World)
          → MarksTrue ⊥ o w'
          → (r : ℕ × Option Error) × (o ≡ ok r)
      go (ok r) w' h = (r, refl)
      go (err e) w' h = absurd h
      go panicked w' h = absurd h

  -- `ProcessBatch` keeps the outbox truthful: where every event that is marked as published has a
  -- message that the broker has confirmed, that is so after a batch too, whatever calls fail in it,
  -- in the claim, in the publications or in the marks.
  pub process_batch-MarksTrue :
      (batch_size : ℕ) (worker : String) (w : World)
      → MarksAreTrue w.broker w.db
      → MarksAreTrue
          (process_batch env batch_size worker w).1.broker
          (process_batch env batch_size worker w).1.db
  process_batch-MarksTrue batch_size worker w h =
      go (process_batch env batch_size worker w).0 _
        (process_batch-ends env (MarksAreTrue w.broker w.db) batch_size worker w (λ p. p)).holds
    where
      go :
          (o : Outcome (ℕ × Option Error)) (w' : World)
          → MarksTrue (MarksAreTrue w.broker w.db) o w'
          → MarksAreTrue w'.broker w'.db
      go (ok r) w' k = k h
      go (err e) w' k = absurd k
      go panicked w' k = absurd k
