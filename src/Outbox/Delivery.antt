-- ===== src/Outbox/Delivery.antt =====
-- How `processOne` ends, and what the marks in the outbox say about the broker.
-- What is published for an event.
use go_auth_api.Base.{
  All, All-mono, Any, Bool, Bool-cases, List, Option, Option-cases, String, arith, inl, inr, none,
  refl, some, str_eq, ℕ, ◌+◌, ◌∷◌, ◌==◌, true, false, ◌≡◌, ◌⊎◌,
}
use go_auth_api.Errors.{Error, external, message}
use go_auth_api.Models.Event.{OutboxEvent, failed, processing, published}
use go_auth_api.Outbox.Processor.{
  backoff_for, decode_headers, fail_event, process_one, publish_event,
}
use go_auth_api.Repo.Outbox.{claim_event, claim_rows, set_failed, set_published}
use go_auth_api.Sql.Laws.{update_rows_takes}
use go_auth_api.Sql.{update_rows}
use go_auth_api.World.{Database, Env, EventEnvelope, Outcome, World, err, ok, panicked}
use go_auth_api.World.Action.{publish, published_as, tick, unconfirmed}
use go_auth_api.World.Ends.{
  Ends, Ends-bind, Ends-catch, Ends-execute_pool, Ends-raise, Ends-time_now,
}

abbrev pub envelope_of : OutboxEvent → Option String → EventEnvelope
envelope_of event headers = record {
  event_id = event.id;
  event_type = event.event_type;
  payload = event.payload;
  headers = headers;
}

-- No message was confirmed, or one all the same.
abbrev pub MaybeSent : Env → OutboxEvent → List EventEnvelope → List EventEnvelope → Type 0
MaybeSent env event sent sent' =
    (sent' ≡ sent)
    ⊎ ((headers : Option String) × (decode_headers env event.headers ≡ ok headers)
        × (sent' ≡ envelope_of event headers ∷ sent))

-- The row is marked as failed, or not even that could be written.
abbrev pub NotPublished : Env → OutboxEvent → World → World → Type 0
NotPublished env event w w' =
    MaybeSent env event w.broker w'.broker
    × ((w'.db ≡ w.db)
        ⊎ ((at : ℕ) × (reason : String) × (w'.db ≡ record w.db {
          outbox_events =
              update_rows (λ (e : OutboxEvent). e.id == event.id)
                (λ e. record e {
                  status = failed;
                  retry_count = e.retry_count + 1;
                  next_retry_at = at + backoff_for event.retry_count;
                  last_error = some reason;
                })
                w.db.outbox_events;
        })))

-- The message is with the broker, and the row is not marked.
abbrev pub PublishedUnmarked : Env → OutboxEvent → World → World → Type 0
PublishedUnmarked env event w w' =
    (headers : Option String) × (decode_headers env event.headers ≡ ok headers)
    × (w'.broker ≡ envelope_of event headers ∷ w.broker)
    × (w'.db ≡ w.db)

-- The message is with the broker, and the row is marked as published.
abbrev pub Published : Env → OutboxEvent → World → World → Type 0
Published env event w w' =
    (headers : Option String) × (decode_headers env event.headers ≡ ok headers)
    × (w'.broker ≡ envelope_of event headers ∷ w.broker)
    × (at : ℕ) × (w'.db ≡ record w.db {
      outbox_events =
          update_rows (λ (e : OutboxEvent). e.id == event.id)
            (λ e. record e { status = published; published_at = some at; last_error = none })
            w.db.outbox_events;
    })

abbrev pub Processed : Env → OutboxEvent → World → Outcome (Unit {0}) → World → Type 0
Processed env event w (ok _) w' = Published env event w w'
Processed env event w (err _) w' = NotPublished env event w w' ⊎ PublishedUnmarked env event w w'
Processed env event w panicked w' = ⊥

module _ (env : Env) (event : OutboxEvent) where
  decode_cases :
      (raw : Option String)
      → ((h : Option String) × (decode_headers env raw ≡ ok h))
        ⊎ ((m : String) × (decode_headers env raw ≡ err (external m)))
  unfolding decode_headers
  decode_cases none = inl (none, refl)
  decode_cases (some raw) = elim (Bool-cases (str_eq raw "")) [
    | inl e ↦ inl (none, rw e refl)
    | inr e ↦ elim (Option-cases (env.headers_error raw)) [
      | inl k ↦ inl (some raw, rw (e, k) refl)
      | inr (m, k) ↦ inr (m, rw (e, k) refl)
    ]
  ]

  Ends-fail_event :
      {Q : Outcome (Unit {0}) → World → Type 0} (cause : Error) (sent : List EventEnvelope)
      (w : World)
      → MaybeSent env event sent w.broker
      → ((e : Error) (w' : World)
          → NotPublished env event (record w { broker = sent }) w'
          → Q (err e) w')
      → Ends (fail_event env event cause) w Q
  unfolding fail_event set_failed
  Ends-fail_event cause sent w maybe h = Ends-time_now env _ _ (
      Ends-bind _ _ _ (
        Ends-catch _ _ _ (
          Ends-execute_pool env _ _ (λ m _. Ends-raise _ _ (h _ _ (maybe, inl refl)))
            (Ends-raise _ _ (h _ _ (maybe, inr (env.clock w.calls, message cause, refl)))))))

  Ends-publish :
      {Q : Outcome (Unit {0}) → World → Type 0} (e : EventEnvelope) (w : World)
      → ((m : String) (anyway : Bool) → Q (err (external m)) (unconfirmed anyway e (tick w)))
      → Q (ok tt) (record (tick w) { broker = e ∷ w.broker })
      → Ends (publish env e) w Q
  unfolding publish
  Ends-publish {Q = Q} e w failing h = record {
    holds = go (env.fault w.calls) (env.confirmed_anyway w.calls);
  }
    where
      go :
          (fault : Option String) (anyway : Bool)
          → Q (published_as fault anyway e (tick w)).0 (published_as fault anyway e (tick w)).1
      go none anyway = h
      go (some m) anyway = failing m anyway

  -- The failure of a publication that the broker may have confirmed.
  fails_unconfirmed :
      {Q : Outcome (Unit {0}) → World → Type 0} (headers : Option String) (anyway : Bool)
      (cause : Error) (w : World)
      → decode_headers env event.headers ≡ ok headers
      → ((e : Error) (w' : World) → NotPublished env event w w' → Q (err e) w')
      → Ends (fail_event env event cause) (unconfirmed anyway (envelope_of event headers) w) Q
  fails_unconfirmed headers true cause w decoded h =
      Ends-fail_event cause w.broker _ (inr (headers, decoded, refl)) h
  fails_unconfirmed headers false cause w decoded h = Ends-fail_event cause w.broker _ (inl refl) h

  publish_event-Processed :
      (headers : Option String) (w : World)
      → decode_headers env event.headers ≡ ok headers
      → Ends (publish_event env event headers) w (Processed env event w)
  unfolding publish_event set_published
  publish_event-Processed headers w decoded = Ends-bind _ _ _ (
      Ends-catch _ _ _ (
        Ends-publish _ _
          (λ m anyway. fails_unconfirmed headers anyway _ _ decoded (λ e w' k. inl k))
          (Ends-time_now env _ _ (
            Ends-catch _ _ _ (
              Ends-execute_pool env _ _ (λ m _. Ends-raise _ _ (inr (headers, decoded, refl, refl)))
                (headers, decoded, refl, _, refl))))))

  pub process_one-Processed :
      (w : World) → Processed env event w (process_one env event w).0 (process_one env event w).1
  unfolding process_one
  process_one-Processed w =
      let end : Ends (process_one env event) w (Processed env event w) =
        elim (decode_cases event.headers) [
          | inl (headers, e) ↦ rw (process_one, e) (publish_event-Processed headers w e)
          | inr (m, e) ↦
              rw (process_one, e) (Ends-fail_event _ w.broker w (inl refl) (λ _ w' k. inl k))
        ] in
      end.holds

-- A message for the event is with the broker.
abbrev pub Confirmed : List EventEnvelope → OutboxEvent → Type 0
Confirmed sent e = Any (λ (m : EventEnvelope). m.event_id ≡ e.id) sent

-- No event is marked as published whose message the broker has not confirmed.
abbrev pub MarksAreTrue : List EventEnvelope → Database → Type 0
MarksAreTrue sent d =
    All (λ (e : OutboxEvent). e.status ≡ published → Confirmed sent e) d.outbox_events

-- A new message keeps the marks true.
pub MarksAreTrue-sent :
    (m : EventEnvelope) (sent : List EventEnvelope) (d : Database)
    → MarksAreTrue sent d
    → MarksAreTrue (m ∷ sent) d
MarksAreTrue-sent m sent d h = All-mono _ _ (λ e k s. inr (k s)) d.outbox_events h

pub MarksAreTrue-set_published :
    (m : EventEnvelope) (sent : List EventEnvelope) (id at now : ℕ) (d : Database)
    → m.event_id ≡ id
    → MarksAreTrue sent d
    → MarksAreTrue (m ∷ sent) (set_published id at now d).1
unfolding set_published
MarksAreTrue-set_published m sent id at now d same h =
    update_rows_takes _ _ _ _ d.outbox_events (λ e hit k s. inl (ground (arith, same)))
      (λ e miss k s. inr (k s)) h

pub MarksAreTrue-set_failed :
    (sent : List EventEnvelope) (id next : ℕ) (reason : String) (now : ℕ) (d : Database)
    → MarksAreTrue sent d
    → MarksAreTrue sent (set_failed id next reason now d).1
unfolding set_failed
MarksAreTrue-set_failed sent id next reason now d h =
    update_rows_takes _ _ _ _ d.outbox_events (λ e hit k s. absurd (failed_not_published s))
      (λ e miss k s. k s) h
  where
    failed_not_published : failed ≡ published → ⊥
    failed_not_published s = cc

pub MarksAreTrue-claim_rows :
    (sent : List EventEnvelope) (busy : ℕ → Bool) (limit : ℕ) (worker : String) (lock now : ℕ)
    (d : Database)
    → MarksAreTrue sent d
    → MarksAreTrue sent (claim_rows busy limit worker lock now d).1
unfolding claim_rows claim_event
MarksAreTrue-claim_rows sent busy limit worker lock now d h =
    update_rows_takes _ _ _ _ d.outbox_events (λ e hit k s. absurd (processing_not_published s))
      (λ e miss k s. k s) h
  where
    processing_not_published : processing ≡ published → ⊥
    processing_not_published s = cc
