-- ===== src/Broker/Confirms.antt =====
-- `Publish` returns nil only for a confirmed message.
-- The broker has confirmed this number.
use go_auth_api.Base.{
  All, All-append, All-mono, Any, Bool, List, Option, Option-cases, String, [], arith, false, inl,
  inr, map, none, refl, some, subst, true, ℕ, ◌==◌, ◌∷◌, ◌≡◌, ◌≤◌,
}
use go_auth_api.Broker.{
  PendingPublish, RabbitMq, Reachable, Step, closes, confirm_result, confirms, fail_all_pending,
  fails_to_send, gives_up, handle_confirmation, loses_connection, publish_sent, register_pending,
  sends, start_open, step_on, withdraw,
}
use go_auth_api.Sql.{delete_rows, select_one}
use go_auth_api.Sql.Laws.{All-delete_rows, select_one_sound}

abbrev pub IsAcked : List (ℕ × Bool) → ℕ → Type 0
IsAcked confirmations tag = Any (λ (c : ℕ × Bool). c ≡ (tag, true)) confirmations

-- A result of nil is that of a number that the broker has confirmed.
abbrev pub TrueResult : List (ℕ × Bool) → ℕ × Option String → Type 0
TrueResult confirmations (tag, none) = IsAcked confirmations tag
TrueResult confirmations (tag, some _) = Unit

-- Every result is true, and no call waits on a number beyond the next one.
abbrev pub Truthful : RabbitMq → Type 0
Truthful r =
    All (TrueResult r.confirmations) r.results
    × All (λ (p : PendingPublish). p.tag ≤ r.next_seq) r.pending_publishes

more_confirmed :
    (c : ℕ × Bool) (cs : List (ℕ × Bool)) (result : ℕ × Option String)
    → TrueResult cs result
    → TrueResult (c ∷ cs) result
more_confirmed c cs (tag, none) h = inr h
more_confirmed c cs (tag, some m) h = tt

failed_results :
    (cause : String) (cs : List (ℕ × Bool)) (ps : List PendingPublish)
    → All (TrueResult cs) (map (λ (p : PendingPublish). (p.tag, some cause)) ps)
failed_results cause cs [] = tt
failed_results cause cs (p ∷ ps) = (tt, failed_results cause cs ps)

confirmed_result :
    (tag : ℕ) (ack : Bool) (key : String) (cs : List (ℕ × Bool))
    → TrueResult ((tag, ack) ∷ cs) (tag, confirm_result ack key)
confirmed_result tag true key cs = inl refl
confirmed_result tag false key cs = tt

withdrawn :
    (tag n : ℕ) (ps : List PendingPublish)
    → All (λ (p : PendingPublish). p.tag ≤ n) ps
    → All
        (λ (p : PendingPublish). p.tag ≤ n)
        (delete_rows (λ (p : PendingPublish). p.tag == tag) ps)
withdrawn tag n ps h = All-delete_rows (λ (p : PendingPublish). p.tag ≤ n) _ ps h

confirm-Truthful :
    (tag : ℕ) (ack : Bool) (r : RabbitMq) → Truthful r → Truthful (handle_confirmation tag ack r)
unfolding handle_confirmation withdraw
confirm-Truthful tag ack r (results, waiting) =
    elim (Option-cases (select_one (λ (p : PendingPublish). p.tag == tag) r.pending_publishes)) [
      | inl e ↦
          rw (handle_confirmation, e) (older, withdrawn tag r.next_seq r.pending_publishes waiting)
      | inr (p, e) ↦
          rw (handle_confirmation, e)
            (
              (
                subst
                    (λ n.
                      TrueResult ((tag, ack) ∷ r.confirmations)
                        (n, confirm_result ack p.routing_key))
                    (own p e) (confirmed_result tag ack p.routing_key r.confirmations),
                older,
              ),
              withdrawn tag r.next_seq r.pending_publishes waiting,
            )
    ]
  where
    own :
        (p : PendingPublish)
        → select_one (λ (p : PendingPublish). p.tag == tag) r.pending_publishes ≡ some p
        → tag ≡ p.tag
    own p e = ground (arith, (select_one_sound _ _ r.pending_publishes p waiting e).0)

    older : All (TrueResult ((tag, ack) ∷ r.confirmations)) r.results
    older = All-mono _ _ (more_confirmed (tag, ack) r.confirmations) r.results results

Step-Truthful : (r r' : RabbitMq) → Step r r' → Truthful r → Truthful r'
unfolding publish_sent register_pending withdraw fail_all_pending
Step-Truthful _ _ (sends key r) (results, waiting) = (
  results,
  (
    omega arith,
    All-mono _ _ (λ p h. omega arith) _
        (withdrawn r.next_seq r.next_seq r.pending_publishes waiting),
  ),
)
Step-Truthful _ _ (fails_to_send key r) (results, waiting) =
    (results, (omega arith, withdrawn r.next_seq r.next_seq r.pending_publishes waiting))
Step-Truthful _ _ (confirms tag ack r) h = confirm-Truthful tag ack r h
Step-Truthful _ _ (gives_up tag r) (results, waiting) =
    (results, withdrawn tag r.next_seq r.pending_publishes waiting)
Step-Truthful _ _ (loses_connection cause r) (results, waiting) = (
  All-append _ _ r.results (failed_results cause r.confirmations r.pending_publishes) results,
  tt,
)
Step-Truthful _ _ (closes r) h = h

-- In every state that the steps of the publisher lead to, whatever their order and whatever the broker
-- confirms: a call of `Publish` has received nil only if the broker has confirmed the message with its
-- own number, and no call waits on a number beyond the next one.
pub Reachable-Truthful : (r : RabbitMq) → Reachable r → Truthful r
Reachable-Truthful _ start_open = (tt, tt)
Reachable-Truthful _ (step_on {r} {r'} h s) = Step-Truthful r r' s (Reachable-Truthful r h)
