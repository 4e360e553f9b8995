-- ===== src/Repo/Inserts.antt =====
-- How each `INSERT` ends: with the new row in front, or with the error of a constraint and the
-- database as it was.
use go_auth_api.Base.{
  Bool-cases, String, arith, false, inl, inr, none, refl, some, ℕ, ◌==◌, ◌∷◌, ◌≡◌, ◌⊎◌,
}
use go_auth_api.Broker.{opened}
use go_auth_api.Errors.{external}
use go_auth_api.Models.Account.{EmailVerificationToken, PasswordResetToken, RefreshToken, User}
use go_auth_api.Models.Event.{OutboxEvent, pending}
use go_auth_api.Repo.Mail.{insert_email_token}
use go_auth_api.Repo.Outbox.{insert_event}
use go_auth_api.Repo.Refresh.{insert_refresh_token, user_exists}
use go_auth_api.Repo.Reset.{insert_reset_token}
use go_auth_api.Repo.Users.{clashes_with, insert_user}
use go_auth_api.Sql.{exists_row}
use go_auth_api.World.{Database, Env, Outcome, ResetRow, World, err, ok}
use go_auth_api.World.Action.{Action, Statement, execute, in_tx, ◌>>=◌}
use go_auth_api.World.Ends.{Ends, Ends-bind, Ends-execute_tx}

abbrev pub Inserts : Outcome (Unit {0}) × Database → Database → Database → Type 0
Inserts r d d' = (r ≡ (ok tt, d')) ⊎ ((m : String) × (r ≡ (err (external m), d)))

-- The columns of a claim are not among those that `INSERT INTO outbox_events` writes.
abbrev pub unclaimed : OutboxEvent → OutboxEvent
unclaimed e = record e { locked_at = none; locked_until = none; locked_by = none }

module _ (env : Env) where
  pub insert_user_cases :
      (u : User) (now : ℕ) (d : Database)
      → Inserts (insert_user env u now d) d (record d { users = u ∷ d.users })
  unfolding insert_user
  insert_user_cases u now d = elim (Bool-cases (exists_row (clashes_with u) d.users)) [
    | inl e ↦ inr (env.unique_violation, rw e)
    | inr e ↦ inl (rw e)
  ]

  -- A user who was inserted clashed with no row.
  pub insert_user_no_clash :
      (u : User) (now : ℕ) (d d' : Database)
      → insert_user env u now d ≡ (ok tt, d')
      → exists_row (clashes_with u) d.users ≡ false
  unfolding insert_user
  insert_user_no_clash u now d d' h = ground arith

  pub insert_email_token_cases :
      (t : EmailVerificationToken) (now : ℕ) (d : Database)
      → Inserts
          (insert_email_token env t now d)
          d
          (record d { email_tokens = record t { used_at = none } ∷ d.email_tokens })
  unfolding insert_email_token
  insert_email_token_cases t now d =
      elim (Bool-cases (exists_row (λ (r : EmailVerificationToken). r.id == t.id) d.email_tokens)) [
        | inl e ↦ inr (env.unique_violation, rw e)
        | inr e ↦ rw e (elim (Bool-cases (user_exists t.user_id d)) [
          | inl f ↦ inl (rw f)
          | inr f ↦ inr (env.foreign_key_violation, rw f)
        ])
      ]

  pub insert_refresh_token_cases :
      (t : RefreshToken) (now : ℕ) (d : Database)
      → Inserts
          (insert_refresh_token env t now d)
          d
          (record d { refresh_tokens = record t { revoked_at = none } ∷ d.refresh_tokens })
  unfolding insert_refresh_token
  insert_refresh_token_cases t now d =
      elim (Bool-cases (exists_row (λ (r : RefreshToken). r.id == t.id) d.refresh_tokens)) [
        | inl e ↦ inr (env.unique_violation, rw e)
        | inr e ↦ rw e (elim (Bool-cases (user_exists t.user_id d)) [
          | inl f ↦ inl (rw f)
          | inr f ↦ inr (env.foreign_key_violation, rw f)
        ])
      ]

  pub insert_reset_token_cases :
      (t : PasswordResetToken) (now : ℕ) (d : Database)
      → Inserts (insert_reset_token env t now d) d (record d {
        reset_tokens =
            record { token = record t { used_at = none }; revoked_at = none } ∷ d.reset_tokens;
      })
  unfolding insert_reset_token
  insert_reset_token_cases t now d =
      elim (Bool-cases (exists_row (λ (r : ResetRow). r.token.id == t.id) d.reset_tokens)) [
        | inl e ↦ inr (env.unique_violation, rw e)
        | inr e ↦ rw e (elim (Bool-cases (user_exists t.user_id d)) [
          | inl f ↦ inl (rw f)
          | inr f ↦ inr (env.foreign_key_violation, rw f)
        ])
      ]

  -- An event that is pending is stored with no claim on it.
  pub insert_event_cases :
      (e : OutboxEvent) (now : ℕ) (d : Database)
      → e.status ≡ pending
      → Inserts
          (insert_event env e now d)
          d
          (record d { outbox_events = unclaimed e ∷ d.outbox_events })
  unfolding insert_event
  insert_event_cases e now d p =
      elim (Bool-cases (exists_row (λ (r : OutboxEvent). r.id == e.id) d.outbox_events)) [
        | inl h ↦ inr (env.unique_violation, rw h)
        | inr h ↦ inl (rw h (ground arith))
      ]

-- A transaction that has done `e` to the database `d` of before, with nothing committed.
abbrev pub Pending : World → Database → Database → ℕ → Type 0
Pending w d e began = (w.tx ≡ some (record { work = e; began = began })) × (w.db ≡ d)

-- One insertion of a transaction and what follows it, where a foreign error that leaves the database
-- alone is a good end.
module _ (env : Env) {B : Type 0} {Q : Outcome B → World → Type 0} (d : Database)
    (unchanged : (m : String) (w : World) → w.db ≡ d → Q (err (external m)) w) where
  pub Ends-insert :
      (stmt : Statement (Unit {0})) (f : Unit {0} → Action B) (w : World) (began : ℕ)
      (e e' : Database)
      → Pending w d e began
      → Inserts (stmt began e) e e'
      → ((w' : World) → Pending w' d e' began → Ends (f tt) w' Q)
      → Ends (execute env in_tx stmt >>= f) w Q
  Ends-insert stmt f w began e e' (opened, kept) cases rest = Ends-bind _ _ _ (
      Ends-execute_tx env _ _ _ opened (λ m _. unchanged m _ kept)
        (elim cases [
          | inl done ↦ rw done (rest _ (refl, kept))
          | inr (m, refused) ↦ rw refused (unchanged m _ kept)
        ]))
