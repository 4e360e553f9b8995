-- ===== src/Service/Signup/Transaction.antt =====
-- `signUpTransaction` writes its five rows or nothing.
use go_auth_api.Base.{String, false, inl, inr, none, refl, some, ℕ, ◌∷◌, ◌≡◌}
use go_auth_api.Broker.{opened}
use go_auth_api.Errors.{external}
use go_auth_api.Models.Event.{pending}
use go_auth_api.Repo.Inserts.{
  Ends-insert, insert_email_token_cases, insert_event_cases, insert_refresh_token_cases,
  insert_user_cases, insert_user_no_clash, unclaimed,
}
use go_auth_api.Repo.Users.{clashes_with}
use go_auth_api.Service.Context.{Service}
use go_auth_api.Service.Signup.{SignUpData, sign_up_transaction, sign_up_writes}
use go_auth_api.Sql.{exists_row}
use go_auth_api.World.{Database, Env, Outcome, World, err, ok, panicked}
use go_auth_api.World.Ends.{
  Ends, Ends-begin_tx, Ends-bind, Ends-catch, Ends-commit, Ends-execute_tx, Ends-raise,
  Ends-rollback,
}

-- The rows of a signup, in front of those of before.
abbrev pub signed_up : SignUpData → Database → Database
signed_up sud d = record d {
  users = sud.user ∷ d.users;
  email_tokens = record sud.email_verification_token { used_at = none } ∷ d.email_tokens;
  refresh_tokens = record sud.refresh_token { revoked_at = none } ∷ d.refresh_tokens;
  outbox_events =
      unclaimed sud.email_verification_event ∷ unclaimed sud.user_created_event ∷ d.outbox_events;
}

abbrev pub SignsUp : SignUpData → Database → Outcome (Unit {0}) → Database → Type 0
SignsUp sud d (ok _) d' =
    (d' ≡ signed_up sud d) × (exists_row (clashes_with sud.user) d.users ≡ false)
SignsUp sud d (err _) d' = d' ≡ d
SignsUp sud d panicked d' = ⊥

module _ (env : Env) (s : Service) (sud : SignUpData)
    (created : sud.user_created_event.status ≡ pending)
    (mailed : sud.email_verification_event.status ≡ pending) (d : Database) where
  abbrev Signs : Outcome (Unit {0}) → World → Type 0
  Signs r w = SignsUp sud d r w.db

  same : (m : String) (w : World) → w.db ≡ d → Signs (err (external m)) w
  same m w kept = kept

  insert_user_step :
      (w : World) (began : ℕ)
      → (w.tx ≡ some (record { work = d; began = began })) × (w.db ≡ d)
      → Ends (sign_up_writes env s sud) w Signs
  unfolding sign_up_writes
  insert_user_step w began (opened, kept) = Ends-bind _ _ _ (
      Ends-catch _ _ _ (
        Ends-execute_tx env _ _ _ opened (λ m _. Ends-raise _ _ kept)
          (elim (insert_user_cases env sud.user began d) [
            | inl done ↦ rw done (
                Ends-insert env d same _ _ _ began _ _ (refl, kept)
                  (insert_email_token_cases env sud.email_verification_token began _)
                  λ w₁ i₁.
                    Ends-insert env d same _ _ w₁ began _ _ i₁
                      (insert_refresh_token_cases env sud.refresh_token began _)
                      λ w₂ i₂.
                        Ends-insert env d same _ _ w₂ began _ _ i₂
                          (insert_event_cases env sud.user_created_event began _ created)
                          λ w₃ i₃.
                            Ends-insert env d same _ _ w₃ began _ _ i₃
                              (insert_event_cases env sud.email_verification_event began _ mailed)
                              λ w₄ i₄.
                                Ends-commit env w₄ _ i₄.0 (λ m _. i₄.1)
                                  (refl, insert_user_no_clash env sud.user began d _ done))
            | inr (m, refused) ↦ rw refused (Ends-raise _ _ kept)
          ])))

-- `signUpTransaction`, on the models that `signUpDataBuilder` makes, with two pending events: it
-- returns nil exactly with the user, both tokens and both events stored, and then no user of before
-- had that id, that name, or that address in that tenant; it returns an error, at whichever step,
-- with the database as it was; and it does not panic.
pub sign_up_transaction-SignsUp :
    (env : Env) (s : Service) (sud : SignUpData) (w : World)
    → sud.user_created_event.status ≡ pending
    → sud.email_verification_event.status ≡ pending
    → SignsUp sud w.db (sign_up_transaction env s sud w).0 (sign_up_transaction env s sud w).1.db
unfolding sign_up_transaction
sign_up_transaction-SignsUp env s sud w created mailed =
    let end : Ends (sign_up_transaction env s sud) w (λ r w'. SignsUp sud w.db r w'.db) =
      Ends-begin_tx env _ _ (λ m _. refl)
        (Ends-rollback _ _
          (insert_user_step env s sud created mailed w.db _ (env.clock w.calls) (refl, refl))) in
    end.holds
