-- ===== src/Service/Signup/Duplicate.antt =====
-- A second signup under an address.
-- Two users of one tenant with one address clash.
use go_auth_api.Base.{Any, arith, eq_refl, none, not_both, refl, suc, true, ℕ, ◌≡◌}
use go_auth_api.Errors.{
  email_already_exists, external, is_unique_constraint_error, wrap_user_create_error,
}
use go_auth_api.Models.Account.{User}
use go_auth_api.Repo.Users.{clashes_with, insert_user}
use go_auth_api.Service.Context.{Service}
use go_auth_api.Service.Signup.{SignUpData, sign_up_transaction, sign_up_writes}
use go_auth_api.Sql.{exists_row}
use go_auth_api.Sql.Laws.{exists_row-Any}
use go_auth_api.World.{Env, World, err}
use go_auth_api.World.Ends.{
  Ends, Ends-begin_tx, Ends-bind, Ends-catch, Ends-execute_tx, Ends-raise, Ends-rollback,
}

clashes_with-same_address :
    (u v : User) → (v.tenant_id ≡ u.tenant_id) × (v.email ≡ u.email) → clashes_with u v ≡ true
unfolding clashes_with
clashes_with-same_address u v (t, e) = simp (t, e) (ground (arith, eq_refl u.email))

-- `signUpTransaction` for an address that a user of the same tenant has, where no call fails, returns
-- `ErrEmailAlreadyExists`, provided that the driver's message for a uniqueness constraint is one that
-- `isUniqueConstraintError` knows; and the database is as it was.
pub sign_up_transaction_duplicate :
    (env : Env) (s : Service) (sud : SignUpData) (w : World)
    → ((n : ℕ) → env.fault n ≡ none)
    → is_unique_constraint_error (external env.unique_violation) ≡ true
    → Any (λ (v : User). (v.tenant_id ≡ sud.user.tenant_id) × (v.email ≡ sud.user.email)) w.db.users
    → ((sign_up_transaction env s sud w).0 ≡ err email_already_exists)
      × ((sign_up_transaction env s sud w).1.db ≡ w.db)
unfolding sign_up_transaction sign_up_writes insert_user wrap_user_create_error
sign_up_transaction_duplicate env s sud w calm known taken =
    let end : Ends (sign_up_transaction env s sud) w
        (λ r w'. (r ≡ err email_already_exists) × (w'.db ≡ w.db)) =
      Ends-begin_tx env _ _ (λ m e. absurd (not_both (env.fault w.calls) (calm w.calls) e))
        (Ends-rollback _ _ (
          Ends-bind _ _ _ (
            Ends-catch _ _ _ (
              Ends-execute_tx env _ _ _ refl
                (λ m e. absurd (not_both (env.fault (suc w.calls)) (calm (suc w.calls)) e))
                (rw (clash) (Ends-raise _ _ (rw known refl, refl))))))) in
    end.holds
  where
    clash : exists_row (clashes_with sud.user) w.db.users ≡ true
    clash =
        exists_row-Any (clashes_with sud.user) _ w.db.users (clashes_with-same_address sud.user)
          taken
