-- ===== src/Service/Sessions/Progress.antt =====
-- Where nothing outside fails, a good refresh token is exchanged.
use go_auth_api.Base.{String, false, ltb, none, not_both, refl, some, suc, true, ℕ, ◌==◌, ◌≡◌}
use go_auth_api.Models.Account.{RefreshToken, Tenant}
use go_auth_api.Repo.Refresh.{
  has_hash, insert_refresh_token, refresh_by_hash, set_revoked, user_exists,
}
use go_auth_api.Repo.Refresh.Rows.{is_token, revoked_by}
use go_auth_api.Service.Context.{Service}
use go_auth_api.Service.Sessions.{replace_token, rotate_helper, rotate_in_tx}
use go_auth_api.Sql.{exists_row, select_one}
use go_auth_api.Sql.Laws.{exists_row-update_rows}
use go_auth_api.Tokens.{hash_token}
use go_auth_api.Tokens.Fresh.{generate_refresh_token_lem}
use go_auth_api.World.{Database, Env, Outcome, World, ok}
use go_auth_api.World.Ends.{
  Ends, Ends-begin_tx, Ends-bind, Ends-catch, Ends-commit, Ends-execute_tx, Ends-pure,
  Ends-rollback, Ends-time_now,
}
use go_auth_api.World.Prepares.{Ends-prepare}

module _ (env : Env) (s : Service) where
  abbrev Succeeds : Outcome (String × RefreshToken) → World → Type 0
  Succeeds o w = (r : String × RefreshToken) × (o ≡ ok r)

  no_fault : ((n : ℕ) → env.fault n ≡ none) → (n : ℕ) (m : String) → env.fault n ≡ some m → ⊥
  no_fault calm n m e = not_both (env.fault n) (calm n) e

  -- A token with a new id, of a user who is there, can be stored after the old one is revoked.
  insert_done :
      (t : RefreshToken) (now id tid at : ℕ) (d : Database)
      → exists_row (λ (r : RefreshToken). r.id == t.id) d.refresh_tokens ≡ false
      → user_exists t.user_id d ≡ true
      → (insert_refresh_token env t now (set_revoked id tid at now d).1).0 ≡ ok tt
  unfolding insert_refresh_token set_revoked user_exists
  insert_done t now id tid at d new there =
      rw
        (
          exists_row-update_rows (λ (r : RefreshToken). r.id == t.id) (is_token id tid)
              (revoked_by at) d.refresh_tokens (λ r _. refl),
          new,
          there,
        )
        refl

  -- `rotateHelper` returns a new pair wherever no call out of the program fails, the token's row is
  -- live and does not expire, its user is there, and the ids that are drawn are those of no row.
  pub rotate_helper_succeeds :
      (tenant : Tenant) (raw : String) (w : World) (row : RefreshToken)
      → ((n : ℕ) → env.fault n ≡ none)
      → select_one (has_hash (hash_token env raw s.token_secret) tenant.id) w.db.refresh_tokens
        ≡ some row
      → row.revoked_at ≡ none
      → ((n : ℕ) → ltb row.expires_at (env.clock n) ≡ false)
      → user_exists row.user_id w.db ≡ true
      → ((n : ℕ)
          → exists_row (λ (r : RefreshToken). r.id == env.new_uuid n) w.db.refresh_tokens ≡ false)
      → (r : String × RefreshToken) × ((rotate_helper env s (some tenant) raw w).0 ≡ ok r)
  unfolding rotate_helper rotate_in_tx refresh_by_hash replace_token set_revoked
  rotate_helper_succeeds tenant raw w row calm found live good there new =
      let end : Ends (rotate_helper env s (some tenant) raw) w Succeeds = Ends-bind _ _ _ (
        Ends-pure _ _ (
          Ends-begin_tx env _ _ (λ m e. absurd (no_fault calm _ m e))
            (Ends-rollback _ _ (
              Ends-bind _ _ _ (
                Ends-catch _ _ _ (
                  Ends-execute_tx env _ _ _ refl (λ m e. absurd (no_fault calm _ m e))
                    (rw found (
                      Ends-time_now env _ _ (
                        rw (good (suc (suc w.calls)), live)
                          (Ends-bind _ _ _ (
                            Ends-time_now env _ _ (
                              Ends-execute_tx env _ _ _ refl (λ m e. absurd (no_fault calm _ m e))
                                (Ends-prepare _ _ _
                                  (generate_refresh_token_lem env row.user_id row.family_id row.id
                                    tenant.id row.client_id s.token_secret)
                                  (λ m j k e. absurd (no_fault calm _ m e))
                                  (λ r k fresh. Ends-bind _ _ _ (
                                    Ends-execute_tx env _ _ _ refl
                                      (λ m e. absurd (no_fault calm _ m e))
                                      (rw
                                        (insert_done r.1 _ row.id tenant.id _ w.db
                                          (simp fresh.fresh_id (new fresh.drawn))
                                          (simp fresh.user there))
                                        (Ends-bind _ _ _ (
                                          Ends-commit env _ _ refl
                                            (λ m e. absurd (no_fault calm _ m e))
                                            (Ends-pure _ _ (r, refl)))))))))))))))))))) in
      end.holds
