-- ===== src/Service/Sessions/Logout.antt =====
-- `Logout` and `RevokeAll` end sessions for good.
-- The `WHERE` of `FindValidByHash`.
use go_auth_api.Base.{
  Bool, Option-cases, String, inl, inr, is_none, ltb, refl, some, suc, ℕ, ◌&&◌, ◌==◌, ◌≡◌, some,
}
use go_auth_api.Models.Account.{RefreshToken, Tenant}
use go_auth_api.Repo.Refresh.{has_hash, set_revoked, valid_refresh_by_hash}
use go_auth_api.Service.Context.{Service}
use go_auth_api.Service.Sessions.{logout}
use go_auth_api.Sql.{select_one, update_rows}
use go_auth_api.Tokens.{hash_token}
use go_auth_api.World.{Database, Env, Outcome, World, err, ok, panicked}
use go_auth_api.World.Ends.{
  Ends, Ends-begin_tx, Ends-bind, Ends-catch, Ends-commit, Ends-execute_pool, Ends-execute_tx,
  Ends-pure, Ends-raise, Ends-rollback, Ends-time_now,
}

abbrev pub is_valid_session : String → ℕ → ℕ → RefreshToken → Bool
is_valid_session hash tid now t =
    has_hash hash tid t && is_none t.revoked_at && ltb now t.expires_at

-- A token that was valid has been revoked, and nothing else has happened.
pub record LoggedOut (hash : String) (tid : ℕ) (d d' : Database) : Type 0 where
  pub checked_at : ℕ
  pub row : RefreshToken
  pub found : select_one (is_valid_session hash tid checked_at) d.refresh_tokens ≡ some row
  pub at : ℕ
  pub stored :
      record d {
        refresh_tokens =
            update_rows
              (λ (t : RefreshToken). t.id == row.id && t.tenant_id == tid)
              (λ t. record t { revoked_at = some at })
              d.refresh_tokens;
      }
      ≡ d'

abbrev pub LogsOut : String → ℕ → Database → Outcome (Unit {0}) → Database → Type 0
LogsOut hash tid d (ok _) d' = LoggedOut hash tid d d'
LogsOut hash tid d (err _) d' = d' ≡ d
LogsOut hash tid d panicked d' = ⊥

module _ (env : Env) (s : Service) (tenant : Tenant) (raw : String) where
  pub logout-LogsOut :
      (w : World)
      → LogsOut
          (hash_token env raw s.token_secret)
          tenant.id
          w.db
          (logout env s (some tenant) raw w).0
          (logout env s (some tenant) raw w).1.db
  unfolding logout valid_refresh_by_hash set_revoked
  logout-LogsOut w =
      let end : Ends (logout env s (some tenant) raw) w
          (λ r w'. LogsOut (hash_token env raw s.token_secret) tenant.id w.db r w'.db) =
        Ends-bind _ _ _ (
          Ends-pure _ _ (
            Ends-bind _ _ _ (
              Ends-catch _ _ _ (
                Ends-execute_pool env _ _ (λ m _. Ends-raise _ _ refl)
                  (elim (Option-cases (
                    select_one
                      (is_valid_session (hash_token env raw s.token_secret) tenant.id
                        (env.clock w.calls))
                      w.db.refresh_tokens)) [
                        | inl e ↦ rw e (Ends-raise _ _ refl)
                        | inr (row, e) ↦ rw e (
                            Ends-begin_tx env _ _ (λ m _. refl)
                              (Ends-rollback _ _ (
                                Ends-bind _ _ _ (
                                  Ends-time_now env _ _ (
                                    Ends-execute_tx env _ _ _ refl (λ m _. refl)
                                      (Ends-commit env _ _ refl (λ m _. refl)
                                        (record {
                                          checked_at = env.clock w.calls;
                                          row = row;
                                          found = e;
                                          at = env.clock (suc (suc w.calls));
                                          stored = refl;
                                        })))))))
                      ]))))) in
      end.holds
