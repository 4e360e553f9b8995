-- ===== src/Repo/Refresh.antt =====
-- internal/auth/refresh/refresh_repository_psql.go on the table `refresh_tokens`. A nil parent is
-- stored as NULL and read back as `uuid.Nil` (`nullableUUID`), so the model keeps 0 throughout.
pub mod Rows
pub mod Families
use go_auth_api.Base.{
  Bool, Option, String, if◌then◌else◌, is_none, ltb, none, some, str_eq, ℕ, ◌&&◌, ◌==◌, ◌∷◌,
}
use go_auth_api.Errors.{external, no_rows}
use go_auth_api.Models.Account.{RefreshToken, User}
use go_auth_api.Sql.{exists_row, select_one, update_rows}
use go_auth_api.World.{Database, Env, Outcome, err, ok}
use go_auth_api.World.Action.{Action, Conn, Statement, execute, pool, time_now, ◌>>=◌, ◌>>◌}

-- `FOREIGN KEY (user_id) REFERENCES users(user_id)`
unfoldable pub user_exists : ℕ → Database → Bool
unfolding exists_row
user_exists user_id d = exists_row (λ (u : User). u.id == user_id) d.users

module _ (env : Env) where
  -- `INSERT INTO refresh_tokens`, which does not write `revoked_at`.
  unfoldable pub insert_refresh_token : RefreshToken → Statement (Unit {0})
  insert_refresh_token t now d =
      if exists_row (λ (r : RefreshToken). r.id == t.id) d.refresh_tokens
      then (err (external env.unique_violation), d)
      else if user_exists t.user_id d
      then (ok tt, record d { refresh_tokens = record t { revoked_at = none } ∷ d.refresh_tokens })
      else (err (external env.foreign_key_violation), d)

  -- `refreshPostgresRepo.CreateTx`; `Create` is the same statement on the pool.
  abbrev pub create_refresh_token : Conn → RefreshToken → Action (Unit {0})
  create_refresh_token exec t = execute env exec (insert_refresh_token t)

-- The columns that the two queries scan: `tenant_id` is not among them.
abbrev pub scan_refresh_token : RefreshToken → RefreshToken
scan_refresh_token t = record t { tenant_id = 0 }

abbrev pub scan_refresh : Option RefreshToken → Outcome RefreshToken
scan_refresh none = err no_rows
scan_refresh (some t) = ok (scan_refresh_token t)

-- `refreshPostgresRepo.FindbyHash`
abbrev pub has_hash : String → ℕ → RefreshToken → Bool
has_hash hash tenant t = str_eq t.token_hash hash && t.tenant_id == tenant

unfoldable pub refresh_by_hash : String → ℕ → Statement RefreshToken
refresh_by_hash hash tenant now d =
    (scan_refresh (select_one (has_hash hash tenant) d.refresh_tokens), d)

-- `refreshPostgresRepo.FindValidByHash`
unfoldable pub valid_refresh_by_hash : String → ℕ → Statement RefreshToken
valid_refresh_by_hash hash tenant now d = (
  scan_refresh (
      select_one (λ t. has_hash hash tenant t && is_none t.revoked_at && ltb now t.expires_at)
        d.refresh_tokens),
  d,
)

-- `refreshPostgresRepo.Revoke`
unfoldable pub set_revoked : ℕ → ℕ → ℕ → Statement (Unit {0})
set_revoked token_id tenant at now d = (
  ok tt,
  record d {
    refresh_tokens =
        update_rows (λ (t : RefreshToken). t.id == token_id && t.tenant_id == tenant)
          (λ t. record t { revoked_at = some at }) d.refresh_tokens;
  },
)

-- `refreshPostgresRepo.RevokeAllForUser`
unfoldable pub set_revoked_for_user : ℕ → ℕ → Statement (Unit {0})
set_revoked_for_user user_id tenant now d = (
  ok tt,
  record d {
    refresh_tokens =
        update_rows
          (λ (t : RefreshToken).
            t.user_id == user_id && is_none t.revoked_at && t.tenant_id == tenant)
          (λ t. record t { revoked_at = some now }) d.refresh_tokens;
  },
)

-- `refreshPostgresRepo.RevokeAllForFamily`
unfoldable pub set_revoked_for_family : ℕ → ℕ → Statement (Unit {0})
set_revoked_for_family family_id tenant now d = (
  ok tt,
  record d {
    refresh_tokens =
        update_rows
          (λ (t : RefreshToken).
            t.family_id == family_id && is_none t.revoked_at && t.tenant_id == tenant)
          (λ t. record t { revoked_at = some now }) d.refresh_tokens;
  },
)

module _ (env : Env) where
  abbrev pub find_by_hash : Conn → String → ℕ → Action RefreshToken
  find_by_hash exec hash tenant = execute env exec (refresh_by_hash hash tenant)

  abbrev pub find_valid_by_hash : String → ℕ → Action RefreshToken
  find_valid_by_hash hash tenant = execute env pool (valid_refresh_by_hash hash tenant)

  abbrev pub revoke : Conn → ℕ → ℕ → Action (Unit {0})
  revoke exec token_id tenant = do
    at ← time_now env
    execute env exec (set_revoked token_id tenant at)

  abbrev pub revoke_all_for_user : ℕ → ℕ → Action (Unit {0})
  revoke_all_for_user user_id tenant = execute env pool (set_revoked_for_user user_id tenant)

  abbrev pub revoke_all_for_family : Conn → ℕ → ℕ → Action (Unit {0})
  revoke_all_for_family exec family_id tenant =
      execute env exec (set_revoked_for_family family_id tenant)
