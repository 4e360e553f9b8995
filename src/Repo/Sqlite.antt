-- ===== src/Repo/Sqlite.antt =====
-- The repositories for SQLite, which are deprecated: internal/users/repository_sqlite.go,
-- internal/auth/refresh/refresh_repository_sqlite.go, internal/auth/mail/email_repository_sqlite.go
-- and internal/auth/tenants/tenants_repository_sqlite.go, on the schema of migrations/sqlite. Its
-- tables have no column for the tenant, so a row is stored with the tenant 0, and SQLite does not
-- enforce foreign keys, since `OpenSQLite` does not ask for it.
pub mod Mail
pub mod OneTenant
use go_auth_api.Base.{
  Bool, Option, String, false, if◌then◌else◌, is_none, ltb, none, some, str_eq, true, ℕ, ◌*◌, ◌/◌,
  ◌&&◌, ◌==◌, ◌||◌, ◌∷◌,
}
use go_auth_api.Errors.{external, no_rows}
use go_auth_api.Models.Account.{PasswordResetToken, RefreshToken, User, second}
use go_auth_api.Repo.Refresh.{scan_refresh}
use go_auth_api.Sql.{exists_row, select_one, update_rows}
use go_auth_api.World.{Env, Outcome, err, ok}
use go_auth_api.World.Action.{
  Action, Conn, Statement, execute, pool, pure, raise, time_now, ◌>>=◌, ◌>>◌,
}

-- SQLite's `CURRENT_TIMESTAMP`, which has whole seconds.
unfoldable pub current_timestamp : ℕ → ℕ
current_timestamp now = now / second * second

-- The uniqueness constraints of `users`: an address is unique over all tenants.
unfoldable pub has_key_of : User → User → Bool
has_key_of u v = u.id == v.id || str_eq u.email v.email || elim u.username [
  | none ↦ false
  | some n ↦ elim v.username [ none ↦ false | some m ↦ str_eq n m ]
]

module _ (env : Env) where
  -- `sqliteRepo.CreateTx` of users; `Create` is the same statement on the pool.
  unfoldable pub add_user : User → Statement (Unit {0})
  add_user u now d =
      if exists_row (has_key_of u) d.users
      then (err (external env.unique_violation), d)
      else (ok tt, record d { users = record u { tenant_id = 0; locked_at = none } ∷ d.users })

-- The columns that the two queries scan: neither the tenant nor `locked_at`.
abbrev pub scan_user : Option User → Outcome User
scan_user none = err no_rows
scan_user (some u) = ok (record u { tenant_id = 0; locked_at = none })

-- `sqliteRepo.FindByEmail`: the tenant is not used.
unfoldable pub user_with_email : String → ℕ → Statement User
user_with_email email tenant now d =
    (scan_user (select_one (λ (u : User). str_eq u.email email) d.users), d)

-- `sqliteRepo.FindByID` of users
unfoldable pub user_with_id : ℕ → Statement User
user_with_id id now d = (scan_user (select_one (λ (u : User). u.id == id) d.users), d)

unfoldable pub mark_active : ℕ → Statement (Unit {0})
mark_active user_id now d = (
  ok tt,
  record d {
    users =
        update_rows (λ (u : User). u.id == user_id)
          (λ u. record u { is_active = true; updated_at = current_timestamp now }) d.users;
  },
)

unfoldable pub mark_verified : ℕ → Statement (Unit {0})
mark_verified user_id now d = (
  ok tt,
  record d {
    users =
        update_rows (λ (u : User). u.id == user_id)
          (λ u. record u { email_verified = true; updated_at = current_timestamp now }) d.users;
  },
)

-- The statement of `sqliteRepo.LockoutUser`
unfoldable pub mark_locked : ℕ → Option ℕ → Statement (Unit {0})
mark_locked user_id at now d = (
  ok tt,
  record d {
    users = update_rows (λ (u : User). u.id == user_id) (λ u. record u { locked_at = at }) d.users;
  },
)

module _ (env : Env) where
  -- `sqliteRepo.ActivateUser`, in two statements.
  unfoldable pub activate_in_two_steps : ℕ → Action (Unit {0})
  activate_in_two_steps user_id = do
    execute env pool (mark_active user_id)
    execute env pool (mark_verified user_id)

  -- `sqliteRepo.LockoutUser`
  unfoldable pub lock_user : Conn → ℕ → Bool → Action (Unit {0})
  lock_user exec user_id true = do
    now ← time_now env
    execute env exec (mark_locked user_id (some now))
  lock_user exec user_id false = execute env exec (mark_locked user_id none)

-- `sqliteRepo.ChangePassword` does nothing, and returns nil.
unfoldable pub keep_password : Conn → ℕ → String → Action (Unit {0})
keep_password exec user_id hash = pure tt

module _ (env : Env) where
  -- `refreshRepo.CreateTx`; `Create` is the same statement on the pool.
  unfoldable pub add_refresh_token : RefreshToken → Statement (Unit {0})
  add_refresh_token t now d =
      if exists_row (λ (r : RefreshToken). r.id == t.id) d.refresh_tokens
      then (err (external env.unique_violation), d)
      else (
        ok tt,
        record d {
          refresh_tokens = record t { tenant_id = 0; revoked_at = none } ∷ d.refresh_tokens;
        },
      )

-- `refreshRepo.FindbyHash`
unfoldable pub refresh_with_hash : String → ℕ → Statement RefreshToken
refresh_with_hash hash tenant now d =
    (scan_refresh (select_one (λ t. str_eq t.token_hash hash) d.refresh_tokens), d)

-- The statement of `refreshRepo.FindValidByHash`, which is given the time.
unfoldable pub valid_refresh_with_hash : String → ℕ → ℕ → Statement RefreshToken
valid_refresh_with_hash hash tenant at now d = (
  scan_refresh (
      select_one (λ t. str_eq t.token_hash hash && is_none t.revoked_at && ltb at t.expires_at)
        d.refresh_tokens),
  d,
)

-- The statement of `refreshRepo.Revoke`
unfoldable pub revoke_token : ℕ → ℕ → ℕ → Statement (Unit {0})
revoke_token token_id tenant at now d = (
  ok tt,
  record d {
    refresh_tokens =
        update_rows (λ (t : RefreshToken). t.id == token_id)
          (λ t. record t { revoked_at = some at }) d.refresh_tokens;
  },
)

-- `refreshRepo.RevokeAllForUser`
unfoldable pub revoke_tokens_of_user : ℕ → ℕ → Statement (Unit {0})
revoke_tokens_of_user user_id tenant now d = (
  ok tt,
  record d {
    refresh_tokens =
        update_rows (λ (t : RefreshToken). t.user_id == user_id && is_none t.revoked_at)
          (λ t. record t { revoked_at = some (current_timestamp now) }) d.refresh_tokens;
  },
)

-- `refreshRepo.RevokeAllForFamily`
unfoldable pub revoke_tokens_of_family : ℕ → ℕ → Statement (Unit {0})
revoke_tokens_of_family family_id tenant now d = (
  ok tt,
  record d {
    refresh_tokens =
        update_rows (λ (t : RefreshToken). t.family_id == family_id && is_none t.revoked_at)
          (λ t. record t { revoked_at = some (current_timestamp now) }) d.refresh_tokens;
  },
)

-- `refreshRepo.CreateResetTokenTx` does nothing, and returns nil.
unfoldable pub drop_reset_token : Conn → PasswordResetToken → Action (Unit {0})
drop_reset_token exec t = pure tt

-- `refreshRepo.FindValidResetTokenTx`, `RevokePreviousResetTokens` and `MarkResetTokenUsedTx`
unfoldable pub no_reset_support : {A : Type 0} → Action A
no_reset_support = raise (external "password reset is not supported on the sqlite driver")
