-- ===== src/Repo/Sqlite/Mail.antt =====
-- internal/auth/mail/email_repository_sqlite.go and internal/auth/tenants/tenants_repository_sqlite.go.
use go_auth_api.Base.{String, if◌then◌else◌, is_none, ltb, none, some, str_eq, ℕ, ◌&&◌, ◌==◌, ◌∷◌}
use go_auth_api.Errors.{external}
use go_auth_api.Models.Account.{EmailVerificationToken, Tenant}
use go_auth_api.Repo.Mail.{scan_email}
use go_auth_api.Repo.Sqlite.{current_timestamp}
use go_auth_api.Sql.{delete_rows, exists_row, scan_row, select_one, update_rows}
use go_auth_api.World.{Env, err, ok}
use go_auth_api.World.Action.{Statement}

module _ (env : Env) where
  -- `EmailVerificationSQLiteRepo.CreateTx`; `Create` is the same statement on the pool. No foreign key
  -- is enforced.
  unfoldable pub add_email_token : EmailVerificationToken → Statement (Unit {0})
  add_email_token t now d =
      if exists_row (λ (r : EmailVerificationToken). r.id == t.id) d.email_tokens
      then (err (external env.unique_violation), d)
      else (ok tt, record d { email_tokens = record t { used_at = none } ∷ d.email_tokens })

-- `EmailVerificationSQLiteRepo.FindValidByHash`, where times compare as numbers.
unfoldable pub valid_email_with_hash : String → Statement EmailVerificationToken
valid_email_with_hash hash now d = (
  scan_email (
      select_one
        (λ (t : EmailVerificationToken).
          str_eq t.token_hash hash && is_none t.used_at && ltb (current_timestamp now) t.expires_at)
        d.email_tokens),
  d,
)

-- `EmailVerificationSQLiteRepo.MarkUsed`
unfoldable pub mark_email_used : ℕ → ℕ → Statement (Unit {0})
mark_email_used token_id at now d = (
  ok tt,
  record d {
    email_tokens =
        update_rows (λ (t : EmailVerificationToken). t.id == token_id)
          (λ t. record t { used_at = some at }) d.email_tokens;
  },
)

-- `EmailVerificationSQLiteRepo.DeleteAllForUser` and `DeleteByUserID`
unfoldable pub drop_email_tokens : ℕ → Statement (Unit {0})
drop_email_tokens user_id now d = (
  ok tt,
  record d {
    email_tokens =
        delete_rows (λ (t : EmailVerificationToken). t.user_id == user_id) d.email_tokens;
  },
)

-- `sqliteRepo.FindByTenantName`
unfoldable pub tenant_with_name : String → Statement Tenant
tenant_with_name name now d =
    (scan_row (select_one (λ (t : Tenant). str_eq t.tenant_name name) d.tenants), d)

-- `sqliteRepo.FindByID` of tenants
unfoldable pub tenant_with_id : ℕ → Statement Tenant
tenant_with_id id now d = (scan_row (select_one (λ (t : Tenant). t.id == id) d.tenants), d)
