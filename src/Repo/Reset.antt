-- ===== src/Repo/Reset.antt =====
-- The password reset tokens of internal/auth/refresh/refresh_repository_psql.go.
use go_auth_api.Base.{
  Bool, Option, String, if◌then◌else◌, is_none, ltb, none, some, str_eq, ℕ, ◌&&◌, ◌==◌, ◌∷◌,
}
use go_auth_api.Errors.{external, no_rows}
use go_auth_api.Models.Account.{PasswordResetToken}
use go_auth_api.Repo.Refresh.{user_exists}
use go_auth_api.Sql.{exists_row, select_one, update_rows}
use go_auth_api.World.{Env, Outcome, ResetRow, err, ok}
use go_auth_api.World.Action.{Action, Conn, Statement, execute, time_now, ◌>>=◌}

module _ (env : Env) where
  -- `INSERT INTO password_reset_tokens`, which writes neither `used_at` nor `revoked_at`.
  unfoldable pub insert_reset_token : PasswordResetToken → Statement (Unit {0})
  insert_reset_token t now d =
      if exists_row (λ (r : ResetRow). r.token.id == t.id) d.reset_tokens
      then (err (external env.unique_violation), d)
      else if user_exists t.user_id d
      then (
        ok tt,
        record d {
          reset_tokens =
              record { token = record t { used_at = none }; revoked_at = none } ∷ d.reset_tokens;
        },
      )
      else (err (external env.foreign_key_violation), d)

  -- `refreshPostgresRepo.CreateResetTokenTx`
  abbrev pub create_reset_token : Conn → PasswordResetToken → Action (Unit {0})
  create_reset_token exec t = execute env exec (insert_reset_token t)

-- The `WHERE` of `FindValidResetTokenTx`.
abbrev pub is_valid_reset : String → ℕ → ℕ → ResetRow → Bool
is_valid_reset hash tenant now r =
    str_eq r.token.token_hash hash
    && r.token.tenant_id == tenant
    && is_none r.token.used_at
    && ltb now r.token.expires_at

abbrev pub scan_reset : Option ResetRow → Outcome PasswordResetToken
scan_reset none = err no_rows
scan_reset (some r) = ok r.token

-- `refreshPostgresRepo.FindValidResetTokenTx`
unfoldable pub valid_reset_token : String → ℕ → Statement PasswordResetToken
valid_reset_token hash tenant now d =
    (scan_reset (select_one (is_valid_reset hash tenant now) d.reset_tokens), d)

-- `refreshPostgresRepo.RevokePreviousResetTokens`
unfoldable pub set_reset_revoked : ℕ → ℕ → ℕ → Statement (Unit {0})
set_reset_revoked tenant user at now d = (
  ok tt,
  record d {
    reset_tokens =
        update_rows
          (λ (r : ResetRow).
            r.token.user_id == user
            && r.token.tenant_id == tenant
            && is_none r.token.used_at
            && ltb now r.token.expires_at)
          (λ r. record r { revoked_at = some at }) d.reset_tokens;
  },
)

-- `refreshPostgresRepo.MarkResetTokenUsedTx`
unfoldable pub set_reset_used : ℕ → ℕ → Statement (Unit {0})
set_reset_used token_id at now d = (
  ok tt,
  record d {
    reset_tokens =
        update_rows (λ (r : ResetRow). r.token.id == token_id)
          (λ r. record r { token = record r.token { used_at = some at } }) d.reset_tokens;
  },
)

module _ (env : Env) where
  abbrev pub find_valid_reset_token : Conn → String → ℕ → Action PasswordResetToken
  find_valid_reset_token exec hash tenant = execute env exec (valid_reset_token hash tenant)

  abbrev pub revoke_previous_reset_tokens : Conn → ℕ → ℕ → Action (Unit {0})
  revoke_previous_reset_tokens exec tenant user = do
    at ← time_now env
    execute env exec (set_reset_revoked tenant user at)

  abbrev pub mark_reset_token_used : Conn → ℕ → Action (Unit {0})
  mark_reset_token_used exec token_id = do
    at ← time_now env
    execute env exec (set_reset_used token_id at)
