-- ===== src/Repo/Mail.antt =====
-- internal/auth/mail/email_repository_psql.go on the table `email_verification_tokens`.
use go_auth_api.Base.{
  Option, String, if◌then◌else◌, is_none, ltb, none, some, str_eq, ℕ, ◌&&◌, ◌==◌, ◌∷◌,
}
use go_auth_api.Errors.{external}
use go_auth_api.Models.Account.{EmailVerificationToken}
use go_auth_api.Repo.Refresh.{user_exists}
use go_auth_api.Sql.{delete_rows, exists_row, select_one, update_rows}
use go_auth_api.World.{Env, Outcome, err, ok}
use go_auth_api.World.Action.{Action, Conn, Statement, execute, pool}

module _ (env : Env) where
  -- `INSERT INTO email_verification_tokens`, which does not write `used_at`.
  unfoldable pub insert_email_token : EmailVerificationToken → Statement (Unit {0})
  insert_email_token t now d =
      if exists_row (λ (r : EmailVerificationToken). r.id == t.id) d.email_tokens
      then (err (external env.unique_violation), d)
      else if user_exists t.user_id d
      then (ok tt, record d { email_tokens = record t { used_at = none } ∷ d.email_tokens })
      else (err (external env.foreign_key_violation), d)

  -- `EmailVerificationPostgresRepo.CreateTx`; `Create` is the same statement on the pool.
  abbrev pub create_email_token : Conn → EmailVerificationToken → Action (Unit {0})
  create_email_token exec t = execute env exec (insert_email_token t)

-- The error of `FindValidByHash` for no row: `errors.New("invalid token")`, a value of its own.
abbrev pub scan_email : Option EmailVerificationToken → Outcome EmailVerificationToken
scan_email none = err (external "invalid token")
scan_email (some t) = ok t

-- `EmailVerificationPostgresRepo.FindValidByHash`
unfoldable pub valid_email_token : String → Statement EmailVerificationToken
valid_email_token hash now d = (
  scan_email (
      select_one
        (λ (t : EmailVerificationToken).
          str_eq t.token_hash hash && is_none t.used_at && ltb now t.expires_at)
        d.email_tokens),
  d,
)

-- `EmailVerificationPostgresRepo.MarkUsed`
unfoldable pub set_email_used : ℕ → ℕ → Statement (Unit {0})
set_email_used token_id used_at now d = (
  ok tt,
  record d {
    email_tokens =
        update_rows (λ (t : EmailVerificationToken). t.id == token_id)
          (λ t. record t { used_at = some used_at }) d.email_tokens;
  },
)

-- `EmailVerificationPostgresRepo.DeleteByUserID`, and `DeleteAllForUser` in the same words.
unfoldable pub delete_email_tokens : ℕ → Statement (Unit {0})
delete_email_tokens user_id now d = (
  ok tt,
  record d {
    email_tokens =
        delete_rows (λ (t : EmailVerificationToken). t.user_id == user_id) d.email_tokens;
  },
)

module _ (env : Env) where
  abbrev pub find_valid_email_token : String → Action EmailVerificationToken
  find_valid_email_token hash = execute env pool (valid_email_token hash)

  abbrev pub mark_email_token_used : ℕ → ℕ → Action (Unit {0})
  mark_email_token_used token_id used_at = execute env pool (set_email_used token_id used_at)

  abbrev pub delete_email_tokens_of : ℕ → Action (Unit {0})
  delete_email_tokens_of user_id = execute env pool (delete_email_tokens user_id)
