-- ===== src/Service/Verification.antt =====
-- internal/auth/service.go: verification of an email address.
pub mod Verified
use go_auth_api.Base.{String, if◌then◌else◌, is_some, ltb, none, some, ◌*◌, ◌+◌, ◌||◌}
use go_auth_api.Errors.{invalid_verification_token}
use go_auth_api.Models.Account.{User, hour}
use go_auth_api.Repo.Mail.{
  create_email_token, delete_email_tokens_of, find_valid_email_token, mark_email_token_used,
}
use go_auth_api.Repo.Users.{activate_user, find_user_by_email}
use go_auth_api.Service.Context.{Context, Service, require_tenant}
use go_auth_api.Tokens.{hash_token}
use go_auth_api.World.{Env}
use go_auth_api.World.Action.{
  Action, attempt, catch, ignore_error, must_call, new_uuid_v7, pool, pure, raise, send_mail,
  time_now, ◌>>=◌, ◌>>◌,
}

module _ (env : Env) (s : Service) where
  -- `VerifyEmail`: the three statements run on the pool, each on its own.
  unfoldable pub verify_email : String → Action (Unit {0})
  verify_email raw_token = do
    token ←
        catch (find_valid_email_token env (hash_token env raw_token s.token_secret))
          (λ _. raise invalid_verification_token)
    checked_at ← time_now env
    if is_some token.used_at || ltb token.expires_at checked_at
        then raise invalid_verification_token
        else do
          now ← time_now env
          mark_email_token_used env token.id now
          activate_user env token.user_id

  -- The rest of `ResendVerification`, for an account that is not active.
  unfoldable pub resend_to : User → Action (Unit {0})
  resend_to user = do
    ignore_error (delete_email_tokens_of env user.id)
    raw ← must_call env
    token_id ← new_uuid_v7 env
    expires ← time_now env
    created ← time_now env
    create_email_token env pool (record {
      id = token_id;
      user_id = user.id;
      token_hash = hash_token env (env.random_text raw) s.token_secret;
      expires_at = expires + 24 * hour;
      used_at = none;
      created_at = created;
    })
    send_mail env user.email (env.random_text raw)

  -- `ResendVerification`: no account, a failed look-up and a verified account look alike.
  unfoldable pub resend_verification : Context → String → Action (Unit {0})
  resend_verification ctx email = do
    tenant ← require_tenant ctx
    found ← attempt (find_user_by_email env email tenant.id)
    elim found [ none ↦ pure tt | some user ↦ if user.is_active then pure tt else resend_to user ]
