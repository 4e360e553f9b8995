-- ===== src/Tokens.antt =====
-- internal/auth/jwt.go and internal/crypto/hash.go: the tokens that the service hands out. bcrypt,
-- HMAC-SHA256, RS256 and the random generators are parameters.
pub mod Fresh
pub mod ClientId
use Prim.Native.String.{slice}
use go_auth_api.Base.{String, none, ℕ, ◌*◌, ◌+◌, ◌<>◌}
use go_auth_api.Models.Account.{
  EmailVerificationToken, PasswordResetToken, RefreshToken, hour, minute,
}
use go_auth_api.World.{Env}
use go_auth_api.World.Action.{Action, call, new_uuid_v7, pure, time_now, ◌>>=◌, ◌>>◌}

module _ (env : Env) where
  -- `crypto.HashPassword`
  abbrev pub hash_password : String → Action String
  hash_password password = do n ← call env; pure (env.bcrypt n password)

  -- `crypto.HashToken`
  unfoldable pub hash_token : String → String → String
  hash_token token secret = env.hmac_hex secret token

  -- `GenerateAccessToken`: the subject is the user's id, and the token lives for 15 minutes.
  abbrev pub generate_access_token : ℕ → String → Action String
  generate_access_token user_id email = do
    issued_at ← time_now env
    later ← time_now env
    call env
    pure (env.sign_claims user_id email issued_at (later + 15 * minute))

  -- `GenerateRefreshToken`
  abbrev pub generate_refresh_token :
      ℕ → ℕ → ℕ → ℕ → String → String → Action (String × RefreshToken)
  generate_refresh_token user_id family_id parent_token tenant_id client_id secret = do
    raw ← call env
    now ← time_now env
    id ← new_uuid_v7 env
    pure (
      env.random_text raw,
      record {
        id = id;
        user_id = user_id;
        tenant_id = tenant_id;
        token_hash = hash_token (env.random_text raw) secret;
        client_id = client_id;
        parent_token = parent_token;
        family_id = family_id;
        expires_at = now + 30 * (24 * hour);
        revoked_at = none;
        created_at = now;
      },
    )

  -- `GenerateEmailVerificationToken`
  abbrev pub generate_email_verification_token :
      ℕ → String → Action (String × EmailVerificationToken)
  generate_email_verification_token user_id secret = do
    raw ← call env
    now ← time_now env
    id ← new_uuid_v7 env
    pure (
      env.random_text raw,
      record {
        id = id;
        user_id = user_id;
        token_hash = hash_token (env.random_text raw) secret;
        expires_at = now + 24 * hour;
        used_at = none;
        created_at = now;
      },
    )

  -- `GeneratePasswordResetToken`
  abbrev pub generate_password_reset_token : ℕ → ℕ → String → Action (String × PasswordResetToken)
  generate_password_reset_token user_id tenant_id secret = do
    raw ← call env
    now ← time_now env
    id ← new_uuid_v7 env
    pure (
      env.random_text raw,
      record {
        id = id;
        user_id = user_id;
        tenant_id = tenant_id;
        token_hash = hash_token (env.random_text raw) secret;
        expires_at = now + hour;
        used_at = none;
        created_at = now;
      },
    )

  -- `signClientID`
  unfoldable pub sign_client_id : ℕ → String → String
  sign_client_id id secret =
      env.uuid_text id <> "." <> slice (env.hmac_hex secret (env.uuid_bytes id)) 0 16
