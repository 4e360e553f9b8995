-- ===== src/Service/Sessions.antt =====
-- internal/auth/service.go: refresh token rotation with reuse detection, logout and revocation.
pub mod Rotation
pub mod Atomic
pub mod Replay
pub mod Logout
pub mod Ended
pub mod Progress
pub mod Refreshed
use go_auth_api.Base.{String, if◌then◌else◌, is_some, ltb, ℕ}
use go_auth_api.Errors.{invalid_token, refresh_reuse}
use go_auth_api.Models.Account.{RefreshToken}
use go_auth_api.Repo.Refresh.{
  create_refresh_token, find_by_hash, find_valid_by_hash, revoke, revoke_all_for_family,
  revoke_all_for_user,
}
use go_auth_api.Repo.Users.{find_user_by_id}
use go_auth_api.Service.Context.{Context, Service, require_tenant}
use go_auth_api.Tokens.{generate_access_token, generate_refresh_token, hash_token}
use go_auth_api.World.{Env}
use go_auth_api.World.Action.{
  Action, begin_tx, catch, commit, deferring_rollback, in_tx, pure, raise, time_now, ◌>>=◌, ◌>>◌,
}

module _ (env : Env) (s : Service) where
  -- `if old.RevokedAt != nil { … }`: the whole family is revoked, and that is committed.
  unfoldable pub refuse_reuse : RefreshToken → ℕ → Action (String × RefreshToken)
  refuse_reuse old tenant_id = do
    revoke_all_for_family env in_tx old.family_id tenant_id
    commit env
    raise refresh_reuse

  -- The rest of `rotateHelper`: the old token is revoked and its successor stored.
  unfoldable pub replace_token : RefreshToken → ℕ → Action (String × RefreshToken)
  replace_token old tenant_id = do
    revoke env in_tx old.id tenant_id
    generated ←
        generate_refresh_token env old.user_id old.family_id old.id tenant_id old.client_id
          s.token_secret
    create_refresh_token env in_tx generated.1
    commit env
    pure generated

  -- `rotateHelper`, after `BeginTx`
  unfoldable pub rotate_in_tx : String → ℕ → Action (String × RefreshToken)
  rotate_in_tx hash tenant_id = do
    old ← catch (find_by_hash env in_tx hash tenant_id) (λ _. raise invalid_token)
    now ← time_now env
    if ltb old.expires_at now
        then raise invalid_token
        else if is_some old.revoked_at
        then refuse_reuse old tenant_id
        else replace_token old tenant_id

  -- `rotateHelper`
  unfoldable pub rotate_helper : Context → String → Action (String × RefreshToken)
  rotate_helper ctx refresh_token = do
    tenant ← require_tenant ctx
    begin_tx env
    deferring_rollback (rotate_in_tx (hash_token env refresh_token s.token_secret) tenant.id)

  -- `Refresh`: the access token, the new refresh token and when that expires.
  unfoldable pub refresh : Context → String → Action (String × String × ℕ)
  refresh ctx refresh_token = do
    rotated ← rotate_helper ctx refresh_token
    user ← find_user_by_id env rotated.1.user_id
    access ← generate_access_token env user.id user.email
    pure (access, rotated.0, rotated.1.expires_at)

  -- `Logout`
  unfoldable pub logout : Context → String → Action (Unit {0})
  logout ctx refresh_token = do
    tenant ← require_tenant ctx
    rt ←
        catch (find_valid_by_hash env (hash_token env refresh_token s.token_secret) tenant.id)
          (λ _. raise invalid_token)
    begin_tx env
    deferring_rollback do revoke env in_tx rt.id tenant.id; commit env

  -- `RevokeAll`
  unfoldable pub revoke_all : Context → ℕ → Action (Unit {0})
  revoke_all ctx user_id = do tenant ← require_tenant ctx; revoke_all_for_user env user_id tenant.id
