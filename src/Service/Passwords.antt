-- ===== src/Service/Passwords.antt =====
-- internal/auth/service.go: changing, forgetting and resetting a password.
pub mod Reset
pub mod Once
pub mod Change
pub mod Request
use go_auth_api.Base.{String, if◌then◌else◌, none, some, ℕ, ◌*◌, ◌+◌, ◌<>◌}
use go_auth_api.Errors.{invalid_credentials, invalid_token}
use go_auth_api.Models.Account.{PasswordResetToken, Tenant, User, minute}
use go_auth_api.Models.Event.{
  OutboxEvent, email_password_reset_requested, email_payload, new_event, password_reset_requested,
  user_password_reset_succeeded,
}
use go_auth_api.Repo.Outbox.{create_event}
use go_auth_api.Repo.Refresh.{revoke_all_for_user}
use go_auth_api.Repo.Reset.{
  create_reset_token, find_valid_reset_token, mark_reset_token_used, revoke_previous_reset_tokens,
}
use go_auth_api.Repo.Users.{change_password_hash, find_user_by_email, find_user_by_id}
use go_auth_api.Service.Context.{Context, Service, no_rows_as, or_no_row, require_tenant}
use go_auth_api.Service.Login.{login_payload}
use go_auth_api.Tokens.{generate_password_reset_token, hash_password, hash_token}
use go_auth_api.World.{Env}
use go_auth_api.World.Action.{
  Action, begin_tx, catch, commit, crash, deferring_rollback, ignore_error, in_tx, marshal,
  new_uuid_v7, pure, raise, time_now, ◌>>=◌, ◌>>◌,
}

-- `ChangePasswordRequest` of internal/auth/handlers.go
pub record ChangePasswordRequest : Type 0 where
  pub email : String
  pub old_password : String
  pub new_password : String
  pub new_confirm : String

module _ (env : Env) (s : Service) where
  -- The transaction of `ChangePassword`, after `BeginTx`.
  unfoldable pub change_password_writes : User → Tenant → String → String → Action (Unit {0})
  change_password_writes user tenant hashed ip = do
    catch (change_password_hash env in_tx user.id hashed)
        (λ e. raise (no_rows_as invalid_credentials e))
    event_id ← new_uuid_v7 env
    payload ← marshal env (login_payload user tenant ip event_id)
    now ← time_now env
    create_event env in_tx
        (new_event event_id email_password_reset_requested payload (now + 5 * minute) now)
    commit env

  -- `ChangePassword`, once the account is known. `*user.PasswordHash` panics on a nil pointer.
  unfoldable pub change_password_of :
      User → Tenant → ChangePasswordRequest → String → Action (Unit {0})
  change_password_of user tenant req ip = elim user.password_hash [
    | none ↦ crash
    | some hash ↦
        if env.bcrypt_matches hash req.old_password
        then (do
          hashed ← hash_password env req.new_password
          begin_tx env
          deferring_rollback (change_password_writes user tenant hashed ip))
        else raise invalid_credentials
  ]

  -- `ChangePassword`
  unfoldable pub change_password : Context → ChangePasswordRequest → String → Action (Unit {0})
  change_password ctx req ip = do
    tenant ← require_tenant ctx
    user ←
        catch (find_user_by_email env req.email tenant.id)
          (λ e. raise (no_rows_as invalid_credentials e))
    change_password_of user tenant req ip

  -- The transaction of `RequestResetPassword`, after `BeginTx`; a failed commit is not reported.
  unfoldable pub request_reset_writes : PasswordResetToken → OutboxEvent → ℕ → ℕ → Action (Unit {0})
  request_reset_writes token event tenant_id user_id = do
    create_reset_token env in_tx token
    create_event env in_tx event
    revoke_previous_reset_tokens env in_tx tenant_id user_id
    ignore_error (commit env)

  -- `RequestResetPassword`, for an account that is there.
  unfoldable pub request_reset_of : User → Tenant → String → Action (Unit {0})
  request_reset_of user tenant ip = do
    token ← generate_password_reset_token env user.id tenant.id s.token_secret
    event_id ← new_uuid_v7 env
    payload ← marshal env (
        email_payload (record {
          tenant = tenant.tenant_name;
          user_id = user.id;
          email = user.email;
          username = none;
          event_id = event_id;
          ip = ip;
          payload_data =
              password_reset_requested (s.app_url <> "/auth/reset-password?t=" <> token.0);
        }))
    now ← time_now env
    begin_tx env
    deferring_rollback (
        request_reset_writes token.1
          (new_event event_id email_password_reset_requested payload (now + 5 * minute) now)
          tenant.id user.id)

  -- `RequestResetPassword`: an address with no account is not told apart.
  unfoldable pub request_reset_password : Context → String → String → Action (Unit {0})
  request_reset_password ctx email ip = do
    tenant ← require_tenant ctx
    found ← or_no_row (find_user_by_email env email tenant.id)
    elim found [ none ↦ pure tt | some user ↦ request_reset_of user tenant ip ]

  -- `ResetPassword`, after `BeginTx`. Two of the statements run on the pool, outside the transaction.
  unfoldable pub reset_password_writes : Tenant → String → String → String → Action (Unit {0})
  reset_password_writes tenant hash new_password ip = do
    token ←
        catch (find_valid_reset_token env in_tx hash tenant.id)
          (λ e. raise (no_rows_as invalid_token e))
    hashed ← hash_password env new_password
    change_password_hash env in_tx token.user_id hashed
    mark_reset_token_used env in_tx token.id
    revoke_all_for_user env token.user_id tenant.id
    user ← find_user_by_id env token.user_id
    event_id ← new_uuid_v7 env
    payload ← marshal env (login_payload user tenant ip event_id)
    now ← time_now env
    create_event env in_tx
        (new_event event_id user_password_reset_succeeded payload (now + 5 * minute) now)
    commit env

  -- `ResetPassword`
  unfoldable pub reset_password : Context → String → String → String → Action (Unit {0})
  reset_password ctx raw_token new_password ip = do
    tenant ← require_tenant ctx
    begin_tx env
    deferring_rollback
        (reset_password_writes tenant (hash_token env raw_token s.token_secret) new_password ip)
