-- ===== src/Service/Login.antt =====
-- internal/auth/service.go: login.
pub mod Endings
pub mod NewDevice
use go_auth_api.Base.{Option, String, if◌then◌else◌, is_some, none, some, ℕ, ◌+◌, ◌==◌}
use go_auth_api.Errors.{invalid_credentials, user_locked_out}
use go_auth_api.Models.Account.{RefreshToken, Tenant, User, minute}
use go_auth_api.Models.Event.{
  OutboxEvent, Payload, email_payload, new_event, no_payload_data, user_login_succeeded,
}
use go_auth_api.RateLimit.Limiter.{record_login_failure}
use go_auth_api.Repo.Outbox.{create_event}
use go_auth_api.Repo.Refresh.{create_refresh_token}
use go_auth_api.Repo.Users.{find_user_by_email}
use go_auth_api.Service.Context.{Context, Service, or_no_row, require_tenant}
use go_auth_api.Tokens.{generate_access_token, generate_refresh_token, sign_client_id}
use go_auth_api.World.{Env}
use go_auth_api.World.Action.{
  Action, begin_tx, catch, commit, deferring_rollback, in_tx, marshal, new_uuid_v7, pure, raise,
  time_now, ◌>>=◌, ◌>>◌,
}

-- `const suspiciousLoginNotifyAt int64 = 5`
abbrev pub suspicious_login_notify_at : ℕ
suspicious_login_notify_at = 5

-- The payload of the login events.
abbrev pub login_payload : User → Tenant → String → ℕ → Payload
login_payload user tenant ip event_id = email_payload (record {
  tenant = tenant.tenant_name;
  user_id = user.id;
  email = user.email;
  username = user.username;
  event_id = event_id;
  ip = ip;
  payload_data = no_payload_data;
})

module _ (env : Env) (s : Service) where
  -- `susloginfailure`
  unfoldable pub suspicious_login_event : User → Tenant → String → Action OutboxEvent
  suspicious_login_event user tenant ip = do
    id ← new_uuid_v7 env
    payload ← marshal env (login_payload user tenant ip id)
    created ← time_now env
    retry ← time_now env
    pure (new_event id user_login_succeeded payload (retry + minute) created)

  -- The branch `if send_suspiciousactivityemail == 2`, with the `return` after it. The deferred
  -- rollback is registered last, so that it does not run where one of the two calls before it fails.
  unfoldable pub report_suspicious : User → Tenant → String → Action (String × String × String)
  report_suspicious user tenant ip = do
    begin_tx env
    event ← catch (suspicious_login_event user tenant ip) (λ _. raise invalid_credentials)
    create_event env in_tx event
    deferring_rollback (raise invalid_credentials)

  -- A password that does not match.
  unfoldable pub wrong_password :
      User → Tenant → String → String → Action (String × String × String)
  wrong_password user tenant email ip = do
    notify ← record_login_failure env ip email suspicious_login_notify_at
    if notify == 2 then report_suspicious user tenant ip else raise invalid_credentials

  -- No account, or one with no password.
  unfoldable pub unknown_account : String → String → Action (String × String × String)
  unknown_account email ip = do
    record_login_failure env ip email suspicious_login_notify_at
    raise invalid_credentials

  -- The transaction of a login, after `BeginTx`.
  unfoldable pub login_writes : OutboxEvent → RefreshToken → Action (Unit {0})
  login_writes event token = do
    create_event env in_tx event
    create_refresh_token env in_tx token
    commit env

  -- The tokens and the event of a login.
  unfoldable pub login_data :
      User → Tenant → String → Action (String × String × String × RefreshToken × OutboxEvent)
  login_data user tenant ip = do
    access ← generate_access_token env user.id user.email
    client ← new_uuid_v7 env
    family_id ← new_uuid_v7 env
    token ←
        generate_refresh_token env user.id family_id 0 user.tenant_id
          (sign_client_id env client s.token_secret) s.token_secret
    event_id ← new_uuid_v7 env
    payload ← marshal env (login_payload user tenant ip event_id)
    created ← time_now env
    retry ← time_now env
    pure (
      access,
      token.0,
      sign_client_id env client s.token_secret,
      token.1,
      new_event event_id user_login_succeeded payload (retry + minute) created,
    )

  -- A password that matches.
  unfoldable pub right_password : User → Tenant → String → Action (String × String × String)
  right_password user tenant ip = if is_some user.locked_at then raise user_locked_out else do
    made ← login_data user tenant ip
    begin_tx env
    deferring_rollback (login_writes made.4 made.3)
    pure (made.0, made.1, made.2)

  -- `Login`, from the look-up on.
  unfoldable pub authenticate :
      Option User → Tenant → String → String → String → Action (String × String × String)
  authenticate none tenant email password ip = unknown_account email ip
  authenticate (some user) tenant email password ip = elim user.password_hash [
    | none ↦ unknown_account email ip
    | some hash ↦
        if env.bcrypt_matches hash password
        then right_password user tenant ip
        else wrong_password user tenant email ip
  ]

  -- `Login`: the access token, the refresh token and the client's id.
  unfoldable pub login : Context → String → String → String → Action (String × String × String)
  login ctx email password ip = do
    tenant ← require_tenant ctx
    user ← or_no_row (find_user_by_email env email tenant.id)
    authenticate user tenant email password ip
