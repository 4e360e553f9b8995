-- ===== src/Service/Signup.antt =====
-- internal/auth/service.go: registration and signup.
pub mod Transaction
pub mod Built
pub mod Duplicate
use go_auth_api.Base.{String, false, if◌then◌else◌, none, some, ℕ, ◌&&◌, ◌*◌, ◌+◌, ◌<>◌}
use go_auth_api.Errors.{external, wrap_user_create_error}
use go_auth_api.Models.Account.{EmailVerificationToken, RefreshToken, Tenant, User, hour}
use go_auth_api.Models.Event.{
  OutboxEvent, UserInfo, email_payload, email_verification_requested, new_event, user_created,
  user_info_payload, verification_request,
}
use go_auth_api.Repo.Mail.{create_email_token}
use go_auth_api.Repo.Outbox.{create_event}
use go_auth_api.Repo.Refresh.{create_refresh_token}
use go_auth_api.Repo.Users.{create_user}
use go_auth_api.Service.Context.{Context, Service}
use go_auth_api.Tokens.{
  generate_access_token, generate_email_verification_token, generate_refresh_token, hash_password,
  hash_token, sign_client_id,
}
use go_auth_api.World.{Env}
use go_auth_api.World.Action.{
  Action, begin_tx, catch, commit, crash, deferring_rollback, ignore_error, in_tx, marshal,
  must_call, new_uuid_v7, pool, pure, raise, send_mail, time_now, ◌>>=◌, ◌>>◌,
}

-- `SignUpDataBundle`
pub record SignUpData : Type 0 where
  pub user : User
  pub email_verification_token : EmailVerificationToken
  pub refresh_token : RefreshToken
  pub user_created_event : OutboxEvent
  pub email_verification_event : OutboxEvent
  pub user_info : UserInfo
  pub plain_refresh_token : String
  pub plain_email_token : String

-- `SignupResponseRefactor`, whose `token_type` is always "bearer"
pub record SignupResponse : Type 0 where
  pub access_token : String
  pub refresh_token : String
  pub token_type : String
  pub user : UserInfo

-- `VerifyEmailURLConstructor` of internal/auth/handlers.go
unfoldable pub verify_email_url : String → String → String
verify_email_url base_url token = base_url <> "/verify-email?t=" <> token

-- A `models.User` literal: neither verified nor locked, with no user name.
abbrev pub new_user : ℕ → String → String → ℕ → ℕ → User
new_user id email hash tenant_id now = record {
  id = id;
  email = email;
  username = none;
  password_hash = some hash;
  email_verified = false;
  is_active = false;
  locked_at = none;
  tenant_id = tenant_id;
  created_at = now;
  updated_at = now;
}

module _ (env : Env) (s : Service) where
  -- `Register`. The mail is sent by a goroutine, whose error is dropped.
  unfoldable pub register : String → String → Action (Unit {0})
  register email password = do
    hash ← hash_password env password
    if s.has_email_repo && s.has_mailer then pure tt else crash
    now ← time_now env
    user_id ← new_uuid_v7 env
    catch (create_user env pool (new_user user_id email hash 0 now))
        (λ e. raise (wrap_user_create_error e))
    raw ← must_call env
    token_id ← new_uuid_v7 env
    create_email_token env pool (record {
      id = token_id;
      user_id = user_id;
      token_hash = hash_token env (env.random_text raw) s.token_secret;
      expires_at = now + 24 * hour;
      used_at = none;
      created_at = now;
    })
    ignore_error (send_mail env email (env.random_text raw))

  -- `signUpDataBuilder`
  unfoldable pub sign_up_data_builder :
      String → String → String → String → String → ℕ → Action SignUpData
  sign_up_data_builder email username password client_id tenant_name tenant_id = do
    now ← time_now env
    hash ← hash_password env password
    user_id ← new_uuid_v7 env
    email_token ← generate_email_verification_token env user_id s.token_secret
    family_id ← new_uuid_v7 env
    refresh_token ←
        generate_refresh_token env user_id family_id 0 tenant_id client_id s.token_secret
    let user_info : UserInfo = record {
      user_id = user_id;
      email = email;
      username = username;
      verified = false;
      created_at = now;
    }
    outbox_payload ← marshal env (user_info_payload user_info)
    user_created_id ← new_uuid_v7 env
    verification_id ← new_uuid_v7 env
    email_outbox_payload ← marshal env (
        email_payload (record {
          tenant = tenant_name;
          user_id = user_id;
          email = email;
          username = none;
          event_id = verification_id;
          ip = "";
          payload_data =
              verification_request (verify_email_url s.app_url email_token.0)
                email_token.1.expires_at;
        }))
    pure (record {
      user = new_user user_id email hash tenant_id now;
      email_verification_token = email_token.1;
      refresh_token = refresh_token.1;
      user_created_event = new_event user_created_id user_created outbox_payload now now;
      email_verification_event =
          new_event verification_id email_verification_requested email_outbox_payload now now;
      user_info = user_info;
      plain_refresh_token = refresh_token.0;
      plain_email_token = email_token.0;
    })

  -- `signUpTransaction`, after `BeginTx`
  unfoldable pub sign_up_writes : SignUpData → Action (Unit {0})
  sign_up_writes sud = do
    catch (create_user env in_tx sud.user) (λ e. raise (wrap_user_create_error e))
    create_email_token env in_tx sud.email_verification_token
    create_refresh_token env in_tx sud.refresh_token
    create_event env in_tx sud.user_created_event
    create_event env in_tx sud.email_verification_event
    commit env

  -- `signUpTransaction`
  unfoldable pub sign_up_transaction : SignUpData → Action (Unit {0})
  sign_up_transaction sud = do begin_tx env; deferring_rollback (sign_up_writes sud)

  -- `signupResponseBuilder`
  unfoldable pub signup_response_builder : SignUpData → Action SignupResponse
  signup_response_builder sud = do
    access_token ← generate_access_token env sud.user.id sud.user.email
    pure (record {
      access_token = access_token;
      refresh_token = sud.plain_refresh_token;
      token_type = "bearer";
      user = sud.user_info;
    })

  -- `errors.New("couldnt get tenant")`
  abbrev signup_tenant : Context → Action Tenant
  signup_tenant none = raise (external "couldnt get tenant")
  signup_tenant (some t) = pure t

  -- `SignupService`
  unfoldable pub signup_service : Context → String → String → String → ℕ → Action SignupResponse
  signup_service ctx email username password tenant_id = do
    client ← new_uuid_v7 env
    tenant ← signup_tenant ctx
    sud ←
        sign_up_data_builder email username password (sign_client_id env client s.token_secret)
          tenant.tenant_name tenant_id
    sign_up_transaction sud
    signup_response_builder sud
