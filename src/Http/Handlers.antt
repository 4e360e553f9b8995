-- ===== src/Http/Handlers.antt =====
-- internal/auth/handlers.go: the handlers of the routes. An error of writing an answer is dropped.
use go_auth_api.Base.{Option, String, if◌then◌else◌, none, not, some, str_eq, ℕ}
use go_auth_api.Errors.{
  Error, invalid_email, message, missing_token, passwords_not_match, unchanged_password,
}
use go_auth_api.Http.{
  Request, Response, Web, client_ip, empty_body, error_body, health_body, login_body, me_body,
  refresh_body, respond, respond_json_error, respond_text_error, signup_body, text_body,
  validate_email, validate_password,
}
use go_auth_api.Service.Context.{Context, Service}
use go_auth_api.Service.Login.{login}
use go_auth_api.Service.Passwords.{change_password, request_reset_password, reset_password}
use go_auth_api.Service.Sessions.{logout, refresh, revoke_all}
use go_auth_api.Service.Signup.{register, signup_service}
use go_auth_api.Service.Verification.{resend_verification, verify_email}
use go_auth_api.World.{Env}
use go_auth_api.World.Action.{Action, call, catch, error_of, pure, ◌>>=◌, ◌>>◌}

module _ (env : Env) (s : Service) (web : Web) (r : Request) where
  -- `if err != nil { refuse }; accept`
  abbrev pub either_way :
      {A : Type 0} → Action A → (Error → Response) → (A → Response) → Action Response
  either_way m refuse accept = catch (do a ← m; pure (accept a)) (λ e. pure (refuse e))

  abbrev bad_request : String → Action Response
  bad_request text = pure (respond 400 (error_body text))

  abbrev pub valid_or : Option Error → Action Response → Action Response
  valid_or none next = next
  valid_or (some e) next = bad_request (message e)

  -- `registerHandler`, which no route calls.
  unfoldable pub register_handler : Action Response
  register_handler = elim (web.decode_login r.body) [
    | none ↦ pure (respond 400 (text_body "invalid payload"))
    | some (email, password) ↦
        either_way (register env s email password) respond_json_error (λ _. respond 201 empty_body)
  ]

  -- `signupHandler`
  unfoldable pub signup_handler : Context → Action Response
  signup_handler ctx = elim (web.decode_signup r.body) [
    | none ↦ bad_request "invalid request body"
    | some (email, username, password) ↦ valid_or (validate_email web email) (
        valid_or (validate_password password) (elim ctx [
          | none ↦ bad_request "no tenant header"
          | some tenant ↦
              either_way (signup_service env s (some tenant) email username password tenant.id)
                respond_json_error (λ response. respond 201 (signup_body response))
        ]))
  ]

  -- `verifyEmailHandler`
  unfoldable pub verify_email_handler : Action Response
  verify_email_handler =
      if str_eq r.query_t ""
      then pure (respond_json_error missing_token)
      else either_way (verify_email env s r.query_t) respond_json_error
          (λ _. respond 200 (text_body "Email verified successfully, You can close this tab now"))

  -- `resendVerificationHandler`
  unfoldable pub resend_verification_handler : Context → Action Response
  resend_verification_handler ctx = elim (web.decode_resend r.body) [
    | none ↦ pure (respond 400 (text_body "invalid JSON body"))
    | some email ↦
        if str_eq email ""
        then pure (respond 400 (text_body "email required"))
        else either_way (resend_verification env s ctx email) respond_text_error
            (λ _. respond 204 empty_body)
  ]

  -- `loginHandler`
  unfoldable pub login_handler : Context → Action Response
  login_handler ctx = elim (web.decode_login r.body) [
    | none ↦ pure (respond 400 (text_body "invalid JSON body"))
    | some (email, password) ↦ valid_or (validate_email web email) (
        valid_or (validate_password password) (
          either_way (login env s ctx email password (client_ip web r)) respond_json_error
            (λ (access, refresh_token, client).
              respond 200 (login_body access refresh_token client))))
  ]

  -- `refreshHandler`
  unfoldable pub refresh_handler : Context → Action Response
  refresh_handler ctx = elim (web.decode_refresh r.body) [
    | none ↦ pure (respond 400 (text_body "invalid request"))
    | some refresh_token ↦
        if str_eq refresh_token ""
        then bad_request "refresh token required"
        else either_way (refresh env s ctx refresh_token) respond_json_error
            (λ (access, next, expires_at). respond 200 (refresh_body access next expires_at))
  ]

  -- `logoutHandler`
  unfoldable pub logout_handler : Context → Action Response
  logout_handler ctx = elim (web.decode_logout r.body) [
    | none ↦ pure (respond 400 (text_body "invalid request"))
    | some refresh_token ↦
        either_way (logout env s ctx refresh_token) respond_json_error (λ _. respond 204 empty_body)
  ]

  -- `revokeAllHandler`, behind `JWTMiddleware`, whose user id is one that parses.
  unfoldable pub revoke_all_handler : Context → ℕ × String → Action Response
  revoke_all_handler ctx (user_id, email) =
      either_way (revoke_all env s ctx user_id) respond_json_error (λ _. respond 204 empty_body)

  -- `changePasswordHandler`
  unfoldable pub change_password_handler : Context → Action Response
  change_password_handler ctx = elim (web.decode_change r.body) [
    | none ↦ bad_request "invalid JSON body"
    | some req ↦ valid_or (validate_email web req.email) (
        if not (str_eq req.new_password req.new_confirm)
        then bad_request (message passwords_not_match)
        else if str_eq req.old_password req.new_password
        then bad_request (message unchanged_password)
        else either_way (change_password env s ctx req (client_ip web r))
            (λ e. respond 400 (error_body (message e))) (λ _. respond 200 empty_body))
  ]

  -- `sendResetPasswordEmailHandler`
  unfoldable pub send_reset_password_email_handler : Context → Action Response
  send_reset_password_email_handler ctx = elim (web.decode_reset_email r.body) [
    | none ↦ bad_request "invalid JSON body"
    | some email ↦ valid_or (validate_email web email) (
        either_way (request_reset_password env s ctx email (client_ip web r))
          (λ _. respond 400 (error_body (message invalid_email))) (λ _. respond 200 empty_body))
  ]

  -- `resetPasswordHandler`
  unfoldable pub reset_password_handler : Context → Action Response
  reset_password_handler ctx = elim (web.decode_new_password r.body) [
    | none ↦ bad_request "invalid JSON body"
    | some new_password ↦
        if str_eq new_password ""
        then bad_request "new_password is required"
        else if str_eq r.query_t ""
        then bad_request "reset token is required"
        else either_way (reset_password env s ctx r.query_t new_password (client_ip web r))
            (λ _. respond 400 (error_body "invalid or expired reset token"))
            (λ _. respond 204 empty_body)
  ]

-- `meHandler`
unfoldable pub me_handler : ℕ × String → Action Response
me_handler (user_id, email) = pure (respond 200 (me_body user_id email))

-- `healthhandler`: one call to the database.
unfoldable pub health_handler : Env → Action Response
health_handler env = do
  ping_error ← error_of (do call env; pure tt)
  elim ping_error [
    | none ↦ pure (respond 200 (health_body "ok"))
    | some e ↦ pure (respond 503 (health_body "error"))
  ]
