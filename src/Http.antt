-- ===== src/Http.antt =====
-- Requests and answers of internal/auth/handlers.go and internal/auth/middleware.go, with the
-- validations of internal/auth/validations.go.
pub mod Middleware
pub mod Handlers
pub mod Routes
pub mod Guards
pub mod Limited
pub mod LoginRoute
pub mod Server
pub mod Answered
use go_auth_api.Base.{
  List, Option, String, [], codes, if◌then◌else◌, leb, ltb, none, some, str_eq, ℕ, ◌+◌, ◌∷◌,
}
use go_auth_api.Errors.{Error, invalid_email, map_auth_error, short_password}
use go_auth_api.Service.Passwords.{ChangePasswordRequest}
use go_auth_api.Service.Signup.{SignupResponse}

pub record Request : Type 0 where
  pub path : String
  pub header : String → String
  pub remote_addr : String
  pub body : String
  pub query_t : String

-- Go's libraries, as the handlers use them: encoding/json for each request type, net/mail, net,
-- strings, uuid and the JWT library. `none` is an error.
pub record Web : Type 0 where
  pub decode_signup : String → Option (String × String × String)
  pub decode_login : String → Option (String × String)
  pub decode_refresh : String → Option String
  pub decode_logout : String → Option String
  pub decode_resend : String → Option String
  pub decode_change : String → Option ChangePasswordRequest
  pub decode_reset_email : String → Option String
  pub decode_new_password : String → Option String
  pub email_member : String → String
  pub parse_address : String → Option String
  pub trim_space : String → String
  pub parse_ip : String → Option String
  pub split_host : String → Option String
  pub bearer : String → Option String
  pub verify_jwt : String → Option (ℕ × String)

pub data Body : Type 0 where
  empty_body : Body
  text_body : String → Body
  error_body : String → Body
  signup_body : SignupResponse → Body
  login_body : String → String → String → Body
  refresh_body : String → String → ℕ → Body
  me_body : ℕ → String → Body
  health_body : String → Body

pub record Response : Type 0 where
  pub status : ℕ
  pub body : Body

abbrev pub respond : ℕ → Body → Response
respond status body = record { status = status; body = body }

-- `respondJSONError`
unfoldable pub respond_json_error : Error → Response
unfolding map_auth_error
respond_json_error e = let (status, text) = map_auth_error e in respond status (error_body text)

-- `respondTextError`
unfoldable pub respond_text_error : Error → Response
unfolding map_auth_error
respond_text_error e = let (status, text) = map_auth_error e in respond status (text_body text)

-- The bytes of a code point in UTF-8, and `len(s)`.
abbrev utf8_size : ℕ → ℕ
utf8_size c = if ltb c 128 then 1 else if ltb c 2048 then 2 else if ltb c 65536 then 3 else 4

abbrev byte_length : List ℕ → ℕ
byte_length [] = 0
byte_length (c ∷ cs) = utf8_size c + byte_length cs

module _ (web : Web) where
  -- `validateEmail`
  unfoldable pub validate_email : String → Option Error
  validate_email email =
      let trimmed = web.trim_space email in
      if str_eq trimmed ""
      then some invalid_email
      else elim (web.parse_address trimmed) [ none ↦ some invalid_email | some a ↦ none ]

  -- `ClientIP`
  unfoldable pub client_ip : Request → String
  client_ip r = elim (web.parse_ip (web.trim_space (r.header "X-Real-IP"))) [
    | some ip ↦ ip
    | none ↦ elim (web.split_host r.remote_addr) [ none ↦ r.remote_addr | some host ↦ host ]
  ]

-- `validatePassword`
unfoldable pub validate_password : String → Option Error
validate_password password =
    if leb (byte_length (codes password)) 9 then some short_password else none
