-- ===== src/Errors.antt =====
-- internal/auth/errors.go: the error values of the service, their messages and the HTTP answer
-- that each is mapped to, with `wrapUserCreateError` of internal/auth/service.go. `no_rows` and
-- `tx_done` are `sql.ErrNoRows` and `sql.ErrTxDone`; `external` is any other error of a driver or
-- library, known by its message only.
use go_auth_api.Base.{Bool, String, codes, contains, if◌then◌else◌, map, to_lower, ℕ, ◌||◌}

pub data Error : Type 0 where
  user_locked_out invalid_credentials invalid_token missing_token empty_username : Error
  invalid_email email_not_verified refresh_reuse email_already_exists : Error
  invalid_verification_token short_password unchanged_password passwords_not_match : Error
  tenant_header_missing tenant_not_found tenant_inactive rate_limited : Error
  no_rows tx_done : Error
  external : String → Error

-- `err.Error()`
unfoldable pub message : Error → String
message user_locked_out = "user locked out, reset password"
message invalid_credentials = "invalid credentials"
message invalid_token = "invalid token"
message missing_token = "missing token"
message empty_username = "username is required"
message invalid_email = "email format is invalid"
message email_not_verified = "email not verified"
message refresh_reuse = "attempted to reuse token"
message email_already_exists = "email already exists"
message invalid_verification_token = "invalid or expired verification token"
message short_password = "password must be greater than 9 characters"
message unchanged_password = "new password must be different"
message passwords_not_match = "passwords do not coincide"
message tenant_header_missing = "missing tenant header"
message tenant_not_found = "tenant not found"
message tenant_inactive = "tenant is not active"
message rate_limited = "too many requests"
message no_rows = "sql: no rows in result set"
message tx_done = "sql: transaction has already been committed or rolled back"
message (external m) = m

-- `mapAuthError`: the status and the text of an answer.
unfoldable pub map_auth_error : Error → ℕ × String
map_auth_error email_already_exists = (401, "invalid credentials")
map_auth_error invalid_credentials = (401, "invalid credentials")
map_auth_error invalid_token = (401, "invalid token")
map_auth_error email_not_verified = (403, "email not verified")
map_auth_error refresh_reuse = (401, "refresh token reuse detected")
map_auth_error invalid_verification_token = (400, "invalid or expired verification token")
map_auth_error _ = (500, "internal server error")

-- `isUniqueConstraintError`, on an error that is there: `strings.ToLower`, then `strings.Contains`.
unfoldable pub is_unique_constraint_error : Error → Bool
unfolding message to_lower contains
is_unique_constraint_error e =
    let msg = map to_lower (codes (message e)) in
    contains msg (codes "unique") || contains msg (codes "duplicate")

-- `wrapUserCreateError`, on an error that is there.
unfoldable pub wrap_user_create_error : Error → Error
unfolding is_unique_constraint_error
wrap_user_create_error e = if is_unique_constraint_error e then email_already_exists else e
