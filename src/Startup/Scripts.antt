-- ===== src/Startup/Scripts.antt =====
-- internal/auth/luascripts/LuaScripts.go: the six scripts, read from the embedded files.
use go_auth_api.Base.{String}
use go_auth_api.Config.Values.{Loaded, loaded, ◌>>=◌}
use go_auth_api.RateLimit.Limiter.{check_login, check_signup}

pub record Scripts : Type 0 where
  pub check_login_script : String
  pub record_login_failure_script : String
  pub check_signup_script : String
  pub record_signup_failure_script : String
  pub check_reset_request_script : String
  pub record_reset_request_failure_script : String

-- `luascripts.Init`: `scripts.ReadFile` is the parameter.
unfoldable pub init_scripts : (String → Loaded String) → Loaded Scripts
init_scripts read_script = do
  check_login ← read_script "login_check.lua"
  record_login ← read_script "login_recordfailure.lua"
  check_signup ← read_script "signup_check.lua"
  record_signup ← read_script "signup_recordfailure.lua"
  check_reset_request ← read_script "resetpasswordrequest_check.lua"
  record_reset_request ← read_script "resetpasswordrequest_recordfailure.lua"
  loaded (record {
    check_login_script = check_login;
    record_login_failure_script = record_login;
    check_signup_script = check_signup;
    record_signup_failure_script = record_signup;
    check_reset_request_script = check_reset_request;
    record_reset_request_failure_script = record_reset_request;
  })
