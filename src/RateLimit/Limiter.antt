-- ===== src/RateLimit/Limiter.antt =====
-- internal/auth/ratelimiter/ratelimiters.go with the Lua scripts of internal/auth/luascripts,
-- which Redis runs one at a time. The scripts' `now` is in seconds, and Redis expires keys by the
-- same clock.
use go_auth_api.Base.{List, String, [], if◌then◌else◌, ℕ, ◌/◌, ◌<>◌, ◌==◌, ◌∷◌}
use go_auth_api.Errors.{rate_limited}
use go_auth_api.Models.Account.{second}
use go_auth_api.RateLimit.Scripts.{
  Redis, login_check, login_record_failure, reset_request_check, reset_request_record, signup_check,
  signup_record_failure,
}
use go_auth_api.World.{Env, ok}
use go_auth_api.World.Action.{Action, call, pure, raise, time_now, ◌>>=◌, ◌>>◌}

-- `RedisKeyBuilder`
unfoldable pub ip_key : String → String → String
ip_key endpoint ip = "auth:" <> endpoint <> ":ip:" <> ip

unfoldable pub account_key : String → String → String
account_key endpoint email = "auth:" <> endpoint <> ":account:" <> email

unfoldable pub pair_key : String → String → String → String
pair_key endpoint ip email = "auth:" <> endpoint <> ":pair:" <> ip <> ":" <> email

unfoldable pub redis_keys : String → String → String → List String
redis_keys endpoint ip email =
    ip_key endpoint ip ∷ account_key endpoint email ∷ pair_key endpoint ip email ∷ []

module _ (env : Env) where
  -- `Script.Run(ctx, redis, keys, time.Now().Unix(), …)`
  abbrev run_script : {A : Type 0} → (ℕ → Redis → A × Redis) → Action A
  run_script script = do
    now ← time_now env
    call env
    λ w. let (r, store) = script (now / second) w.redis in (ok r, record w { redis = store })

  -- `if result == 1 { return ErrRateLimited }`
  abbrev refuse_blocked : ℕ → Action (Unit {0})
  refuse_blocked result = if result == 1 then raise rate_limited else pure tt

  -- `CheckLogin`
  unfoldable pub check_login : String → String → Action (Unit {0})
  unfolding login_check
  check_login ip email = do
    result ← run_script (λ now r. (login_check (redis_keys "login" ip email) now r, r))
    refuse_blocked result

  -- `RecordLoginFailure`
  unfoldable pub record_login_failure : String → String → ℕ → Action ℕ
  unfolding login_record_failure
  record_login_failure ip email notify_attempt =
      run_script (login_record_failure (redis_keys "login" ip email) notify_attempt)

  -- `CheckSignup`
  unfoldable pub check_signup : String → Action (Unit {0})
  unfolding signup_check
  check_signup ip = do
    result ← run_script (λ now r. (signup_check (ip_key "signup" ip) now r, r))
    refuse_blocked result

  -- `RecordSignupAttempt`
  unfoldable pub record_signup_attempt : String → Action (Unit {0})
  unfolding signup_record_failure
  record_signup_attempt ip = do run_script (signup_record_failure (ip_key "signup" ip)); pure tt

  -- `CheckPasswordResetRequest`
  unfoldable pub check_password_reset_request : String → String → Action (Unit {0})
  unfolding reset_request_check
  check_password_reset_request ip email = do
    result ←
        run_script
          (λ now r. (reset_request_check (ip_key "reset" ip) (account_key "reset" email) now r, r))
    refuse_blocked result

  -- `RecordPasswordResetRequest`
  unfoldable pub record_password_reset_request : String → String → Action (Unit {0})
  unfolding reset_request_record
  record_password_reset_request ip email = do
    run_script (reset_request_record (ip_key "reset" ip) (account_key "reset" email))
    pure tt
