-- ===== src/Examples/RateLimit.antt =====
-- A run of the login limiter.
-- The account has failed five times.
use go_auth_api.Base.{arith, if◌then◌else◌, none, refl, some, str_eq, ◌≡◌}
use go_auth_api.RateLimit.Limiter.{account_key, ip_key, pair_key, redis_keys}
use go_auth_api.RateLimit.Lockout.{login_lockout}
use go_auth_api.RateLimit.Scripts.{
  Redis, any_blocked, bucket_at, empty_bucket, is_blocked, login_check, login_record_failure,
  next_try_after,
}

abbrev five_failures : Redis
five_failures = λ key.
    if str_eq key "auth:login:account:ann@example.org"
    then some (record empty_bucket { failures = some 5; expires_at = 4000 })
    else none

login_lockout_example :
    login_check
      (redis_keys "login" "10.0.0.2" "ann@example.org")
      1299
      (login_record_failure
        (redis_keys "login" "10.0.0.1" "ann@example.org")
        5
        1000
        five_failures).1
    ≡ 1
unfolding any_blocked is_blocked bucket_at redis_keys ip_key account_key pair_key next_try_after
login_lockout_example =
    login_lockout "10.0.0.1" "10.0.0.2" "ann@example.org" 5 1000 1299 5 five_failures refl
      (omega arith) (omega arith)
