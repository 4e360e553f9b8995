-- ===== src/Examples/Accounts.antt =====
-- Runs of the accounts' operations.
use go_auth_api.Base.{contains, false, has_prefix, inl, refl, some, to_lower, ◌≡◌}
use go_auth_api.Errors.{
  email_already_exists, external, invalid_credentials, is_unique_constraint_error, message,
}
use go_auth_api.Examples.{ann, email_token, outage, service, session, shop, site, start, tables}
use go_auth_api.Models.Account.{User}
use go_auth_api.Models.Event.{email_verification_requested, new_event, user_created}
use go_auth_api.RateLimit.Limiter.{account_key, ip_key, pair_key, record_login_failure, redis_keys}
use go_auth_api.RateLimit.Scripts.{
  any_blocked, bucket_at, count_failure, count_failures, is_blocked, login_record_failure,
  next_try_after,
}
use go_auth_api.Repo.Mail.{insert_email_token}
use go_auth_api.Repo.Outbox.{insert_event}
use go_auth_api.Repo.Refresh.{insert_refresh_token, user_exists}
use go_auth_api.Repo.Users.{clashes_with, insert_user, user_by_email}
use go_auth_api.Service.Login.{
  authenticate, login, login_data, login_payload, login_writes, right_password, wrong_password,
}
use go_auth_api.Service.Login.Endings.{Login, login-Login}
use go_auth_api.Service.Signup.{SignUpData, sign_up_transaction, sign_up_writes, signup_service}
use go_auth_api.Service.Signup.Built.{Signs, signup_service-Signs}
use go_auth_api.Service.Signup.Duplicate.{sign_up_transaction_duplicate}
use go_auth_api.Service.Signup.Transaction.{SignsUp, sign_up_transaction-SignsUp}
use go_auth_api.Sql.{exists_row, select_one}
use go_auth_api.Tokens.{hash_token, sign_client_id}
use go_auth_api.World.{err, ok}
use go_auth_api.World.Action.{
  call, catch, commit, deferring_rollback, on_pool, on_tx, open_tx, time_now, ◌>>=◌,
}

abbrev bob : User
bob = record ann { id = 8; email = "bob@example.org" }

abbrev new_data : SignUpData
new_data = record {
  user = bob;
  email_verification_token = record email_token { id = 41; user_id = 8 };
  refresh_token = record session { id = 21; user_id = 8; family_id = 6 };
  user_created_event = new_event 50 user_created (login_payload bob shop "127.0.0.1" 50) 1000 1000;
  email_verification_event =
      new_event 51 email_verification_requested (login_payload bob shop "127.0.0.1" 51) 1000 1000;
  user_info = record {
    user_id = 8;
    email = "bob@example.org";
    username = "bob";
    verified = false;
    created_at = 1000;
  };
  plain_refresh_token = "fresh";
  plain_email_token = "fresh";
}

-- A signup, the same signup during an outage, a login, and a login with the wrong password.
runs :
    ((sign_up_transaction site service new_data start).0 ≡ ok tt)
    × ((sign_up_transaction outage service new_data start).0 ≡ err (external "connection refused"))
    × ((login site service (some shop) "ann@example.org" "old password" "127.0.0.1" start).0
        ≡ ok ("jwt", "fresh", "uuid.0123456789abcdef"))
    × ((login site service (some shop) "ann@example.org" "wrong" "127.0.0.1" start).0
        ≡ err invalid_credentials)
unfolding sign_up_transaction sign_up_writes login authenticate right_password login_data
    login_writes wrong_password record_login_failure login_record_failure any_blocked is_blocked
    bucket_at count_failures count_failure next_try_after redis_keys ip_key account_key pair_key
    sign_client_id hash_token user_by_email insert_user clashes_with insert_email_token
    insert_refresh_token insert_event new_event user_exists select_one exists_row ◌>>=◌ catch call
    time_now open_tx on_tx on_pool commit deferring_rollback
runs = (refl, refl, refl, refl)

sign_up_transaction-SignsUp_example :
    SignsUp new_data tables
      (sign_up_transaction site service new_data start).0
      (sign_up_transaction site service new_data start).1.db
unfolding new_event
sign_up_transaction-SignsUp_example =
    sign_up_transaction-SignsUp site service new_data start refl refl

login-Login_example :
    Login site service "ann@example.org" 1 "old password" tables
      (login site service (some shop) "ann@example.org" "old password" "127.0.0.1" start).0
      (login site service (some shop) "ann@example.org" "old password" "127.0.0.1" start).1.db
login-Login_example =
    login-Login site service shop "ann@example.org" "old password" "127.0.0.1" start

signup_service-Signs_example :
    Signs site service "eve@example.org" "eve" "password" shop.tenant_name 1 tables
      (signup_service site service (some shop) "eve@example.org" "eve" "password" 1 start).0
      (signup_service site service (some shop) "eve@example.org" "eve" "password" 1 start).1.db
signup_service-Signs_example =
    signup_service-Signs site service shop "eve@example.org" "eve" "password" 1 start

-- A signup with the address of a user who is there.
abbrev twice : SignUpData
twice = record new_data { user = record bob { email = "ann@example.org" } }

sign_up_transaction_duplicate_example :
    ((sign_up_transaction site service twice start).0 ≡ err email_already_exists)
    × ((sign_up_transaction site service twice start).1.db ≡ tables)
unfolding is_unique_constraint_error message to_lower contains has_prefix
sign_up_transaction_duplicate_example =
    sign_up_transaction_duplicate site service twice start (λ n. refl) refl (inl (refl, refl))
