-- ===== src/Examples/Passwords.antt =====
-- Runs of the operations on passwords and addresses.
use go_auth_api.Base.{refl, some, ◌≡◌, ◌≢◌}
use go_auth_api.Examples.{service, shop, site, start, tables}
use go_auth_api.Models.Event.{new_event}
use go_auth_api.Repo.Mail.{set_email_used, valid_email_token}
use go_auth_api.Repo.Outbox.{insert_event}
use go_auth_api.Repo.Refresh.{set_revoked_for_user, user_exists}
use go_auth_api.Repo.Reset.{
  insert_reset_token, set_reset_revoked, set_reset_used, valid_reset_token,
}
use go_auth_api.Repo.Users.{set_activated, set_password, user_by_email, user_by_id}
use go_auth_api.Service.Passwords.{
  ChangePasswordRequest, change_password, change_password_of, change_password_writes,
  request_reset_of, request_reset_password, request_reset_writes, reset_password,
  reset_password_writes,
}
use go_auth_api.Service.Passwords.Change.{Changes, change_password-Changes}
use go_auth_api.Service.Passwords.Once.{reset_password_once, revoke_previous_no_effect}
use go_auth_api.Service.Passwords.Reset.{Resets, reset_password-Resets}
use go_auth_api.Service.Verification.{verify_email}
use go_auth_api.Service.Verification.Verified.{verify_email_once}
use go_auth_api.Sql.{exists_row, select_one, update_rows}
use go_auth_api.Tokens.{hash_token}
use go_auth_api.World.{ok}
use go_auth_api.World.Action.{
  call, catch, commit, deferring_rollback, on_pool, on_tx, open_tx, time_now, ◌>>=◌,
}

reset_run :
    (reset_password site service (some shop) "reset" "new password" "127.0.0.1" start).0 ≡ ok tt
unfolding reset_password reset_password_writes hash_token valid_reset_token set_password
    set_reset_used set_revoked_for_user user_by_id insert_event new_event select_one update_rows
    exists_row ◌>>=◌ catch call time_now open_tx on_tx on_pool commit deferring_rollback
reset_run = refl

reset_password-Resets_example :
    Resets site
      (hash_token site "reset" "secret")
      1
      "new password"
      tables
      (reset_password site service (some shop) "reset" "new password" "127.0.0.1" start).0
      (reset_password site service (some shop) "reset" "new password" "127.0.0.1" start).1.db
reset_password-Resets_example =
    reset_password-Resets site service shop "reset" "new password" "127.0.0.1" start

reset_password_once_example :
    (reset_password site service
      (some shop)
      "reset"
      "third"
      "127.0.0.1"
      (reset_password site service (some shop) "reset" "new password" "127.0.0.1" start).1).0
    ≢ ok tt
reset_password_once_example =
    reset_password_once site service shop "reset" "new password" "127.0.0.1" start
      (reset_password site service (some shop) "reset" "new password" "127.0.0.1" start).1 30
      "third" "127.0.0.1" ((λ h. refl), tt) reset_run refl

revoke_previous_no_effect_example :
    (valid_reset_token "reset" 1 1300 (set_reset_revoked 1 7 1200 1200 tables).1).0
    ≡ (valid_reset_token "reset" 1 1300 tables).0
revoke_previous_no_effect_example = revoke_previous_no_effect 1 7 1200 1200 1300 "reset" 1 tables

abbrev change_request : ChangePasswordRequest
change_request = record {
  email = "ann@example.org";
  old_password = "old password";
  new_password = "new password";
  new_confirm = "new password";
}

change_password-Changes_example :
    Changes site "ann@example.org" 1 "old password" "new password" tables
      (change_password site service (some shop) change_request "127.0.0.1" start).0
      (change_password site service (some shop) change_request "127.0.0.1" start).1.db
change_password-Changes_example =
    change_password-Changes site service shop change_request "127.0.0.1" start

-- A change, a request, and a verification.
runs :
    ((change_password site service (some shop) change_request "127.0.0.1" start).0 ≡ ok tt)
    × ((request_reset_password site service (some shop) "ann@example.org" "127.0.0.1" start).0
        ≡ ok tt)
    × ((verify_email site service "verify" start).0 ≡ ok tt)
unfolding change_password change_password_of change_password_writes request_reset_password
    request_reset_of request_reset_writes verify_email valid_email_token set_email_used
    set_activated hash_token user_by_email set_password insert_reset_token set_reset_revoked
    insert_event new_event user_exists select_one update_rows exists_row ◌>>=◌ catch call time_now
    open_tx on_tx on_pool commit deferring_rollback
runs = (refl, refl, refl)

verify_email_once_example :
    (verify_email site service "verify" (verify_email site service "verify" start).1).0 ≢ ok tt
verify_email_once_example =
    verify_email_once site service "verify" start (verify_email site service "verify" start).1 40
      ((λ h. refl), tt) runs.2 refl
