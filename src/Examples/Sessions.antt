-- ===== src/Examples/Sessions.antt =====
-- Runs of the refresh tokens' operations.
-- What the first exchange of the live token returns.
use go_auth_api.Base.{
  [], ◌∷◌, All, String, arith, false, is_some, none, refl, some, true, ℕ, ◌*◌, ◌+◌, ◌==◌, ◌≡◌, ◌≢◌,
}
use go_auth_api.Errors.{invalid_token, refresh_reuse}
use go_auth_api.Examples.{service, session, shop, site, start, tables}
use go_auth_api.Models.Account.{RefreshToken, hour}
use go_auth_api.Repo.Refresh.{
  insert_refresh_token, refresh_by_hash, set_revoked, set_revoked_for_family, set_revoked_for_user,
  user_exists, valid_refresh_by_hash,
}
use go_auth_api.Service.Sessions.{
  logout, refresh, refuse_reuse, replace_token, revoke_all, rotate_helper, rotate_in_tx,
}
use go_auth_api.Service.Sessions.Atomic.{RevokedIn, rotate_helper_reuse}
use go_auth_api.Service.Sessions.Ended.{
  OneSessionUnder, logout_ends_session, revoke_all_ends_sessions,
}
use go_auth_api.Service.Sessions.Progress.{rotate_helper_succeeds}
use go_auth_api.Service.Sessions.Refreshed.{Refreshes, refresh-Refreshes}
use go_auth_api.Service.Sessions.Replay.{rotate_helper_once}
use go_auth_api.Service.Sessions.Rotation.{Presented, Rotation, rotate_helper-Rotation}
use go_auth_api.Sql.{exists_row, select_one, update_rows}
use go_auth_api.Tokens.{hash_token}
use go_auth_api.World.{Database, Env, World, err, ok}
use go_auth_api.World.Action.{
  call, catch, commit, deferring_rollback, on_pool, on_tx, open_tx, time_now, ◌>>=◌,
}

abbrev first_pair : String × RefreshToken
first_pair = (
  "fresh",
  record {
    id = 107;
    user_id = 7;
    tenant_id = 1;
    token_hash = "fresh";
    client_id = "client";
    parent_token = 20;
    family_id = 5;
    expires_at = 1006 + 30 * (24 * hour);
    revoked_at = none;
    created_at = 1006;
  },
)

runs :
    ((rotate_helper site service (some shop) "unknown" start).0 ≡ err invalid_token)
    × ((rotate_helper site service (some shop) "stolen" start).0 ≡ err refresh_reuse)
    × ((rotate_helper site service (some shop) "live" start).0 ≡ ok first_pair)
unfolding rotate_helper rotate_in_tx refuse_reuse replace_token hash_token ◌>>=◌ catch call time_now
    open_tx on_tx on_pool commit deferring_rollback refresh_by_hash set_revoked
    set_revoked_for_family insert_refresh_token user_exists select_one update_rows exists_row
runs = (refl, refl, refl)

rotate_helper-Rotation_example :
    Rotation site service "live" 1 tables
      (rotate_helper site service (some shop) "live" start).0
      (rotate_helper site service (some shop) "live" start).1.db
unfolding hash_token
rotate_helper-Rotation_example = rotate_helper-Rotation site service shop "live" start

rotate_helper_once_example :
    (rotate_helper site service
      (some shop)
      "live"
      (rotate_helper site service (some shop) "live" start).1).0
    ≢ ok first_pair
unfolding hash_token
rotate_helper_once_example =
    rotate_helper_once site service shop "live" start first_pair
      (rotate_helper site service (some shop) "live" start).1 first_pair runs.2 (λ h. cc) refl

rotate_helper_reuse_example :
    (old : RefreshToken) × Presented (hash_token site "stolen" "secret") 1 tables old
    × (is_some old.revoked_at ≡ true)
    × All
        (RevokedIn old.family_id 1)
        (rotate_helper site service (some shop) "stolen" start).1.db.refresh_tokens
rotate_helper_reuse_example = rotate_helper_reuse site service shop "stolen" start runs.1

logout_run : (logout site service (some shop) "live" start).0 ≡ ok tt
unfolding logout valid_refresh_by_hash set_revoked hash_token select_one update_rows ◌>>=◌ catch
    call time_now open_tx on_tx on_pool commit deferring_rollback
logout_run = refl

only_session : OneSessionUnder "live" 20 tables
only_session = ((λ h. refl), ((λ h. absurd (apart h)), tt))
  where
    apart : ◌≡◌ {A = String} "stolen" "live" → ⊥
    apart h = cc

logout_ends_session_example :
    (rotate_helper site service
      (some shop)
      "live"
      (logout site service (some shop) "live" start).1).0
    ≢ ok first_pair
unfolding hash_token
logout_ends_session_example =
    logout_ends_session site service shop "live" start
      (logout site service (some shop) "live" start).1 20 first_pair only_session logout_run refl

-- After the sessions of another user are revoked.
abbrev after_revoke_all : World
after_revoke_all = record start { db = (revoke_all site service (some shop) 9 start).1.db }

revoke_all_runs :
    ((revoke_all site service (some shop) 9 start).0 ≡ ok tt)
    × ((rotate_helper site service (some shop) "live" after_revoke_all).0 ≡ ok first_pair)
unfolding revoke_all set_revoked_for_user rotate_helper rotate_in_tx replace_token hash_token
    refresh_by_hash set_revoked insert_refresh_token user_exists select_one update_rows exists_row
    ◌>>=◌ catch call time_now open_tx on_tx on_pool commit deferring_rollback
revoke_all_runs = (refl, refl)

revoke_all_ends_sessions_example : first_pair.1.user_id ≢ 9
revoke_all_ends_sessions_example =
    revoke_all_ends_sessions site service shop 9 start after_revoke_all "live" first_pair
      revoke_all_runs.0 refl revoke_all_runs.1

-- The clock stands still.
abbrev still : Env
still = record site { clock = λ n. 1000 }

new_ids :
    (n : ℕ)
    → exists_row (λ (r : RefreshToken). r.id == still.new_uuid n) tables.refresh_tokens ≡ false
unfolding exists_row
new_ids n = ground arith

rotate_helper_succeeds_example :
    (r : String × RefreshToken) × ((rotate_helper still service (some shop) "live" start).0 ≡ ok r)
unfolding hash_token select_one user_exists exists_row
rotate_helper_succeeds_example =
    rotate_helper_succeeds still service shop "live" start session (λ n. refl) refl refl (λ n. refl)
      refl new_ids

refresh-Refreshes_example :
    Refreshes site service
      (hash_token site "live" "secret")
      1
      tables
      (refresh site service (some shop) "live" start).0
      (refresh site service (some shop) "live" start).1.db
refresh-Refreshes_example = refresh-Refreshes site service shop "live" start

-- A SQLite database with one session.
abbrev sqlite_tables : Database
sqlite_tables = record tables { refresh_tokens = record session { tenant_id = 0 } ∷ [] }
