-- ===== src/Examples/Requests.antt =====
-- A login and then a refresh, on a database without sessions.
use go_auth_api.Base.{[], arith, length, refl, ◌+◌, ◌∷◌, ◌≡◌}
use go_auth_api.Examples.{service, session, shop, site, start, tables}
use go_auth_api.Models.Event.{new_event}
use go_auth_api.Repo.Outbox.{insert_event}
use go_auth_api.Repo.Refresh.{insert_refresh_token, refresh_by_hash, set_revoked, user_exists}
use go_auth_api.Repo.Refresh.Families.{OneLive}
use go_auth_api.Repo.Users.{user_by_email, user_by_id}
use go_auth_api.Service.Login.{authenticate, login, login_data, login_writes, right_password}
use go_auth_api.Service.Requests.{
  FreshFamilies, ServiceRequest, after_request, fresh_database, log_in, refresh_session,
  revoke_sessions, serve,
}
use go_auth_api.Service.Requests.Isolated.{Isolated}
use go_auth_api.Service.Requests.Live.{Reached-OneLive}
use go_auth_api.Service.Requests.Tenants.{serve-Isolated}
use go_auth_api.Service.Sessions.{refresh, refuse_reuse, replace_token, rotate_helper, rotate_in_tx}
use go_auth_api.Sql.{exists_row, select_one, update_rows}
use go_auth_api.Tokens.{hash_token, sign_client_id}
use go_auth_api.World.{Env, World}
use go_auth_api.World.Action.{
  call, catch, commit, deferring_rollback, on_pool, on_tx, open_tx, time_now, ◌>>=◌,
}

abbrev no_sessions : World
no_sessions = record start { db = record tables { refresh_tokens = [] } }

abbrev first : ServiceRequest
first = log_in shop "ann@example.org" "old password" "127.0.0.1"

abbrev second : ServiceRequest
second = refresh_session shop "fresh"

-- The answers to the second request: other UUIDs.
abbrev later_site : Env
later_site = record site { new_uuid = λ n. 500 + n }

abbrev logged_in : World
logged_in = serve site service first no_sessions

logged_in_fresh : FreshFamilies later_site logged_in.db
unfolding login authenticate right_password login_data login_writes sign_client_id hash_token
    user_by_email insert_refresh_token insert_event new_event user_exists select_one exists_row
    ◌>>=◌ catch call time_now open_tx on_tx on_pool commit deferring_rollback
logged_in_fresh = λ n. ((λ same. absurd (omega arith)), tt)

-- The refresh leaves two rows: the old token, revoked, and its successor.
refreshed_run : length (serve later_site service second logged_in).db.refresh_tokens ≡ 2
unfolding login authenticate right_password login_data login_writes sign_client_id hash_token
    user_by_email insert_refresh_token insert_event new_event user_exists select_one exists_row
    ◌>>=◌ catch call time_now open_tx on_tx on_pool commit deferring_rollback refresh rotate_helper
    rotate_in_tx replace_token refuse_reuse refresh_by_hash set_revoked update_rows user_by_id
refreshed_run = refl

Reached-OneLive_example : OneLive (serve later_site service second logged_in).db.refresh_tokens
Reached-OneLive_example = Reached-OneLive service (serve later_site service second logged_in).db (
    after_request later_site second logged_in
      (after_request site first no_sessions (fresh_database no_sessions.db refl) (λ n. tt))
      logged_in_fresh)

-- A database with sessions of two tenants.
abbrev two_tenants : World
two_tenants = record start {
  db = record tables {
    refresh_tokens = record session { id = 77; tenant_id = 2; token_hash = "other" } ∷ session ∷ [];
  };
}

-- The revocation of a user's sessions in tenant 1 leaves those of tenant 2 alone.
serve-Isolated_example :
    Isolated 1 two_tenants.db (serve site service (revoke_sessions shop 7) two_tenants).db
serve-Isolated_example =
    serve-Isolated site service (revoke_sessions shop 7) two_tenants 1 (λ n same. cc)
