-- ===== src/Examples/Http.antt =====
-- Requests to the login route and to the revocation route.
use go_auth_api.Base.{String, if◌then◌else◌, none, refl, some, str_eq, ◌≡◌, ◌⊎◌}
use go_auth_api.Errors.{map_auth_error, message, tenant_not_found}
use go_auth_api.Examples.{service, site, start, tables}
use go_auth_api.Http.{
  Request, Response, Web, client_ip, error_body, login_body, respond, respond_json_error, text_body,
  validate_email, validate_password,
}
use go_auth_api.Http.Answered.Served.{NoRequestId, serve_http-Answers}
use go_auth_api.Http.Guards.{PassedOn, Refused, revoke_all_route_refuses, tenant_middleware-Guards}
use go_auth_api.Http.Handlers.{login_handler, revoke_all_handler}
use go_auth_api.Http.LoginRoute.{LoginAnswer, login_route-Answers}
use go_auth_api.Http.Middleware.{
  jwt_middleware, rate_limit_middleware, tenant_middleware, unless_limited,
}
use go_auth_api.Http.Routes.{revoke_all_route, tenant_route}
use go_auth_api.Http.Server.{
  Method, get, post, recoverer_middleware, register_routes, request_id, serve_http,
}
use go_auth_api.Models.Account.{tenant_is_active}
use go_auth_api.Models.Event.{new_event}
use go_auth_api.RateLimit.Limiter.{account_key, check_login, ip_key, pair_key, redis_keys}
use go_auth_api.RateLimit.Scripts.{any_blocked, bucket_at, is_blocked, login_check}
use go_auth_api.Repo.Outbox.{insert_event}
use go_auth_api.Repo.Refresh.{insert_refresh_token, user_exists}
use go_auth_api.Repo.Tenants.{tenant_by_name}
use go_auth_api.Repo.Users.{user_by_email}
use go_auth_api.Service.Login.{authenticate, login, login_data, login_writes, right_password}
use go_auth_api.Service.Sessions.{revoke_all}
use go_auth_api.Sql.{exists_row, select_one}
use go_auth_api.Tokens.{hash_token, sign_client_id}
use go_auth_api.World.{Env, ok, panicked}
use go_auth_api.World.Action.{
  call, catch, commit, deferring_rollback, on_pool, on_tx, open_tx, time_now, ◌>>=◌,
}

abbrev library : Web
library = record {
  decode_signup = λ body. none;
  decode_login = λ body. some ("ann@example.org", body);
  decode_refresh = λ body. none;
  decode_logout = λ body. none;
  decode_resend = λ body. none;
  decode_change = λ body. none;
  decode_reset_email = λ body. none;
  decode_new_password = λ body. none;
  email_member = λ body. "ann@example.org";
  parse_address = λ text. some text;
  trim_space = λ text. text;
  parse_ip = λ text. none;
  split_host = λ text. some "127.0.0.1";
  bearer = λ text. some text;
  verify_jwt = λ token. some (7, "ann@example.org");
}

abbrev login_request : Request
login_request = record {
  path = "/auth/login";
  header = λ name. if str_eq name "X-Tenant" then "shop" else "";
  remote_addr = "127.0.0.1:4711";
  body = "old password";
  query_t = "";
}

runs :
    ((tenant_route site library login_request
        (login_handler site service library login_request)
        start).0
      ≡ ok (respond 200 (login_body "jwt" "fresh" "uuid.0123456789abcdef")))
    × ((revoke_all_route site service library login_request start).0
        ≡ ok (respond 500 (error_body "internal server error")))
unfolding tenant_route tenant_middleware rate_limit_middleware unless_limited login_handler
    validate_email validate_password client_ip tenant_by_name tenant_is_active check_login
    login_check revoke_all_route jwt_middleware revoke_all_handler revoke_all respond_json_error
    map_auth_error login authenticate right_password login_data login_writes any_blocked is_blocked
    bucket_at redis_keys ip_key account_key pair_key sign_client_id hash_token user_by_email
    insert_refresh_token insert_event new_event user_exists select_one exists_row message ◌>>=◌
    catch call time_now open_tx on_tx on_pool commit deferring_rollback
runs = (refl, refl)

login_route-Answers_example :
    LoginAnswer site service library login_request tables
      (tenant_route site library login_request
        (login_handler site service library login_request)
        start).0
      (tenant_route site library login_request
        (login_handler site service library login_request)
        start).1.db
login_route-Answers_example = login_route-Answers site service library login_request start refl

tenant_middleware-Guards_example :
    Refused
      (tenant_middleware site library login_request
        (login_handler site service library login_request)
        start).0
      start
      (tenant_middleware site library login_request
        (login_handler site service library login_request)
        start).1
    ⊎ PassedOn library login_request
        (login_handler site service library login_request)
        (tenant_middleware site library login_request
          (login_handler site service library login_request)
          start).0
        start
        (tenant_middleware site library login_request
          (login_handler site service library login_request)
          start).1
tenant_middleware-Guards_example =
    tenant_middleware-Guards site library login_request
      (login_handler site service library login_request) start

revoke_all_route_refuses_example :
    ((revoke_all_route site service library login_request start).1 ≡ start)
    × (((revoke_all_route site service library login_request start).0
          ≡ ok (respond 401 (text_body "missing token")))
        ⊎ (((revoke_all_route site service library login_request start).0
              ≡ ok (respond 401 (text_body "invalid token")))
            ⊎ ((revoke_all_route site service library login_request start).0
                ≡ ok (respond 500 (error_body "internal server error")))))
revoke_all_route_refuses_example = revoke_all_route_refuses site service library login_request start

abbrev page : Method → String → Response
page method path = respond 404 (text_body "404 page not found")

-- The random source is down, and the request brings an identifier.
abbrev no_uuid : Env
no_uuid = record site { fault = λ n. some "entropy" }

abbrev tagged_request : Request
tagged_request = record login_request {
  header = λ name. if str_eq name "X-Tenant" then "shop" else "id-1";
}

serve_http_runs :
    ((serve_http site service library page post login_request start).0
      ≡ ok ("uuid", respond 200 (login_body "jwt" "fresh" "uuid.0123456789abcdef")))
    × ((serve_http no_uuid service library page post tagged_request start).0
        ≡ ok ("id-1", respond 401 (text_body (message tenant_not_found))))
    × ((serve_http site service library page get login_request start).0
        ≡ ok ("uuid", respond 404 (text_body "404 page not found")))
unfolding serve_http recoverer_middleware request_id register_routes tenant_route tenant_middleware
    rate_limit_middleware unless_limited login_handler validate_email validate_password client_ip
    tenant_by_name tenant_is_active check_login login_check revoke_all_route jwt_middleware
    revoke_all_handler revoke_all respond_json_error map_auth_error login authenticate
    right_password login_data login_writes any_blocked is_blocked bucket_at redis_keys ip_key
    account_key pair_key sign_client_id hash_token user_by_email insert_refresh_token insert_event
    new_event user_exists select_one exists_row message ◌>>=◌ catch call time_now open_tx on_tx
    on_pool commit deferring_rollback
serve_http_runs = (refl, refl, refl)

serve_http-Answers_example :
    ((a : String × Response) × ((serve_http no_uuid service library page post tagged_request
          start).0
        ≡ ok a))
    ⊎ (((serve_http no_uuid service library page post tagged_request start).0 ≡ panicked)
        × NoRequestId no_uuid service library page post tagged_request start)
serve_http-Answers_example =
    serve_http-Answers no_uuid service library page post tagged_request start
