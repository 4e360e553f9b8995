-- ===== src/Service/Requests.antt =====
-- The requests that the routes hand to the service, and the databases that they lead to, one after
-- the other: each request has its own answers of the outside world, and finds the rows that the
-- last one left.
pub mod Families
pub mod Live
pub mod Isolated
pub mod Tenants
use go_auth_api.Base.{All, String, [], some, ℕ, ◌≡◌, ◌≢◌}
use go_auth_api.Models.Account.{RefreshToken, Tenant}
use go_auth_api.Service.Context.{Service}
use go_auth_api.Service.Login.{login}
use go_auth_api.Service.Passwords.{
  ChangePasswordRequest, change_password, request_reset_password, reset_password,
}
use go_auth_api.Service.Sessions.{logout, refresh, revoke_all}
use go_auth_api.Service.Signup.{signup_service}
use go_auth_api.Service.Verification.{resend_verification, verify_email}
use go_auth_api.World.{Database, Env, World}

-- A request to a method of the service, for the tenant that TenantMiddleware found. RevokeAll is
-- given a tenant too, which its route lacks.
pub data ServiceRequest : Type 0 where
  sign_up : Tenant → String → String → String → ℕ → ServiceRequest
  log_in : Tenant → String → String → String → ServiceRequest
  refresh_session : Tenant → String → ServiceRequest
  log_out : Tenant → String → ServiceRequest
  revoke_sessions : Tenant → ℕ → ServiceRequest
  change_the_password : Tenant → ChangePasswordRequest → String → ServiceRequest
  request_a_reset : Tenant → String → String → ServiceRequest
  reset_the_password : Tenant → String → String → String → ServiceRequest
  verify_the_email : String → ServiceRequest
  resend_the_link : Tenant → String → ServiceRequest

-- The world after a request, however it ends.
abbrev pub serve : Env → Service → ServiceRequest → World → World
serve env s (sign_up t email username password tid) w =
    (signup_service env s (some t) email username password tid w).1
serve env s (log_in t email password ip) w = (login env s (some t) email password ip w).1
serve env s (refresh_session t raw) w = (refresh env s (some t) raw w).1
serve env s (log_out t raw) w = (logout env s (some t) raw w).1
serve env s (revoke_sessions t user_id) w = (revoke_all env s (some t) user_id w).1
serve env s (change_the_password t req ip) w = (change_password env s (some t) req ip w).1
serve env s (request_a_reset t email ip) w = (request_reset_password env s (some t) email ip w).1
serve env s (reset_the_password t raw password ip) w =
    (reset_password env s (some t) raw password ip w).1
serve env s (verify_the_email raw) w = (verify_email env s raw w).1
serve env s (resend_the_link t email) w = (resend_verification env s (some t) email w).1

-- The UUIDs that the generator gives are none of the families that are stored.
abbrev pub FreshFamilies : Env → Database → Type 0
FreshFamilies env d =
    (n : ℕ) → All (λ (t : RefreshToken). t.family_id ≢ env.new_uuid n) d.refresh_tokens

-- The databases that requests lead to from one without sessions.
pub data Reached (s : Service) : Database → Type 0 where
  fresh_database : (d : Database) → d.refresh_tokens ≡ [] → Reached s d
  after_request :
      (env : Env) (r : ServiceRequest) (w : World)
      → Reached s w.db
      → FreshFamilies env w.db
      → Reached s (serve env s r w).db
