-- ===== src/Service/Requests/Tenants.antt =====
-- A request of one tenant leaves the sessions of all others alone.
-- The tenant in whose name a request is made; the links of verification mails name none.
use go_auth_api.Base.{Option, none, refl, some, subst, ℕ, ◌≡◌}
use go_auth_api.Service.Context.{Service}
use go_auth_api.Service.Login.Endings.{login-Login}
use go_auth_api.Service.Passwords.Change.{change_password-Changes}
use go_auth_api.Service.Passwords.Request.{request_reset_password-Requests}
use go_auth_api.Service.Passwords.Reset.{reset_password-Resets}
use go_auth_api.Service.Requests.{
  ServiceRequest, change_the_password, log_in, log_out, refresh_session, request_a_reset,
  resend_the_link, reset_the_password, revoke_sessions, serve, sign_up, verify_the_email,
}
use go_auth_api.Service.Requests.Families.{resend_verification-Leaves}
use go_auth_api.Service.Requests.Isolated.{
  Changes-Isolated, Isolated, Login-Isolated, LogsOut-Isolated, Refreshes-Isolated,
  Requests-Isolated, Resets-Isolated, RevokesAll-Isolated, Signs-Isolated, Verifies-Isolated,
  rows_of,
}
use go_auth_api.Service.Sessions.Ended.{revoke_all-RevokesAll}
use go_auth_api.Service.Sessions.Logout.{logout-LogsOut}
use go_auth_api.Service.Sessions.Refreshed.{refresh-Refreshes}
use go_auth_api.Service.Signup.Built.{signup_service-Signs}
use go_auth_api.Service.Verification.{resend_verification}
use go_auth_api.Service.Verification.Verified.{verify_email-Verifies}
use go_auth_api.World.{Env, World}

abbrev pub tenant_of : ServiceRequest → Option ℕ
tenant_of (sign_up t email username password tid) = some tid
tenant_of (log_in t email password ip) = some t.id
tenant_of (refresh_session t raw) = some t.id
tenant_of (log_out t raw) = some t.id
tenant_of (revoke_sessions t user_id) = some t.id
tenant_of (change_the_password t req ip) = some t.id
tenant_of (request_a_reset t email ip) = some t.id
tenant_of (reset_the_password t raw password ip) = some t.id
tenant_of (verify_the_email raw) = none
tenant_of (resend_the_link t email) = some t.id

-- A request in the name of a tenant, or of none, leaves every session of the other tenants as it was,
-- whatever the request is, and however it ends.
pub serve-Isolated :
    (env : Env) (s : Service) (r : ServiceRequest) (w : World) (tid : ℕ)
    → ((n : ℕ) → tenant_of r ≡ some n → n ≡ tid)
    → Isolated tid w.db (serve env s r w).db
serve-Isolated env s (sign_up t email username password id) w tid e =
    subst (λ n. Isolated n w.db (serve env s (sign_up t email username password id) w).db)
      (e id refl)
      (Signs-Isolated env s id w.db _ _ _ _ _ _
        (signup_service-Signs env s t email username password id w))
serve-Isolated env s (log_in t email password ip) w tid e =
    subst (λ n. Isolated n w.db (serve env s (log_in t email password ip) w).db) (e t.id refl)
      (Login-Isolated env s t.id w.db _ _ _ _ (login-Login env s t email password ip w))
serve-Isolated env s (refresh_session t raw) w tid e =
    subst (λ n. Isolated n w.db (serve env s (refresh_session t raw) w).db) (e t.id refl)
      (Refreshes-Isolated env s t.id w.db _ _ _ (refresh-Refreshes env s t raw w))
serve-Isolated env s (log_out t raw) w tid e =
    subst (λ n. Isolated n w.db (serve env s (log_out t raw) w).db) (e t.id refl)
      (LogsOut-Isolated env s t.id w.db _ _ _ (logout-LogsOut env s t raw w))
serve-Isolated env s (revoke_sessions t user_id) w tid e =
    subst (λ n. Isolated n w.db (serve env s (revoke_sessions t user_id) w).db) (e t.id refl)
      (RevokesAll-Isolated env s t.id w.db _ _ _ (revoke_all-RevokesAll env s t user_id w))
serve-Isolated env s (change_the_password t req ip) w tid e =
    subst (λ n. Isolated n w.db (serve env s (change_the_password t req ip) w).db) (e t.id refl)
      (Changes-Isolated env s t.id w.db _ _ _ _ _ (change_password-Changes env s t req ip w))
serve-Isolated env s (request_a_reset t email ip) w tid e =
    subst (λ n. Isolated n w.db (serve env s (request_a_reset t email ip) w).db) (e t.id refl)
      (Requests-Isolated env s t.id w.db _ _ _ (request_reset_password-Requests env s t email ip w))
serve-Isolated env s (reset_the_password t raw password ip) w tid e =
    subst (λ n. Isolated n w.db (serve env s (reset_the_password t raw password ip) w).db)
      (e t.id refl)
      (Resets-Isolated env s t.id w.db _ _ _ _ (reset_password-Resets env s t raw password ip w))
serve-Isolated env s (verify_the_email raw) w tid e =
    Verifies-Isolated tid w.db _ _ _ (verify_email-Verifies env s raw w)
serve-Isolated env s (resend_the_link t email) w tid e =
    rows_of tid w.db (resend_verification env s (some t) email w).1.db
      ((resend_verification-Leaves env s t email).holds w)
