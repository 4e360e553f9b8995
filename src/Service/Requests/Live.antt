-- ===== src/Service/Requests/Live.antt =====
-- Every request keeps at most one live refresh token in each family, and so do any requests one
-- after the other.
use go_auth_api.Base.{Bool, String, ap, inl, inr, some, subst, sym, ℕ, ◌∙◌, ◌≡◌}
use go_auth_api.Models.Account.{RefreshToken}
use go_auth_api.Repo.Mail.{set_email_used}
use go_auth_api.Repo.Refresh.{set_revoked, set_revoked_for_user}
use go_auth_api.Repo.Refresh.Families.{OneLive, OneLive-revoked}
use go_auth_api.Repo.Refresh.Rows.{revoked_by}
use go_auth_api.Repo.Reset.{set_reset_revoked}
use go_auth_api.Repo.Users.{set_activated, set_password}
use go_auth_api.Service.Context.{Service}
use go_auth_api.Service.Login.Endings.{Login, login-Login}
use go_auth_api.Service.Passwords.Change.{Changes, change_password-Changes}
use go_auth_api.Service.Passwords.Request.{Requests, request_reset_password-Requests}
use go_auth_api.Service.Passwords.Reset.{Resets, reset_password-Resets}
use go_auth_api.Service.Requests.{
  FreshFamilies, Reached, ServiceRequest, after_request, change_the_password, fresh_database,
  log_in, log_out, refresh_session, request_a_reset, resend_the_link, reset_the_password,
  revoke_sessions, serve, sign_up, verify_the_email,
}
use go_auth_api.Service.Requests.Families.{
  family_revoked, new_family, replaced, resend_verification-Leaves,
}
use go_auth_api.Service.Sessions.Ended.{RevokesAll, revoke_all-RevokesAll}
use go_auth_api.Service.Sessions.Logout.{LogsOut, logout-LogsOut}
use go_auth_api.Service.Sessions.Refreshed.{Refreshes, refresh-Refreshes}
use go_auth_api.Service.Signup.{SignupResponse}
use go_auth_api.Service.Signup.Built.{SignedUp, Signs, signup_service-Signs}
use go_auth_api.Service.Verification.{resend_verification}
use go_auth_api.Service.Verification.Verified.{TokenUsed, Verifies, verify_email-Verifies}
use go_auth_api.Sql.{update_rows}
use go_auth_api.World.{Database, Env, Outcome, World, err, ok, panicked}

abbrev AsBefore : Database → Database → Type 0
AsBefore d d' = OneLive d.refresh_tokens → OneLive d'.refresh_tokens

module _ (d d' : Database) where
  -- The same rows.
  same_rows : d'.refresh_tokens ≡ d.refresh_tokens → AsBefore d d'
  same_rows e h = subst OneLive (sym e) h

  same_database : d' ≡ d → AsBefore d d'
  same_database e = same_rows (ap (λ (x : Database). x.refresh_tokens) e)

  -- Some rows are revoked.
  some_revoked :
      (p : RefreshToken → Bool) (at : ℕ)
      → d'.refresh_tokens ≡ update_rows p (revoked_by at) d.refresh_tokens
      → AsBefore d d'
  some_revoked p at e h = subst OneLive (sym e) (OneLive-revoked p at _ h)

module _ (env : Env) (s : Service) (d d' : Database) (fresh : FreshFamilies env d) where
  SignedUp-OneLive :
      {email username password tenant_name : String} {tid : ℕ}
      → SignedUp env s email username password tenant_name tid d d'
      → AsBefore d d'
  SignedUp-OneLive h =
      new_family env s d d' h.sud.refresh_token h.built.family h.built.token_made.family
        h.built.family_drawn (ap (λ (x : Database). x.refresh_tokens) h.stored) fresh

  Signs-OneLive :
      (email username password tenant_name : String) (tid : ℕ) (o : Outcome SignupResponse)
      → Signs env s email username password tenant_name tid d o d'
      → AsBefore d d'
  Signs-OneLive _ _ _ _ _ (ok r) h = SignedUp-OneLive h.0
  Signs-OneLive _ _ _ _ _ (err e) (inl same) = same_database d d' same
  Signs-OneLive _ _ _ _ _ (err e) (inr h) = SignedUp-OneLive h
  Signs-OneLive _ _ _ _ _ panicked h = absurd h

  Login-OneLive :
      (email password : String) (tid : ℕ) (o : Outcome (String × String × String))
      → Login env s email tid password d o d'
      → AsBefore d d'
  Login-OneLive _ _ _ (ok r) h =
      new_family env s d d' h.token h.family h.token_made.family h.family_drawn
        (ap (λ (x : Database). x.refresh_tokens) h.stored) fresh
  Login-OneLive _ _ _ (err e) same = same_database d d' same
  Login-OneLive _ _ _ panicked h = absurd h

  Refreshes-OneLive :
      (hash : String) (tid : ℕ) (o : Outcome (String × String × ℕ))
      → Refreshes env s hash tid d o d'
      → AsBefore d d'
  Refreshes-OneLive _ _ (ok t) h = replaced env s d d' _ _ h.0 h.1
  Refreshes-OneLive _ _ (err e) (inl same) = same_database d d' same
  Refreshes-OneLive _ _ (err e) (inr (inl f)) = family_revoked env s d d' _ _ f
  Refreshes-OneLive _ _ (err e) (inr (inr (r, h))) = replaced env s d d' _ _ r h
  Refreshes-OneLive _ _ panicked h = absurd h

  LogsOut-OneLive :
      (hash : String) (tid : ℕ) (o : Outcome (Unit {0})) → LogsOut hash tid d o d' → AsBefore d d'
  unfolding set_revoked
  LogsOut-OneLive _ _ (ok u) h =
      some_revoked d d' _ h.at (sym (ap (λ (x : Database). x.refresh_tokens) h.stored))
  LogsOut-OneLive _ _ (err e) same = same_database d d' same
  LogsOut-OneLive _ _ panicked h = absurd h

  RevokesAll-OneLive :
      (user_id tid : ℕ) (o : Outcome (Unit {0})) → RevokesAll user_id tid d o d' → AsBefore d d'
  unfolding set_revoked_for_user
  RevokesAll-OneLive _ _ (ok u) (now, e) =
      some_revoked d d' _ now (sym (ap (λ (x : Database). x.refresh_tokens) e))
  RevokesAll-OneLive _ _ (err e) same = same_database d d' same
  RevokesAll-OneLive _ _ panicked h = absurd h

  Changes-OneLive :
      (email old new : String) (tid : ℕ) (o : Outcome (Unit {0}))
      → Changes env email tid old new d o d'
      → AsBefore d d'
  unfolding set_password
  Changes-OneLive _ _ _ _ (ok u) h =
      same_rows d d' (ap (λ (x : Database). x.refresh_tokens) h.stored)
  Changes-OneLive _ _ _ _ (err e) same = same_database d d' same
  Changes-OneLive _ _ _ _ panicked h = same_database d d' h.0

  Requests-OneLive :
      (email : String) (tid : ℕ) (o : Outcome (Unit {0}))
      → Requests env s email tid d o d'
      → AsBefore d d'
  unfolding set_reset_revoked
  Requests-OneLive _ _ (ok u) (inl same) = same_database d d' same
  Requests-OneLive _ _ (ok u) (inr h) =
      same_rows d d' (ap (λ (x : Database). x.refresh_tokens) h.stored)
  Requests-OneLive _ _ (err e) same = same_database d d' same
  Requests-OneLive _ _ panicked h = absurd h

  Resets-OneLive :
      (hash password : String) (tid : ℕ) (o : Outcome (Unit {0}))
      → Resets env hash tid password d o d'
      → AsBefore d d'
  unfolding set_revoked_for_user
  Resets-OneLive _ _ _ (ok u) h =
      some_revoked d d' _ h.revoked_at (ap (λ (x : Database). x.refresh_tokens) h.stored)
  Resets-OneLive _ _ _ (err e) (inl same) = same_database d d' same
  Resets-OneLive _ _ _ (err e) (inr h) =
      some_revoked d d' _ h.now (ap (λ (x : Database). x.refresh_tokens) h.revoked)
  Resets-OneLive _ _ _ panicked h = absurd h

  token_used : {hash : String} → TokenUsed hash d d' → d'.refresh_tokens ≡ d.refresh_tokens
  unfolding set_email_used
  token_used h = sym (ap (λ (x : Database). x.refresh_tokens) h.used)

module _ (env : Env) (s : Service) (d d' : Database) (fresh : FreshFamilies env d) where
  Verifies-OneLive : (hash : String) (o : Outcome (Unit {0})) → Verifies hash d o d' → AsBefore d d'
  unfolding set_activated
  Verifies-OneLive _ (ok u) h = same_rows d d' (
      sym (ap (λ (x : Database). x.refresh_tokens) h.activated)
      ∙ token_used env s d h.marked fresh h.first)
  Verifies-OneLive _ (err e) (inl same) = same_database d d' same
  Verifies-OneLive _ (err e) (inr h) = same_rows d d' (token_used env s d d' fresh h)
  Verifies-OneLive _ panicked h = absurd h

serve-OneLive :
    (env : Env) (s : Service) (r : ServiceRequest) (w : World)
    → FreshFamilies env w.db
    → AsBefore w.db (serve env s r w).db
serve-OneLive env s (sign_up t email username password tid) w f =
    Signs-OneLive env s w.db _ f _ _ _ _ _ _
      (signup_service-Signs env s t email username password tid w)
serve-OneLive env s (log_in t email password ip) w f =
    Login-OneLive env s w.db _ f _ _ _ _ (login-Login env s t email password ip w)
serve-OneLive env s (refresh_session t raw) w f =
    Refreshes-OneLive env s w.db _ f _ _ _ (refresh-Refreshes env s t raw w)
serve-OneLive env s (log_out t raw) w f =
    LogsOut-OneLive env s w.db _ f _ _ _ (logout-LogsOut env s t raw w)
serve-OneLive env s (revoke_sessions t user_id) w f =
    RevokesAll-OneLive env s w.db _ f _ _ _ (revoke_all-RevokesAll env s t user_id w)
serve-OneLive env s (change_the_password t req ip) w f =
    Changes-OneLive env s w.db _ f _ _ _ _ _ (change_password-Changes env s t req ip w)
serve-OneLive env s (request_a_reset t email ip) w f =
    Requests-OneLive env s w.db _ f _ _ _ (request_reset_password-Requests env s t email ip w)
serve-OneLive env s (reset_the_password t raw password ip) w f =
    Resets-OneLive env s w.db _ f _ _ _ _ (reset_password-Resets env s t raw password ip w)
serve-OneLive env s (verify_the_email raw) w f =
    Verifies-OneLive env s w.db _ f _ _ (verify_email-Verifies env s raw w)
serve-OneLive env s (resend_the_link t email) w f =
    same_rows w.db (resend_verification env s (some t) email w).1.db
      ((resend_verification-Leaves env s t email).holds w)

-- In any database that requests lead to, from one without sessions, whatever fails in them, no two
-- refresh tokens of one family are live: provided that no request draws a UUID that is a stored
-- family.
pub Reached-OneLive : (s : Service) (d : Database) → Reached s d → OneLive d.refresh_tokens
Reached-OneLive s _ (fresh_database d none_stored) = subst OneLive (sym none_stored) tt
Reached-OneLive s _ (after_request env r w before fresh) =
    serve-OneLive env s r w fresh (Reached-OneLive s w.db before)
