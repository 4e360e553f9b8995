-- ===== src/Service/Requests/Isolated.antt =====
-- What the methods do for one tenant leaves the sessions of all others alone.
-- The sessions of the other tenants.
use go_auth_api.Base.{
  Bool, List, String, [], ap, arith, if◌then◌else◌, inl, inr, none, refl, sym, true, ℕ, ◌==◌, ◌∙◌,
  ◌∷◌, ◌≡◌,
}
use go_auth_api.Models.Account.{RefreshToken, User}
use go_auth_api.Repo.Mail.{set_email_used}
use go_auth_api.Repo.Refresh.{set_revoked, set_revoked_for_family, set_revoked_for_user}
use go_auth_api.Repo.Refresh.Rows.{insert_refresh_token_ok, revoked_by}
use go_auth_api.Repo.Reset.{set_reset_revoked}
use go_auth_api.Repo.Users.{set_activated, set_password}
use go_auth_api.Service.Context.{Service}
use go_auth_api.Service.Context.Lookup.{UserAt}
use go_auth_api.Service.Login.Endings.{Login}
use go_auth_api.Service.Passwords.Change.{Changes}
use go_auth_api.Service.Passwords.Request.{Requests}
use go_auth_api.Service.Passwords.Reset.{Resets}
use go_auth_api.Service.Sessions.Ended.{RevokesAll}
use go_auth_api.Service.Sessions.Logout.{LogsOut}
use go_auth_api.Service.Sessions.Refreshed.{Refreshes}
use go_auth_api.Service.Sessions.Rotation.{FamilyRevoked, Replaced}
use go_auth_api.Service.Signup.{SignupResponse}
use go_auth_api.Service.Signup.Built.{SignedUp, Signs}
use go_auth_api.Service.Verification.Verified.{Verifies}
use go_auth_api.Sql.{update_rows}
use go_auth_api.Sql.Laws.{All-trivial, select_one_sound}
use go_auth_api.World.{Database, Env, Outcome, err, ok, panicked}

abbrev pub others : ℕ → List RefreshToken → List RefreshToken
others tid [] = []
others tid (t ∷ ts) = if t.tenant_id == tid then others tid ts else t ∷ others tid ts

others-insert :
    (tid : ℕ) (t : RefreshToken) (ts : List RefreshToken)
    → t.tenant_id ≡ tid
    → others tid (t ∷ ts) ≡ others tid ts
others-insert tid t ts e = ground arith

others-revoked :
    (tid at : ℕ) (p : RefreshToken → Bool) (ts : List RefreshToken)
    → ((t : RefreshToken) → p t ≡ true → (t.tenant_id == tid) ≡ true)
    → others tid (update_rows p (revoked_by at) ts) ≡ others tid ts
unfolding update_rows
others-revoked tid at p [] h = refl
others-revoked tid at p (t ∷ ts) h = ground (arith, h t, others-revoked tid at p ts h)

abbrev pub Isolated : ℕ → Database → Database → Type 0
Isolated tid d d' = others tid d'.refresh_tokens ≡ others tid d.refresh_tokens

module _ (tid : ℕ) (d d' : Database) where
  pub rows_of : d'.refresh_tokens ≡ d.refresh_tokens → Isolated tid d d'
  rows_of e = ap (λ ts. others tid ts) e

  database_of : d' ≡ d → Isolated tid d d'
  database_of e = ap (λ (x : Database). others tid x.refresh_tokens) e

  inserted_of :
      (t : RefreshToken)
      → t.tenant_id ≡ tid
      → d'.refresh_tokens ≡ record t { revoked_at = none } ∷ d.refresh_tokens
      → Isolated tid d d'
  inserted_of t mine e =
      ap (λ ts. others tid ts) e
      ∙ others-insert tid (record t { revoked_at = none }) d.refresh_tokens mine

  revoked_of :
      (p : RefreshToken → Bool) (at : ℕ)
      → ((t : RefreshToken) → p t ≡ true → (t.tenant_id == tid) ≡ true)
      → d'.refresh_tokens ≡ update_rows p (revoked_by at) d.refresh_tokens
      → Isolated tid d d'
  revoked_of p at mine e =
      ap (λ ts. others tid ts) e ∙ others-revoked tid at p d.refresh_tokens mine

-- The tenant of the user that a look-up finds.
tenant-UserAt :
    (email : String) (tid : ℕ) (d : Database) (user : User)
    → UserAt email tid d user
    → user.tenant_id ≡ tid
tenant-UserAt email tid d user h =
    ground (arith, (select_one_sound _ (λ _. Unit {0}) d.users user (All-trivial d.users) h).0)

-- Each specification of a method leaves the sessions of the other tenants alone.
module _ (env : Env) (s : Service) (tid : ℕ) (d d' : Database) where
  SignedUp-Isolated :
      (email username password tenant_name : String)
      → SignedUp env s email username password tenant_name tid d d'
      → Isolated tid d d'
  SignedUp-Isolated email username password tenant_name h =
      inserted_of tid d d' h.sud.refresh_token h.built.token_made.tenant
        (ap (λ (x : Database). x.refresh_tokens) h.stored)

  pub Signs-Isolated :
      (email username password tenant_name : String) (o : Outcome SignupResponse)
      → Signs env s email username password tenant_name tid d o d'
      → Isolated tid d d'
  Signs-Isolated _ _ _ _ (ok r) h = SignedUp-Isolated _ _ _ _ h.0
  Signs-Isolated _ _ _ _ (err e) (inl same) = database_of tid d d' same
  Signs-Isolated _ _ _ _ (err e) (inr h) = SignedUp-Isolated _ _ _ _ h
  Signs-Isolated _ _ _ _ panicked h = absurd h

  pub Login-Isolated :
      (email password : String) (o : Outcome (String × String × String))
      → Login env s email tid password d o d'
      → Isolated tid d d'
  Login-Isolated email _ (ok r) h =
      inserted_of tid d d' h.token (h.token_made.tenant ∙ tenant-UserAt email tid d h.user h.found)
        (ap (λ (x : Database). x.refresh_tokens) h.stored)
  Login-Isolated _ _ (err e) same = database_of tid d d' same
  Login-Isolated _ _ panicked h = absurd h

  Replaced-Isolated :
      (hash : String) (r : String × RefreshToken)
      → Replaced env s hash tid d d' r
      → Isolated tid d d'
  unfolding set_revoked
  Replaced-Isolated hash r f =
      ap (λ (x : Database). others tid x.refresh_tokens)
        (insert_refresh_token_ok env r.1 f.began _ d' f.stored)
      ∙ others-insert tid (record r.1 { revoked_at = none }) _ f.successor.tenant
      ∙ others-revoked tid f.revoked_at _ d.refresh_tokens (λ t hit. ground arith)

  FamilyRevoked-Isolated : (hash : String) → FamilyRevoked hash tid d d' → Isolated tid d d'
  unfolding set_revoked_for_family
  FamilyRevoked-Isolated hash f =
      revoked_of tid d d' _ f.began (λ t hit. ground arith)
        (sym (ap (λ (x : Database). x.refresh_tokens) f.revoked))

  pub Refreshes-Isolated :
      (hash : String) (o : Outcome (String × String × ℕ))
      → Refreshes env s hash tid d o d'
      → Isolated tid d d'
  Refreshes-Isolated _ (ok t) h = Replaced-Isolated _ h.0 h.1
  Refreshes-Isolated _ (err e) (inl same) = database_of tid d d' same
  Refreshes-Isolated _ (err e) (inr (inl f)) = FamilyRevoked-Isolated _ f
  Refreshes-Isolated _ (err e) (inr (inr (r, h))) = Replaced-Isolated _ r h
  Refreshes-Isolated _ panicked h = absurd h

  pub LogsOut-Isolated :
      (hash : String) (o : Outcome (Unit {0})) → LogsOut hash tid d o d' → Isolated tid d d'
  unfolding set_revoked
  LogsOut-Isolated _ (ok u) h =
      revoked_of tid d d' _ h.at (λ t hit. ground arith)
        (sym (ap (λ (x : Database). x.refresh_tokens) h.stored))
  LogsOut-Isolated _ (err e) same = database_of tid d d' same
  LogsOut-Isolated _ panicked h = absurd h

  pub RevokesAll-Isolated :
      (user_id : ℕ) (o : Outcome (Unit {0})) → RevokesAll user_id tid d o d' → Isolated tid d d'
  unfolding set_revoked_for_user
  RevokesAll-Isolated _ (ok u) (now, e) =
      revoked_of tid d d' _ now (λ t hit. ground arith)
        (sym (ap (λ (x : Database). x.refresh_tokens) e))
  RevokesAll-Isolated _ (err e) same = database_of tid d d' same
  RevokesAll-Isolated _ panicked h = absurd h

  pub Changes-Isolated :
      (email old new : String) (o : Outcome (Unit {0}))
      → Changes env email tid old new d o d'
      → Isolated tid d d'
  unfolding set_password
  Changes-Isolated _ _ _ (ok u) h =
      rows_of tid d d' (ap (λ (x : Database). x.refresh_tokens) h.stored)
  Changes-Isolated _ _ _ (err e) same = database_of tid d d' same
  Changes-Isolated _ _ _ panicked h = database_of tid d d' h.0

  pub Requests-Isolated :
      (email : String) (o : Outcome (Unit {0}))
      → Requests env s email tid d o d'
      → Isolated tid d d'
  unfolding set_reset_revoked
  Requests-Isolated _ (ok u) (inl same) = database_of tid d d' same
  Requests-Isolated _ (ok u) (inr h) =
      rows_of tid d d' (ap (λ (x : Database). x.refresh_tokens) h.stored)
  Requests-Isolated _ (err e) same = database_of tid d d' same
  Requests-Isolated _ panicked h = absurd h

  pub Resets-Isolated :
      (hash password : String) (o : Outcome (Unit {0}))
      → Resets env hash tid password d o d'
      → Isolated tid d d'
  unfolding set_revoked_for_user
  Resets-Isolated _ _ (ok u) h =
      revoked_of tid d d' _ h.revoked_at (λ t hit. ground arith)
        (ap (λ (x : Database). x.refresh_tokens) h.stored)
  Resets-Isolated _ _ (err e) (inl same) = database_of tid d d' same
  Resets-Isolated _ _ (err e) (inr h) =
      revoked_of tid d d' _ h.now (λ t hit. ground arith)
        (ap (λ (x : Database). x.refresh_tokens) h.revoked)
  Resets-Isolated _ _ panicked h = absurd h

module _ (tid : ℕ) (d d' : Database) where
  pub Verifies-Isolated :
      (hash : String) (o : Outcome (Unit {0})) → Verifies hash d o d' → Isolated tid d d'
  unfolding set_activated set_email_used
  Verifies-Isolated _ (ok u) h = rows_of tid d d' (
      sym (ap (λ (x : Database). x.refresh_tokens) h.activated)
      ∙ sym (ap (λ (x : Database). x.refresh_tokens) h.first.used))
  Verifies-Isolated _ (err e) (inl same) = database_of tid d d' same
  Verifies-Isolated _ (err e) (inr h) =
      rows_of tid d d' (sym (ap (λ (x : Database). x.refresh_tokens) h.used))
  Verifies-Isolated _ panicked h = absurd h
