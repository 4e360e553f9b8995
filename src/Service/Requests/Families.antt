-- ===== src/Service/Requests/Families.antt =====
-- At most one live refresh token in each family, after any requests.
use go_auth_api.Base.{
  Bool-cases, List, Option, String, ap, arith, if◌then◌else◌, inl, inr, none, refl, some, subst,
  sym, ℕ, ◌∙◌, ◌∷◌, ◌≡◌,
}
use go_auth_api.Models.Account.{EmailVerificationToken, RefreshToken, Tenant, User}
use go_auth_api.Repo.Mail.{delete_email_tokens, insert_email_token}
use go_auth_api.Repo.Refresh.{
  has_hash, scan_refresh, scan_refresh_token, set_revoked, set_revoked_for_family,
}
use go_auth_api.Repo.Refresh.Families.{
  IsLive, NoLive-fresh, NoLive-revoked, OneLive, OneLive-insert, OneLive-revoked,
}
use go_auth_api.Repo.Refresh.Rows.{insert_refresh_token_ok}
use go_auth_api.Repo.Users.{user_by_email}
use go_auth_api.Service.Context.{Service}
use go_auth_api.Service.Requests.{FreshFamilies}
use go_auth_api.Service.Sessions.Rotation.{FamilyRevoked, Replaced}
use go_auth_api.Service.Verification.{resend_to, resend_verification}
use go_auth_api.Sql.{select_one}
use go_auth_api.World.{Database, Env, ok}
use go_auth_api.World.Action.{pure}
use go_auth_api.World.Leaves.{
  Leaves, Leaves-bind, Leaves-call, Leaves-catch, Leaves-deliver, Leaves-execute_pool,
  Leaves-ignore_error, Leaves-must_call, Leaves-pure, Leaves-time_now,
}

abbrev sessions : Database → List RefreshToken
sessions d = d.refresh_tokens

module _ (env : Env) (s : Service) where
  insert_email_token-Leaves :
      (t : EmailVerificationToken) (now : ℕ) (d : Database)
      → sessions (insert_email_token env t now d).1 ≡ sessions d
  unfolding insert_email_token
  insert_email_token-Leaves t now d = ground arith

  resend_to-Leaves : (user : User) → Leaves sessions (resend_to env s user)
  unfolding resend_to delete_email_tokens
  resend_to-Leaves user =
      Leaves-bind _ _ (Leaves-ignore_error env _ (Leaves-execute_pool env _ (λ now d. refl))) λ u.
        Leaves-bind _ _ (Leaves-must_call env) λ raw.
          Leaves-bind _ _ (Leaves-bind _ _ (Leaves-call env) (λ n. Leaves-pure _)) λ id.
            Leaves-bind _ _ (Leaves-time_now env) λ expires.
              Leaves-bind _ _ (Leaves-time_now env) λ created.
                Leaves-bind _ _ (Leaves-execute_pool env _ (insert_email_token-Leaves _))
                  λ stored. Leaves-bind _ _ (Leaves-call env) λ n. Leaves-deliver env _ _

  resend_found-Leaves :
      (found : Option User)
      → Leaves sessions (elim found [
        | none ↦ pure tt
        | some user ↦ if user.is_active then pure tt else resend_to env s user
      ])
  resend_found-Leaves none = Leaves-pure tt
  resend_found-Leaves (some user) = elim (Bool-cases user.is_active) [
    | inl e ↦ simp e (Leaves-pure tt)
    | inr e ↦ simp e (resend_to-Leaves user)
  ]

  pub resend_verification-Leaves :
      (t : Tenant) (email : String) → Leaves sessions (resend_verification env s (some t) email)
  unfolding resend_verification user_by_email
  resend_verification-Leaves t email = Leaves-bind _ _ (Leaves-pure t) λ tenant.
      Leaves-bind _ _
        (Leaves-catch _ _
          (Leaves-bind _ _ (Leaves-execute_pool env _ (λ now d. refl)) (λ u. Leaves-pure _))
          (λ e. Leaves-pure none))
        resend_found-Leaves

ok_inj : {a b : RefreshToken} → ok a ≡ ok b → a ≡ b
ok_inj h = cc

-- Each specification of a method keeps the families apart.
module _ (env : Env) (s : Service) (d d' : Database) where
  -- A token of a new family is stored in front of the rows of before.
  pub new_family :
      (t : RefreshToken) (family : ℕ)
      → t.family_id ≡ family
      → ((n : ℕ) × (family ≡ env.new_uuid n))
      → sessions d' ≡ record t { revoked_at = none } ∷ sessions d
      → FreshFamilies env d
      → OneLive (sessions d)
      → OneLive (sessions d')
  new_family t family same (n, drawn) e fresh h = subst OneLive (sym e) (
      OneLive-insert t (sessions d)
        (NoLive-fresh t.family_id (sessions d) (rw (same, drawn) (fresh n))) h)

  pub family_revoked :
      (hash : String) (tid : ℕ)
      → FamilyRevoked hash tid d d'
      → OneLive (sessions d)
      → OneLive (sessions d')
  unfolding set_revoked_for_family
  family_revoked hash tid f h =
      subst (λ (x : Database). OneLive (sessions x)) f.revoked (OneLive-revoked _ _ _ h)

  -- The row that an exchange was given.
  row-Replaced :
      (hash : String) (tid : ℕ) (r : String × RefreshToken) (f : Replaced env s hash tid d d' r)
      → (row : RefreshToken) × (select_one (has_hash hash tid) (sessions d) ≡ some row)
        × ((f.old.family_id ≡ row.family_id) × (f.old.id ≡ row.id))
        × IsLive row
  row-Replaced hash tid r f = go (select_one (has_hash hash tid) (sessions d)) refl f.presented
    where
      go :
          (found : Option RefreshToken)
          → select_one (has_hash hash tid) (sessions d) ≡ found
          → scan_refresh found ≡ ok f.old
          → (row : RefreshToken) × (select_one (has_hash hash tid) (sessions d) ≡ some row)
            × ((f.old.family_id ≡ row.family_id) × (f.old.id ≡ row.id))
            × IsLive row
      go none e h = absurd cc
      go (some row) e h =
          let same : scan_refresh_token row ≡ f.old = ok_inj h in
          (
            row,
            e,
            (
              sym (ap (λ (t : RefreshToken). t.family_id) same),
              sym (ap (λ (t : RefreshToken). t.id) same),
            ),
            ap (λ (t : RefreshToken). t.revoked_at) same ∙ f.live,
          )

  pub replaced :
      (hash : String) (tid : ℕ) (r : String × RefreshToken)
      → Replaced env s hash tid d d' r
      → OneLive (sessions d)
      → OneLive (sessions d')
  unfolding set_revoked
  replaced hash tid r f h =
      let (row, found, family, live) = row-Replaced hash tid r f in
      subst (λ (x : Database). OneLive (sessions x))
        (sym (insert_refresh_token_ok env r.1 f.began _ d' f.stored))
        (OneLive-insert r.1 _
          (rw (f.successor.family, family.0, family.1)
            (NoLive-revoked hash tid f.revoked_at (sessions d) row h found live))
          (OneLive-revoked _ f.revoked_at _ h))
