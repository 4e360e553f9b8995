-- ===== src/Service/Sessions/Replay.antt =====
-- A refresh token is good for one rotation.
use go_auth_api.Base.{
  Option, String, arith, is_some, none, refl, some, subst, sym, true, ◌∙◌, ◌≡◌, ◌≢◌,
}
use go_auth_api.Errors.{no_rows}
use go_auth_api.Models.Account.{RefreshToken, Tenant, second}
use go_auth_api.Repo.Refresh.{has_hash, scan_refresh_token}
use go_auth_api.Repo.Refresh.Rows.{revoked_by, select_one-rotate}
use go_auth_api.Service.Context.{Service}
use go_auth_api.Service.Sessions.{rotate_helper}
use go_auth_api.Service.Sessions.Rotation.{Presented, Replaced, Rotation, rotate_helper-Rotation}
use go_auth_api.Sql.{select_one}
use go_auth_api.Tokens.{hash_token}
use go_auth_api.World.{Database, Env, Outcome, World, err, ok}

module _ (env : Env) (s : Service) (tenant : Tenant) (raw : String) where
  abbrev raw_hash : String
  raw_hash = hash_token env raw s.token_secret

  -- A successful rotation, with what it read and wrote.
  pub rotate_helper-Replaced :
      (w : World) (r : String × RefreshToken)
      → (rotate_helper env s (some tenant) raw w).0 ≡ ok r
      → Replaced env s raw_hash tenant.id w.db (rotate_helper env s (some tenant) raw w).1.db r
  rotate_helper-Replaced w r h =
      subst
        (λ o.
          Rotation env s raw_hash tenant.id w.db o (rotate_helper env s (some tenant) raw w).1.db)
        h (rotate_helper-Rotation env s tenant raw w)

  -- What the old token leads to after the rotation.
  row_after :
      (d d' : Database) (r : String × RefreshToken) (row : Option RefreshToken)
      → select_one (has_hash raw_hash tenant.id) d.refresh_tokens ≡ row
      → (p : Replaced env s raw_hash tenant.id d d' r) → r.1.token_hash ≢ raw_hash
      → (old : RefreshToken) × (is_some old.revoked_at ≡ true) × Presented raw_hash tenant.id d' old
  row_after d d' r none e p ne = absurd (not_ok (rw e at p.presented))
    where
      not_ok : ◌≡◌ {A = Outcome RefreshToken} (err no_rows) (ok p.old) → ⊥
      not_ok h = cc
  row_after d d' r (some row) e p ne = (
    scan_refresh_token (revoked_by p.revoked_at row),
    refl,
    rw (
        select_one-rotate env raw_hash tenant.id p.revoked_at p.began r.1 row d d' e ne
          (rw (ids (rw e at p.presented)) p.stored)),
  )
    where
      ids :
          ◌≡◌ {A = Outcome RefreshToken} (ok (scan_refresh_token row)) (ok p.old)
          → row.id ≡ p.old.id
      ids h = ground arith

  -- The next presentation of the same token never returns a new pair.
  refused_again :
      (d : Database) (old : RefreshToken) (r : String × RefreshToken) (d' : Database)
      → is_some old.revoked_at ≡ true
      → Presented raw_hash tenant.id d old
      → ¬ Replaced env s raw_hash tenant.id d d' r
  refused_again d old r d' revoked found p = ground (arith, p.live, same)
    where
      same : ◌≡◌ {A = Outcome RefreshToken} (ok old) (ok p.old)
      same = sym found ∙ p.presented

  -- Once a refresh token has been exchanged, no later call with the same token succeeds, whatever
  -- it is answered from outside, as long as the rows are those that the exchange left. The hash of
  -- the new token is assumed to be another than that of the old one.
  pub rotate_helper_once :
      (w : World) (r : String × RefreshToken) (later : World) (r' : String × RefreshToken)
      → (rotate_helper env s (some tenant) raw w).0 ≡ ok r
      → r.1.token_hash ≢ hash_token env raw s.token_secret
      → later.db ≡ (rotate_helper env s (some tenant) raw w).1.db
      → (rotate_helper env s (some tenant) raw later).0 ≢ ok r'
  rotate_helper_once w r later r' first ne same second =
      let (old, revoked, found) =
        row_after w.db (rotate_helper env s (some tenant) raw w).1.db r _ refl
          (rotate_helper-Replaced w r first) ne in
      refused_again later.db old r' _ revoked (rw same found)
        (rotate_helper-Replaced later r' second)
