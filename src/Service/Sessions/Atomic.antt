-- ===== src/Service/Sessions/Atomic.antt =====
-- What a call of `rotateHelper` leaves of the database.
use go_auth_api.Base.{All, String, arith, is_some, refl, some, subst, true, ℕ, ◌≡◌}
use go_auth_api.Errors.{refresh_reuse}
use go_auth_api.Models.Account.{RefreshToken, Tenant}
use go_auth_api.Repo.Refresh.{set_revoked_for_family}
use go_auth_api.Service.Context.{Service}
use go_auth_api.Service.Sessions.{rotate_helper}
use go_auth_api.Service.Sessions.Rotation.{
  FamilyRevoked, Presented, Rotation, rotate_helper-Rotation,
}
use go_auth_api.Sql.Laws.{update_rows_pointwise}
use go_auth_api.Tokens.{hash_token}
use go_auth_api.World.{Database, Env, World, err}

-- A tenant's row of a family, which is revoked.
abbrev pub RevokedIn : ℕ → ℕ → RefreshToken → Type 0
RevokedIn family_id tid t =
    t.family_id ≡ family_id → t.tenant_id ≡ tid → is_some t.revoked_at ≡ true

-- After `RevokeAllForFamily` no token of the family is live.
pub set_revoked_for_family-RevokedIn :
    (family_id tid now : ℕ) (d : Database)
    → All (RevokedIn family_id tid) (set_revoked_for_family family_id tid now d).1.refresh_tokens
unfolding set_revoked_for_family
set_revoked_for_family-RevokedIn family_id tid now d =
    update_rows_pointwise (RevokedIn family_id tid) _ _ d.refresh_tokens (λ t hit f k. refl)
      (λ t miss f k. ground arith)

-- A rotation that returns `ErrRefreshReuse` was given a token that had been revoked, and every
-- token of that token's family in the tenant is revoked in the database that it leaves.
pub rotate_helper_reuse :
    (env : Env) (s : Service) (tenant : Tenant) (raw : String) (w : World)
    → (rotate_helper env s (some tenant) raw w).0 ≡ err refresh_reuse
    → (old : RefreshToken) × Presented (hash_token env raw s.token_secret) tenant.id w.db old
      × (is_some old.revoked_at ≡ true)
      × All
          (RevokedIn old.family_id tenant.id)
          (rotate_helper env s (some tenant) raw w).1.db.refresh_tokens
rotate_helper_reuse env s tenant raw w h =
    let end : FamilyRevoked (hash_token env raw s.token_secret) tenant.id w.db
        (rotate_helper env s (some tenant) raw w).1.db =
      subst
        (λ r.
          Rotation env s (hash_token env raw s.token_secret) tenant.id w.db r
            (rotate_helper env s (some tenant) raw w).1.db)
        h (rotate_helper-Rotation env s tenant raw w) in
    (
      end.old,
      end.presented,
      end.reused,
      subst (λ (d : Database). All (RevokedIn end.old.family_id tenant.id) d.refresh_tokens)
          end.revoked (set_revoked_for_family-RevokedIn end.old.family_id tenant.id end.began w.db),
    )
