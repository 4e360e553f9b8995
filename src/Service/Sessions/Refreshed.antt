-- ===== src/Service/Sessions/Refreshed.antt =====
-- How `Refresh` ends.
use go_auth_api.Base.{Option-cases, String, inl, inr, refl, some, ℕ, ◌==◌, ◌≡◌, ◌⊎◌}
use go_auth_api.Errors.{refresh_reuse}
use go_auth_api.Models.Account.{RefreshToken, Tenant, User}
use go_auth_api.Repo.Users.{find_user_by_id, user_by_id}
use go_auth_api.Service.Context.{Service}
use go_auth_api.Service.Sessions.{refresh, rotate_helper}
use go_auth_api.Service.Sessions.Rotation.{
  FamilyRevoked, Replaced, Rotation, rotate_helper-Rotation,
}
use go_auth_api.Sql.{select_one}
use go_auth_api.Tokens.{generate_access_token, hash_token}
use go_auth_api.Tokens.Fresh.{generate_access_token_lem}
use go_auth_api.World.{Database, Env, Outcome, World, err, ok, panicked}
use go_auth_api.World.Action.{pure, ◌>>=◌}
use go_auth_api.World.Ends.{Continues, Ends, Ends-bind, Ends-execute_pool, Ends-pure}
use go_auth_api.World.Prepares.{Ends-prepare}

abbrev pub Refreshes :
    Env → Service → String → ℕ → Database → Outcome (String × String × ℕ) → Database → Type 0
Refreshes env s hash tid d (ok t) d' =
    (r : String × RefreshToken) × Replaced env s hash tid d d' r
    × (t.1 ≡ r.0)
    × (t.2 ≡ r.1.expires_at)
    × (user : User) × (select_one (λ (u : User). u.id == r.1.user_id) d'.users ≡ some user)
Refreshes env s hash tid d (err _) d' =
    (d' ≡ d)
    ⊎ (FamilyRevoked hash tid d d' ⊎ ((r : String × RefreshToken) × Replaced env s hash tid d d' r))
Refreshes env s hash tid d panicked d' = ⊥

module _ (env : Env) (s : Service) (hash : String) (tid : ℕ) (d : Database) where
  abbrev Ending : Outcome (String × String × ℕ) → World → Type 0
  Ending o w = Refreshes env s hash tid d o w.db

  -- From the rotation on, as `Refresh` goes on.
  continue_refresh :
      (o : Outcome (String × RefreshToken)) (w : World)
      → Rotation env s hash tid d o w.db
      → Continues
          (λ (rotated : String × RefreshToken). find_user_by_id env rotated.1.user_id >>= λ user.
            generate_access_token env user.id user.email >>= λ access.
            pure (access, rotated.0, rotated.1.expires_at))
          Ending
          o
          w
  unfolding user_by_id
  continue_refresh (ok r) w h = Ends-bind _ _ _ (
      Ends-execute_pool env _ _ (λ m _. inr (inr (r, h)))
        (elim (Option-cases (select_one (λ (u : User). u.id == r.1.user_id) w.db.users)) [
          | inl e ↦ rw e (inr (inr (r, h)))
          | inr (user, e) ↦ rw e (
              Ends-prepare _ _ _ (generate_access_token_lem env user.id user.email)
                (λ m j k _. inr (inr (r, h)))
                λ access k _. Ends-pure _ _ (r, h, refl, refl, user, e))
        ]))
  continue_refresh (err refresh_reuse) w h = inr (inl h)
  continue_refresh (err _) w h = inl h
  continue_refresh panicked w h = h

-- `Refresh` for a tenant. It returns tokens only after an exchange as `rotateHelper` makes it, whose new
-- refresh token and expiry it returns, for a user who is there. Where it returns an error, the
-- database is as it was, or the family of a reused token is revoked, or the exchange has been made
-- all the same: the user could not be read or the access token not be signed, and the new refresh
-- token is lost. It does not panic.
pub refresh-Refreshes :
    (env : Env) (s : Service) (tenant : Tenant) (raw : String) (w : World)
    → Refreshes env s
        (hash_token env raw s.token_secret)
        tenant.id
        w.db
        (refresh env s (some tenant) raw w).0
        (refresh env s (some tenant) raw w).1.db
unfolding refresh
refresh-Refreshes env s tenant raw w =
    let end : Ends (refresh env s (some tenant) raw) w
        (λ o w'. Refreshes env s (hash_token env raw s.token_secret) tenant.id w.db o w'.db) =
      Ends-bind _ _ _ (record {
        holds =
            continue_refresh env s (hash_token env raw s.token_secret) tenant.id w.db
              (rotate_helper env s (some tenant) raw w).0
              (rotate_helper env s (some tenant) raw w).1
              (rotate_helper-Rotation env s tenant raw w);
      }) in
    end.holds
