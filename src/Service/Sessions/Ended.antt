-- ===== src/Service/Sessions/Ended.antt =====
-- A session that was ended gives no new tokens.
-- A row of a tenant's table under a hash is revoked.
use go_auth_api.Base.{
  All, All-mono, Option, String, arith, eq_iff, false, is_some, none, refl, some, subst, sym, true,
  ℕ, ◌&&◌, ◌==◌, ◌∙◌, ◌≡◌, ◌≢◌,
}
use go_auth_api.Models.Account.{RefreshToken, Tenant, second}
use go_auth_api.Repo.Refresh.{has_hash, scan_refresh, set_revoked, set_revoked_for_user}
use go_auth_api.Service.Context.{Service}
use go_auth_api.Service.Sessions.{logout, revoke_all, rotate_helper}
use go_auth_api.Service.Sessions.Logout.{LoggedOut, LogsOut, is_valid_session, logout-LogsOut}
use go_auth_api.Service.Sessions.Replay.{rotate_helper-Replaced}
use go_auth_api.Service.Sessions.Rotation.{Replaced}
use go_auth_api.Sql.{select_one}
use go_auth_api.Sql.Laws.{select_one_sound, update_rows_pointwise, update_rows_takes}
use go_auth_api.Tokens.{hash_token}
use go_auth_api.World.{Database, Env, Outcome, World, err, ok, panicked}
use go_auth_api.World.Ends.{Ends, Ends-bind, Ends-execute_pool, Ends-pure}

abbrev pub RevokedUnder : String → ℕ → RefreshToken → Type 0
RevokedUnder hash tid t = has_hash hash tid t ≡ true → is_some t.revoked_at ≡ true

-- All rows under this hash are the same token.
abbrev pub OneSessionUnder : String → ℕ → Database → Type 0
OneSessionUnder hash id d =
    All (λ (t : RefreshToken). t.token_hash ≡ hash → t.id ≡ id) d.refresh_tokens

hash-has_hash :
    (hash : String) (tid : ℕ) (t : RefreshToken)
    → has_hash hash tid t ≡ true
    → (t.token_hash ≡ hash) × (t.tenant_id ≡ tid)
hash-has_hash hash tid t h = ground (arith, eq_iff t.token_hash hash)

live_or_revoked : (o : Option ℕ) → o ≡ none → is_some o ≡ true → ⊥
live_or_revoked none e k = cc
live_or_revoked (some n) e k = cc

has_hash-is_valid_session :
    (hash : String) (tid now : ℕ) (t : RefreshToken)
    → is_valid_session hash tid now t ≡ true
    → has_hash hash tid t ≡ true
has_hash-is_valid_session hash tid now t h = ground arith

module _ (env : Env) (s : Service) (hash : String) (tid : ℕ) (d d' : Database) where
  -- The row that an exchange was given.
  exchanged_row :
      (P : RefreshToken → Type 0) (r : String × RefreshToken)
      → All P d.refresh_tokens
      → Replaced env s hash tid d d' r
      → (row : RefreshToken) × (has_hash hash tid row ≡ true)
        × P row
        × (row.revoked_at ≡ none)
        × (row.user_id ≡ r.1.user_id)
  exchanged_row P r all p = go (select_one (has_hash hash tid) d.refresh_tokens) refl p.presented
    where
      go :
          (found : Option RefreshToken)
          → select_one (has_hash hash tid) d.refresh_tokens ≡ found
          → scan_refresh found ≡ ok p.old
          → (row : RefreshToken) × (has_hash hash tid row ≡ true)
            × P row
            × (row.revoked_at ≡ none)
            × (row.user_id ≡ r.1.user_id)
      go none e h = absurd (not_ok h)
        where
          not_ok : scan_refresh none ≡ ok p.old → ⊥
          not_ok h = cc
      go (some row) e h =
          let hit : (has_hash hash tid row ≡ true) × P row =
            select_one_sound (has_hash hash tid) P d.refresh_tokens row all e in
          (row, hit.0, hit.1, live h, user h)
        where
          live : scan_refresh (some row) ≡ ok p.old → row.revoked_at ≡ none
          live h = ground (arith, p.live)

          user : scan_refresh (some row) ≡ ok p.old → row.user_id ≡ r.1.user_id
          user h = ground (arith, p.successor.user)

module _ (env : Env) (s : Service) (tenant : Tenant) (raw : String) where
  -- No token is given for rows that are revoked.
  refused :
      (later : World) (r : String × RefreshToken)
      → All (RevokedUnder (hash_token env raw s.token_secret) tenant.id) later.db.refresh_tokens
      → (rotate_helper env s (some tenant) raw later).0 ≢ ok r
  refused later r all h =
      let (row, under, revoked, live, user) =
        exchanged_row env s (hash_token env raw s.token_secret) tenant.id later.db _
          (RevokedUnder (hash_token env raw s.token_secret) tenant.id) r all
          (rotate_helper-Replaced env s tenant raw later r h) in
      live_or_revoked row.revoked_at live (revoked under)

  -- What `Revoke` of a token does to the rows under a hash that only this token has.
  revoke_one :
      (id at began : ℕ) (d : Database)
      → OneSessionUnder (hash_token env raw s.token_secret) id d
      → All
          (RevokedUnder (hash_token env raw s.token_secret) tenant.id)
          (set_revoked id tenant.id at began d).1.refresh_tokens
  unfolding set_revoked
  revoke_one id at began d one =
      update_rows_takes _ _ _ _ d.refresh_tokens (λ t hit same under. refl)
        (λ t miss same under. absurd (apart t miss same (hash-has_hash _ tenant.id t under))) one
    where
      apart :
          (t : RefreshToken)
          → (t.id == id && t.tenant_id == tenant.id) ≡ false
          → (t.token_hash ≡ hash_token env raw s.token_secret → t.id ≡ id)
          → (t.token_hash ≡ hash_token env raw s.token_secret) × (t.tenant_id ≡ tenant.id)
          → ⊥
      apart t miss same (h, k) = mismatch t miss (same h) k
        where
          mismatch :
              (t : RefreshToken)
              → (t.id == id && t.tenant_id == tenant.id) ≡ false
              → t.id ≡ id
              → t.tenant_id ≡ tenant.id
              → ⊥
          mismatch t miss e k = ground arith

  -- After `Logout` has returned nil for a refresh token, and while the rows are those that it left,
  -- the token is never exchanged: provided that the table held one token under its hash.
  pub logout_ends_session :
      (w later : World) (id : ℕ) (r : String × RefreshToken)
      → OneSessionUnder (hash_token env raw s.token_secret) id w.db
      → (logout env s (some tenant) raw w).0 ≡ ok tt
      → later.db ≡ (logout env s (some tenant) raw w).1.db
      → (rotate_helper env s (some tenant) raw later).0 ≢ ok r
  unfolding set_revoked
  logout_ends_session w later id r one first same = refused later r (
      subst
        (λ (d : Database).
          All (RevokedUnder (hash_token env raw s.token_secret) tenant.id) d.refresh_tokens)
        (out.stored ∙ sym same) (revoke_one out.row.id out.at 0 w.db one_row))
    where
      out :
          LoggedOut
            (hash_token env raw s.token_secret)
            tenant.id
            w.db
            (logout env s (some tenant) raw w).1.db
      out =
          subst
            (λ o.
              LogsOut (hash_token env raw s.token_secret) tenant.id w.db o
                (logout env s (some tenant) raw w).1.db)
            first (logout-LogsOut env s tenant raw w)

      row_under :
          (is_valid_session (hash_token env raw s.token_secret) tenant.id out.checked_at out.row
            ≡ true)
          × (out.row.token_hash ≡ hash_token env raw s.token_secret → out.row.id ≡ id)
      row_under = select_one_sound _ _ w.db.refresh_tokens out.row one out.found

      row_id : out.row.id ≡ id
      row_id =
          row_under.1
            (hash-has_hash _ tenant.id out.row
              (has_hash-is_valid_session _ _ _ out.row row_under.0)).0

      one_row : OneSessionUnder (hash_token env raw s.token_secret) out.row.id w.db
      one_row = All-mono _ _ (λ t k e. k e ∙ sym row_id) w.db.refresh_tokens one

-- A tenant's row of a user, which is revoked.
abbrev pub RevokedOf : ℕ → ℕ → RefreshToken → Type 0
RevokedOf user_id tid t = t.user_id ≡ user_id → t.tenant_id ≡ tid → is_some t.revoked_at ≡ true

set_revoked_for_user-RevokedOf :
    (user_id tid now : ℕ) (d : Database)
    → All (RevokedOf user_id tid) (set_revoked_for_user user_id tid now d).1.refresh_tokens
unfolding set_revoked_for_user
set_revoked_for_user-RevokedOf user_id tid now d =
    update_rows_pointwise (RevokedOf user_id tid) _ _ d.refresh_tokens (λ t hit f k. refl)
      (λ t miss f k. ground arith)

-- What `RevokeAll` does for a tenant.
abbrev pub RevokesAll : ℕ → ℕ → Database → Outcome (Unit {0}) → Database → Type 0
RevokesAll user_id tid d (ok _) d' = (now : ℕ) × ((set_revoked_for_user user_id tid now d).1 ≡ d')
RevokesAll user_id tid d (err _) d' = d' ≡ d
RevokesAll user_id tid d panicked d' = ⊥

pub revoke_all-RevokesAll :
    (env : Env) (s : Service) (tenant : Tenant) (user_id : ℕ) (w : World)
    → RevokesAll user_id tenant.id w.db
        (revoke_all env s (some tenant) user_id w).0
        (revoke_all env s (some tenant) user_id w).1.db
unfolding revoke_all set_revoked_for_user
revoke_all-RevokesAll env s tenant user_id w =
    let end : Ends (revoke_all env s (some tenant) user_id) w
        (λ r w'. RevokesAll user_id tenant.id w.db r w'.db) =
      Ends-bind _ _ _
        (Ends-pure _ _ (Ends-execute_pool env _ _ (λ m _. refl) (env.clock w.calls, refl))) in
    end.holds

-- After `RevokeAll` has returned nil for a user, and while the rows are those that it left, a
-- refresh token of the tenant that is exchanged, whichever it is, is not one of that user.
pub revoke_all_ends_sessions :
    (env : Env) (s : Service) (tenant : Tenant) (user_id : ℕ) (w later : World) (raw : String)
    (r : String × RefreshToken)
    → (revoke_all env s (some tenant) user_id w).0 ≡ ok tt
    → later.db ≡ (revoke_all env s (some tenant) user_id w).1.db
    → (rotate_helper env s (some tenant) raw later).0 ≡ ok r
    → r.1.user_id ≢ user_id
revoke_all_ends_sessions env s tenant user_id w later raw r first same second owner =
    let (now, stored) = done in
    let all : All (RevokedOf user_id tenant.id) later.db.refresh_tokens =
      subst (λ (d : Database). All (RevokedOf user_id tenant.id) d.refresh_tokens)
        (stored ∙ sym same) (set_revoked_for_user-RevokedOf user_id tenant.id now w.db) in
    let (row, under, revoked, live, user) =
      exchanged_row env s (hash_token env raw s.token_secret) tenant.id later.db _
        (RevokedOf user_id tenant.id) r all
        (rotate_helper-Replaced env s tenant raw later r second) in
    live_or_revoked row.revoked_at live
      (revoked (user ∙ owner) (hash-has_hash _ tenant.id row under).1)
  where
    done : RevokesAll user_id tenant.id w.db (ok tt) (revoke_all env s (some tenant) user_id w).1.db
    done =
        subst
          (λ o. RevokesAll user_id tenant.id w.db o (revoke_all env s (some tenant) user_id w).1.db)
          first (revoke_all-RevokesAll env s tenant user_id w)
