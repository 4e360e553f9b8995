-- ===== src/Service/Sessions/Rotation.antt =====
-- How `rotateHelper` ends: in one of the ways that `Rotation` lists, with all that it has done to
-- the database in each.
use go_auth_api.Base.{
  Bool-cases, Option-cases, String, arith, false, if◌then◌else◌, inl, inr, is_some, ltb, none,
  none_of_not_some, pair_path, refl, some, true, ℕ, ◌≡◌, ◌⊎◌,
}
use go_auth_api.Broker.{opened}
use go_auth_api.Errors.{external, invalid_token, refresh_reuse}
use go_auth_api.Models.Account.{RefreshToken, Tenant}
use go_auth_api.Repo.Refresh.{
  has_hash, insert_refresh_token, refresh_by_hash, scan_refresh, scan_refresh_token, set_revoked,
  set_revoked_for_family,
}
use go_auth_api.Service.Context.{Service}
use go_auth_api.Service.Sessions.{refuse_reuse, replace_token, rotate_helper, rotate_in_tx}
use go_auth_api.Sql.{select_one}
use go_auth_api.Tokens.{hash_token}
use go_auth_api.Tokens.Fresh.{IsRefreshFor, generate_refresh_token_lem}
use go_auth_api.World.{Database, Env, Outcome, World, err, ok, panicked}
use go_auth_api.World.Action.{raise}
use go_auth_api.World.Ends.{
  Ends, Ends-begin_tx, Ends-bind, Ends-catch, Ends-commit, Ends-execute_tx, Ends-pure, Ends-raise,
  Ends-rollback, Ends-time_now,
}
use go_auth_api.World.Prepares.{Ends-prepare}

-- The row that the token's hash leads to, as the program reads it.
abbrev pub Presented : String → ℕ → Database → RefreshToken → Type 0
Presented hash tenant d old =
    scan_refresh (select_one (has_hash hash tenant) d.refresh_tokens) ≡ ok old

-- The old token is good, and its successor is stored in the place of the old one.
pub record Replaced (env : Env) (s : Service) (hash : String) (tid : ℕ) (d d' : Database)
    (r : String × RefreshToken) : Type 0 where
  pub old : RefreshToken
  pub presented : Presented hash tid d old
  pub live : old.revoked_at ≡ none
  pub read_at : ℕ
  pub unexpired : ltb old.expires_at (env.clock read_at) ≡ false
  pub successor :
      IsRefreshFor env old.user_id old.family_id old.id tid old.client_id s.token_secret r.0 r.1
  pub began : ℕ
  pub revoked_at : ℕ
  pub stored :
      insert_refresh_token env r.1 began (set_revoked old.id tid revoked_at began d).1 ≡ (ok tt, d')

-- The old token was revoked before, and all of its family is revoked now.
pub record FamilyRevoked (hash : String) (tid : ℕ) (d d' : Database) : Type 0 where
  pub old : RefreshToken
  pub presented : Presented hash tid d old
  pub reused : is_some old.revoked_at ≡ true
  pub began : ℕ
  pub revoked : (set_revoked_for_family old.family_id tid began d).1 ≡ d'

-- Every error but `ErrRefreshReuse` leaves the database as it was.
abbrev pub Rotation :
    Env → Service → String → ℕ → Database → Outcome (String × RefreshToken) → Database → Type 0
Rotation env s hash tid d (ok r) d' = Replaced env s hash tid d d' r
Rotation env s hash tid d (err refresh_reuse) d' = FamilyRevoked hash tid d d'
Rotation env s hash tid d (err _) d' = d' ≡ d
Rotation env s hash tid d panicked d' = ⊥

module _ (env : Env) (s : Service) (hash : String) (tid : ℕ) (d : Database) where
  -- Inside the transaction, before anything is written or committed.
  abbrev InTx : World → ℕ → Type 0
  InTx w began = (w.tx ≡ some (record { work = d; began = began })) × (w.db ≡ d)

  abbrev Rotates : Outcome (String × RefreshToken) → World → Type 0
  Rotates r w = Rotation env s hash tid d r w.db

  -- An insertion either succeeds or fails with the driver's error for a constraint.
  insert_cases :
      (t : RefreshToken) (now : ℕ) (e : Database)
      → (insert_refresh_token env t now e).0 ≡ ok tt
        ⊎ ((m : String) × ((insert_refresh_token env t now e).0 ≡ err (external m)))
  unfolding insert_refresh_token
  insert_cases t now e = ground arith

  refuse_Rotation :
      (old : RefreshToken) (w : World) (began : ℕ)
      → InTx w began
      → Presented hash tid d old
      → is_some old.revoked_at ≡ true
      → Ends (refuse_reuse env s old tid) w Rotates
  unfolding refuse_reuse set_revoked_for_family
  refuse_Rotation old w began (opened, kept) found reused = Ends-bind _ _ _ (
      Ends-execute_tx env _ _ _ opened (λ m _. kept)
        (Ends-bind _ _ _ (
          Ends-commit env _ _ refl (λ m _. kept)
            (Ends-raise _ _ (record {
              old = old;
              presented = found;
              reused = reused;
              began = began;
              revoked = refl;
            })))))

  replace_Rotation :
      (old : RefreshToken) (n : ℕ) (w : World) (began : ℕ)
      → InTx w began
      → Presented hash tid d old
      → old.revoked_at ≡ none
      → ltb old.expires_at (env.clock n) ≡ false
      → Ends (replace_token env s old tid) w Rotates
  unfolding replace_token set_revoked
  replace_Rotation old n w began (opened, kept) found live unexpired = Ends-bind _ _ _ (
      Ends-time_now env _ _ (
        Ends-execute_tx env _ _ _ opened (λ m _. kept)
          (Ends-prepare _ _ _
            (generate_refresh_token_lem env old.user_id old.family_id old.id tid old.client_id
              s.token_secret)
            (λ m j k _. kept)
            (λ r k fresh. Ends-bind _ _ _ (
              Ends-execute_tx env _ _ _ refl (λ m _. kept)
                (elim (insert_cases r.1 began
                  (set_revoked old.id tid (env.clock w.calls) began d).1) [
                    | inl e ↦ rw e (
                        Ends-bind _ _ _ (
                          Ends-commit env _ _ refl (λ m _. kept)
                            (Ends-pure _ _ (record {
                              old = old;
                              presented = found;
                              live = live;
                              read_at = n;
                              unexpired = unexpired;
                              successor = fresh;
                              began = began;
                              revoked_at = env.clock w.calls;
                              stored = pair_path e;
                            }))))
                    | inr (m, e) ↦ rw e kept
                  ]))))))

  -- The two checks between the `SELECT` and the writes.
  checked :
      (old : RefreshToken) (n : ℕ) (w : World) (began : ℕ)
      → InTx w began
      → Presented hash tid d old
      → Ends
          (if ltb old.expires_at (env.clock n)
            then raise invalid_token
            else if is_some old.revoked_at
            then refuse_reuse env s old tid
            else replace_token env s old tid)
          w
          Rotates
  checked old n w began inside found = elim (Bool-cases (ltb old.expires_at (env.clock n))) [
    | inl late ↦ rw late (Ends-raise _ _ inside.1)
    | inr good ↦ rw good (elim (Bool-cases (is_some old.revoked_at)) [
      | inl reused ↦ rw reused (refuse_Rotation old w began inside found reused)
      | inr live ↦
          rw live (
            replace_Rotation old n w began inside found (none_of_not_some old.revoked_at live) good)
    ])
  ]

  rotate_in_tx-Rotation :
      (w : World) (began : ℕ) → InTx w began → Ends (rotate_in_tx env s hash tid) w Rotates
  unfolding rotate_in_tx refresh_by_hash
  rotate_in_tx-Rotation w began (opened, kept) = Ends-bind _ _ _ (
      Ends-catch _ _ _ (
        Ends-execute_tx env _ _ _ opened (λ m _. Ends-raise _ _ kept)
          (elim (Option-cases (select_one (has_hash hash tid) d.refresh_tokens)) [
            | inl e ↦ rw e (Ends-raise _ _ kept)
            | inr (row, e) ↦ rw e (
                Ends-time_now env _ _
                  (checked (scan_refresh_token row) _ _ began (refl, kept) (rw e)))
          ])))

-- `rotateHelper` for a tenant, from any state of the world. It succeeds only with a token whose hash
-- leads to a row of the tenant that is neither expired nor revoked, and then the row is revoked and
-- its successor, of the same user and family and with the old token for parent, is stored; with
-- `ErrRefreshReuse` the row was revoked before, and the rows of its family that were live are revoked
-- now; any other error leaves the database as it was; and it does not panic.
pub rotate_helper-Rotation :
    (env : Env) (s : Service) (tenant : Tenant) (raw : String) (w : World)
    → Rotation env s
        (hash_token env raw s.token_secret)
        tenant.id
        w.db
        (rotate_helper env s (some tenant) raw w).0
        (rotate_helper env s (some tenant) raw w).1.db
unfolding rotate_helper
rotate_helper-Rotation env s tenant raw w =
    let end : Ends (rotate_helper env s (some tenant) raw) w
        (λ r w'. Rotation env s (hash_token env raw s.token_secret) tenant.id w.db r w'.db) =
      Ends-bind _ _ _ (
        Ends-pure _ _ (
          Ends-begin_tx env _ _ (λ m _. refl)
            (Ends-rollback _ _ (rotate_in_tx-Rotation env s _ _ w.db _ _ (refl, refl))))) in
    end.holds
