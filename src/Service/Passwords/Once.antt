-- ===== src/Service/Passwords/Once.antt =====
-- A reset token is good for one reset.
use go_auth_api.Base.{
  All, Bool-cases, String, arith, eq_iff, false, inl, inr, none, not_both, refl, some, str_eq,
  subst, true, ℕ, ◌==◌, ◌≡◌, ◌≢◌,
}
use go_auth_api.Models.Account.{Tenant, second}
use go_auth_api.Repo.Reset.{is_valid_reset, set_reset_revoked, valid_reset_token}
use go_auth_api.Service.Context.{Service}
use go_auth_api.Service.Passwords.{reset_password}
use go_auth_api.Service.Passwords.Reset.{PasswordReset, Resets, reset_password-Resets}
use go_auth_api.Sql.{select_one}
use go_auth_api.Sql.Laws.{
  select_one-none, select_one-update_rows, select_one_sound, update_rows_takes,
}
use go_auth_api.Tokens.{hash_token}
use go_auth_api.World.{Database, Env, ResetRow, World, ok}

-- All rows under this hash are the same token.
abbrev pub OneTokenUnder : String → ℕ → Database → Type 0
OneTokenUnder hash id d =
    All (λ (r : ResetRow). r.token.token_hash ≡ hash → r.token.id ≡ id) d.reset_tokens

found-hash :
    (hash : String) (tid now : ℕ) (r : ResetRow)
    → is_valid_reset hash tid now r ≡ true
    → r.token.token_hash ≡ hash
found-hash hash tid now r h = ground (arith, eq_iff r.token.token_hash hash)

-- Once it is used, no look-up under its hash finds a row.
used_up :
    (env : Env) (hash password : String) (tid id later : ℕ) (d d' : Database)
    → OneTokenUnder hash id d
    → PasswordReset env hash tid password d d'
    → select_one (is_valid_reset hash tid later) d'.reset_tokens ≡ none
used_up env hash password tid id later d d' one p = rw (p.stored) (
    select_one-none (is_valid_reset hash tid later) _ (
      update_rows_takes _ _ _ _ d.reset_tokens (λ r hit same. used r)
        (λ r miss same. other r miss same) one))
  where
    hit :
        (is_valid_reset hash tid p.began p.row ≡ true)
        × (p.row.token.token_hash ≡ hash → p.row.token.id ≡ id)
    hit = select_one_sound (is_valid_reset hash tid p.began) _ d.reset_tokens p.row one p.found

    row_id : p.row.token.id ≡ id
    row_id = hit.1 (found-hash hash tid p.began p.row hit.0)

    used :
        (r : ResetRow)
        → is_valid_reset hash tid later
            (record r { token = record r.token { used_at = some p.used_at } })
          ≡ false
    used r = ground arith

    other :
        (r : ResetRow)
        → (r.token.id == p.row.token.id) ≡ false
        → (r.token.token_hash ≡ hash → r.token.id ≡ id)
        → is_valid_reset hash tid later r ≡ false
    other r miss same = elim (Bool-cases (str_eq r.token.token_hash hash)) [
      | inl e ↦ absurd (apart (same ((eq_iff r.token.token_hash hash).0 e)))
      | inr e ↦ rw e
    ]
      where
        apart : r.token.id ≡ id → ⊥
        apart q = ground (arith, row_id, miss)

-- After `ResetPassword` has returned nil for a token, and while the rows are those that it left, the
-- same token is refused, whatever the new password: provided that the table held one token under
-- that hash.
pub reset_password_once :
    (env : Env) (s : Service) (tenant : Tenant) (raw password ip : String) (w later : World)
    (id : ℕ) (password' ip' : String)
    → OneTokenUnder (hash_token env raw s.token_secret) id w.db
    → (reset_password env s (some tenant) raw password ip w).0 ≡ ok tt
    → later.db ≡ (reset_password env s (some tenant) raw password ip w).1.db
    → (reset_password env s (some tenant) raw password' ip' later).0 ≢ ok tt
reset_password_once env s tenant raw password ip w later id password' ip' one first same second =
    not_both _ (rw same (used_up env hash password tenant.id id after.began w.db _ one before))
      after.found
  where
    hash : String
    hash = hash_token env raw s.token_secret

    before :
        PasswordReset env hash tenant.id password w.db
          (reset_password env s (some tenant) raw password ip w).1.db
    before =
        subst
          (λ o.
            Resets env hash tenant.id password w.db o
              (reset_password env s (some tenant) raw password ip w).1.db)
          first (reset_password-Resets env s tenant raw password ip w)

    after :
        PasswordReset env hash tenant.id password' later.db
          (reset_password env s (some tenant) raw password' ip' later).1.db
    after =
        subst
          (λ o.
            Resets env hash tenant.id password' later.db o
              (reset_password env s (some tenant) raw password' ip' later).1.db)
          second (reset_password-Resets env s tenant raw password' ip' later)

-- Revoking the earlier reset tokens of an account, as `RequestResetPassword` does, does not change
-- which token any later look-up accepts: the revocation has no effect.
pub revoke_previous_no_effect :
    (tenant user at now later : ℕ) (hash : String) (tid : ℕ) (d : Database)
    → (valid_reset_token hash tid later (set_reset_revoked tenant user at now d).1).0
      ≡ (valid_reset_token hash tid later d).0
unfolding valid_reset_token set_reset_revoked
revoke_previous_no_effect tenant user at now later hash tid d =
    rw
      (select_one-update_rows (is_valid_reset hash tid later) _
        (λ (r : ResetRow). record r { revoked_at = some at }) d.reset_tokens (λ r _. refl))
      (ground arith)
