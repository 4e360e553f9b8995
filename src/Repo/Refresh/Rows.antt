-- ===== src/Repo/Refresh/Rows.antt =====
-- What the statements on `refresh_tokens` do to the rows.
use go_auth_api.Base.{
  Bool, List, String, arith, eq_iff, none, refl, some, true, ℕ, ◌&&◌, ◌==◌, ◌∷◌, ◌≡◌, ◌≢◌,
}
use go_auth_api.Models.Account.{RefreshToken}
use go_auth_api.Repo.Refresh.{has_hash, insert_refresh_token, set_revoked}
use go_auth_api.Sql.{select_one, update_rows}
use go_auth_api.Sql.Laws.{All-trivial, select_one-update_rows, select_one_sound}
use go_auth_api.World.{Database, Env, ok}

module _ (env : Env) where
  -- A refresh token that was inserted stands in front of the rows of before.
  pub insert_refresh_token_ok :
      (t : RefreshToken) (now : ℕ) (d d' : Database)
      → insert_refresh_token env t now d ≡ (ok tt, d')
      → d' ≡ record d { refresh_tokens = record t { revoked_at = none } ∷ d.refresh_tokens }
  unfolding insert_refresh_token
  insert_refresh_token_ok t now d d' h = ground arith

-- The `WHERE` of `Revoke`.
abbrev pub is_token : ℕ → ℕ → RefreshToken → Bool
is_token token_id tenant t = t.id == token_id && t.tenant_id == tenant

abbrev pub revoked_by : ℕ → RefreshToken → RefreshToken
revoked_by at t = record t { revoked_at = some at }

-- A row that satisfies the `WHERE` of a look-up by hash belongs to the tenant.
pub tenant-has_hash :
    (hash : String) (tid : ℕ) (t : RefreshToken) → has_hash hash tid t ≡ true → t.tenant_id ≡ tid
tenant-has_hash hash tid t h = ground arith

-- The look-up of a hash after `Revoke` of the token that it leads to finds that token revoked.
pub select_one-revoke :
    (hash : String) (tid at : ℕ) (rows : List RefreshToken) (row : RefreshToken)
    → select_one (has_hash hash tid) rows ≡ some row
    → select_one (has_hash hash tid) (update_rows (is_token row.id tid) (revoked_by at) rows)
      ≡ some (revoked_by at row)
select_one-revoke hash tid at rows row h =
    rw
      (select_one-update_rows (has_hash hash tid) (is_token row.id tid) (revoked_by at) rows
        (λ a _. refl))
      (rw h (ground (arith, tenant-has_hash hash tid row, hit.0)))
  where
    hit : (has_hash hash tid row ≡ true) × Unit {0}
    hit = select_one_sound (has_hash hash tid) (λ _. Unit {0}) rows row (All-trivial rows) h

-- A new row with another hash does not stand in the way.
pub select_one-cons_ne :
    (hash : String) (tid : ℕ) (t : RefreshToken) (rows : List RefreshToken)
    → t.token_hash ≢ hash
    → select_one (has_hash hash tid) (t ∷ rows) ≡ select_one (has_hash hash tid) rows
unfolding select_one
select_one-cons_ne hash tid t rows ne = ground (arith, eq_iff t.token_hash hash)

-- The look-up of the old token's hash in the database after a rotation: the old token, revoked.
pub select_one-rotate :
    (env : Env) (hash : String) (tid at began : ℕ) (next row : RefreshToken) (d d' : Database)
    → select_one (has_hash hash tid) d.refresh_tokens ≡ some row
    → next.token_hash ≢ hash
    → insert_refresh_token env next began (set_revoked row.id tid at began d).1 ≡ (ok tt, d')
    → select_one (has_hash hash tid) d'.refresh_tokens ≡ some (revoked_by at row)
unfolding set_revoked
select_one-rotate env hash tid at began next row d d' found ne stored =
    rw (insert_refresh_token_ok env next began _ d' stored) (
      rw (select_one-cons_ne hash tid (record next { revoked_at = none }) _ ne)
        (select_one-revoke hash tid at d.refresh_tokens row found))
