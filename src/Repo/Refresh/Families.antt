-- ===== src/Repo/Refresh/Families.antt =====
-- Rotation families among the rows of `refresh_tokens`.
use go_auth_api.Base.{
  All, All-mono, Bool, Bool-cases, List, String, [], ap, arith, inl, inr, none, not_both, refl,
  some, sym, true, ℕ, ◌∙◌, ◌∷◌, ◌≡◌, ◌≢◌,
}
use go_auth_api.Models.Account.{RefreshToken}
use go_auth_api.Repo.Refresh.{has_hash}
use go_auth_api.Repo.Refresh.Rows.{is_token, revoked_by, tenant-has_hash}
use go_auth_api.Sql.{select_one, update_rows}
use go_auth_api.Sql.Laws.{All-update_rows, select_one_sound}

abbrev pub IsLive : RefreshToken → Type 0
IsLive t = t.revoked_at ≡ none

abbrev pub Apart : RefreshToken → RefreshToken → Type 0
Apart a b = IsLive a → IsLive b → a.family_id ≢ b.family_id

-- No two live rows are of one family.
abbrev pub OneLive : List RefreshToken → Type 0
OneLive [] = Unit
OneLive (t ∷ ts) = All (Apart t) ts × OneLive ts

-- No live row is of this family.
abbrev pub NoLive : ℕ → List RefreshToken → Type 0
NoLive family_id ts = All (λ (t : RefreshToken). IsLive t → t.family_id ≢ family_id) ts

-- An update that revokes the rows that it changes keeps a family's live rows apart from a row.
Apart-revoked :
    (a : RefreshToken) (p : RefreshToken → Bool) (at : ℕ) (ts : List RefreshToken)
    → All (Apart a) ts
    → All (Apart a) (update_rows p (revoked_by at) ts)
Apart-revoked a p at ts h =
    All-update_rows (Apart a) p (revoked_by at) ts
      (λ t hit apart live dead. absurd (not_both _ dead refl)) h

-- A revoked row is apart from all.
All-dead : (at : ℕ) (t : RefreshToken) (ts : List RefreshToken) → All (Apart (revoked_by at t)) ts
All-dead at t [] = tt
All-dead at t (r ∷ ts) = (λ dead live same. not_both _ dead refl, All-dead at t ts)

pub OneLive-revoked :
    (p : RefreshToken → Bool) (at : ℕ) (ts : List RefreshToken)
    → OneLive ts
    → OneLive (update_rows p (revoked_by at) ts)
unfolding update_rows
OneLive-revoked p at [] h = tt
OneLive-revoked p at (t ∷ ts) h = elim (Bool-cases (p t)) [
  | inl e ↦ rw e ((All-dead at t (update_rows p (revoked_by at) ts)), OneLive-revoked p at ts h.1)
  | inr e ↦ rw e (Apart-revoked t p at ts h.0, OneLive-revoked p at ts h.1)
]

-- A family with no live row gets one.
pub OneLive-insert :
    (t : RefreshToken) (ts : List RefreshToken)
    → NoLive t.family_id ts
    → OneLive ts
    → OneLive (record t { revoked_at = none } ∷ ts)
OneLive-insert t ts none_live h =
    (All-mono _ _ (λ r f live live' same. f live' (sym same)) ts none_live, h)

-- A family without rows has no live row.
pub NoLive-fresh :
    (family_id : ℕ) (ts : List RefreshToken)
    → All (λ (t : RefreshToken). t.family_id ≢ family_id) ts
    → NoLive family_id ts
NoLive-fresh family_id ts h = All-mono _ _ (λ r f live. f) ts h

some_inj : {a b : RefreshToken} → some a ≡ some b → a ≡ b
some_inj h = cc

-- `Revoke` of the row that a look-up by hash finds changes that row.
is_token-found :
    (hash : String) (tid : ℕ) (t row : RefreshToken)
    → t ≡ row
    → has_hash hash tid t ≡ true
    → is_token row.id tid t ≡ true
is_token-found hash tid t row same q =
    ground (arith, tenant-has_hash hash tid t q, ap (λ x. x.id) same)

keep_dead :
    (at family_id : ℕ) (p : RefreshToken → Bool) (ts : List RefreshToken)
    → NoLive family_id ts
    → NoLive family_id (update_rows p (revoked_by at) ts)
keep_dead at family_id p ts h =
    All-update_rows (λ (t : RefreshToken). IsLive t → t.family_id ≢ family_id) p (revoked_by at) ts
      (λ t hit f dead. absurd (not_both _ dead refl)) h

-- After `Revoke` of a live row found by its hash, its family has no live row.
pub NoLive-revoked :
    (hash : String) (tid at : ℕ) (ts : List RefreshToken) (row : RefreshToken)
    → OneLive ts
    → select_one (has_hash hash tid) ts ≡ some row
    → IsLive row
    → NoLive row.family_id (update_rows (is_token row.id tid) (revoked_by at) ts)
unfolding select_one update_rows
NoLive-revoked hash tid at [] row h e live = tt
NoLive-revoked hash tid at (t ∷ ts) row h e live = elim (Bool-cases (has_hash hash tid t)) [
  | inl q ↦
      let same : t ≡ row = some_inj (rw q at e) in
      rw (is_token-found hash tid t row same q) (
        (λ dead _. not_both _ dead refl),
        keep_dead at row.family_id _ ts (
            All-mono _ _
              (λ r f live' eq.
                f (ap (λ x. x.revoked_at) same ∙ live) live' (ap (λ x. x.family_id) same ∙ sym eq))
              ts h.0),
      )
  | inr q ↦ (
    elim (Bool-cases (is_token row.id tid t)) [
      | inl revoked ↦ rw revoked (λ dead _. not_both _ dead refl)
      | inr kept ↦ rw kept (λ live' eq.
          (select_one_sound (has_hash hash tid) (Apart t) ts row h.0 (rw q at e)).1 live' live eq)
    ],
    NoLive-revoked hash tid at ts row h.1 (rw q at e) live,
  )
]
