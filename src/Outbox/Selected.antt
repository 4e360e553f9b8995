-- ===== src/Outbox/Selected.antt =====
-- The rows that `SELECT … WHERE … ORDER BY created_at LIMIT …` takes: what holds of them, and when
-- a row is among them.
use go_auth_api.Base.{
  All, All-mono, Any, Bool, ◌<◌, ◌==◌, Bool-cases, List, [], arith, false, inl, inr, leb, length,
  not, refl, ap, suc, take, true, zero, ℕ, ◌&&◌, ◌||◌, ◌∷◌, ◌≡◌,
}
use go_auth_api.Models.Event.{OutboxEvent}
use go_auth_api.Repo.Outbox.{claimed_rows, insert_by_age, is_claimable, oldest_first, select_all}
use go_auth_api.Sql.{exists_row}

module _ (P : OutboxEvent → Type 0) where
  pub insert_by_age-All :
      (e : OutboxEvent) (xs : List OutboxEvent) → P e → All P xs → All P (insert_by_age e xs)
  unfolding insert_by_age
  insert_by_age-All e [] pe all = (pe, tt)
  insert_by_age-All e (x ∷ xs) pe (px, all) = elim (Bool-cases (leb e.created_at x.created_at)) [
    | inl h ↦ rw h (pe, (px, all))
    | inr h ↦ rw h (px, insert_by_age-All e xs pe all)
  ]

  oldest_first-All : (xs : List OutboxEvent) → All P xs → All P (oldest_first xs)
  unfolding oldest_first
  oldest_first-All [] all = tt
  oldest_first-All (x ∷ xs) (px, all) =
      insert_by_age-All x (oldest_first xs) px (oldest_first-All xs all)

  pub take-All : (n : ℕ) (xs : List OutboxEvent) → All P xs → All P (take n xs)
  take-All zero xs all = tt
  take-All (suc n) [] all = tt
  take-All (suc n) (x ∷ xs) (px, all) = (px, take-All n xs all)

select_all-All :
    (P Q : OutboxEvent → Type 0) (p : OutboxEvent → Bool) (xs : List OutboxEvent)
    → ((e : OutboxEvent) → p e ≡ true → P e → Q e)
    → All P xs
    → All Q (select_all p xs)
unfolding select_all
select_all-All P Q p [] f all = tt
select_all-All P Q p (x ∷ xs) f (px, all) = elim (Bool-cases (p x)) [
  | inl h ↦ rw h (f x h px, select_all-All P Q p xs f all)
  | inr h ↦ rw h (select_all-All P Q p xs f all)
]

-- What holds of the rows that a claim takes, from what holds of the table's.
pub claimed_rows-All :
    (P Q : OutboxEvent → Type 0) (busy : ℕ → Bool) (limit now : ℕ) (rows : List OutboxEvent)
    → ((e : OutboxEvent) → is_claimable now e ≡ true → busy e.id ≡ false → P e → Q e)
    → All P rows
    → All Q (claimed_rows busy limit now rows)
unfolding claimed_rows
claimed_rows-All P Q busy limit now rows f all =
    take-All Q limit _
      (oldest_first-All Q _ (select_all-All P Q _ rows (λ e h. f e (both e h).0 (both e h).1) all))
  where
    both :
        (e : OutboxEvent)
        → (is_claimable now e && not (busy e.id)) ≡ true
        → (is_claimable now e ≡ true) × (busy e.id ≡ false)
    both e h = ground arith

-- Every row of a table is one of it.
pub own_rows : {A : Type 0} (xs : List A) → All (λ x. Any (λ y. y ≡ x) xs) xs
own_rows [] = tt
own_rows (x ∷ xs) = (inl refl, All-mono _ _ (λ y k. inr k) xs (own_rows xs))

module _ (q : OutboxEvent → Bool) where
  exists_row-insert_by_age :
      (e : OutboxEvent) (xs : List OutboxEvent)
      → exists_row q (insert_by_age e xs) ≡ (q e || exists_row q xs)
  unfolding insert_by_age exists_row
  exists_row-insert_by_age e [] = refl
  exists_row-insert_by_age e (x ∷ xs) = elim (Bool-cases (leb e.created_at x.created_at)) [
    | inl h ↦ rw h refl
    | inr h ↦ rw (h, exists_row-insert_by_age e xs) (ground arith)
  ]

  pub exists_row-oldest_first :
      (xs : List OutboxEvent) → exists_row q (oldest_first xs) ≡ exists_row q xs
  unfolding oldest_first exists_row
  exists_row-oldest_first [] = refl
  exists_row-oldest_first (x ∷ xs) =
      rw (exists_row-insert_by_age x (oldest_first xs), exists_row-oldest_first xs) refl

-- The row with the id of `e` is among `xs`.
abbrev pub IsIn : List OutboxEvent → OutboxEvent → Type 0
IsIn xs e = exists_row (λ (c : OutboxEvent). c.id == e.id) xs ≡ true

pub select_all_complete :
    (p : OutboxEvent → Bool) (xs : List OutboxEvent)
    → All (λ e. p e ≡ true → IsIn (select_all p xs) e) xs
unfolding select_all exists_row
select_all_complete p [] = tt
select_all_complete p (x ∷ xs) = elim (Bool-cases (p x)) [
  | inl h ↦ (
    (λ k. rw h (ground arith)),
    All-mono _ _ (λ e f k. rw h (ground (arith, f k))) xs (select_all_complete p xs),
  )
  | inr h ↦ ((λ k. absurd cc), All-mono _ _ (λ e f k. rw h (f k)) xs (select_all_complete p xs))
]

pub take-all : (n : ℕ) (xs : List OutboxEvent) → length (take n xs) < n → take n xs ≡ xs
take-all zero xs h = absurd (omega (arith, h))
take-all (suc n) [] h = refl
take-all (suc n) (x ∷ xs) h = ap (λ ys. x ∷ ys) (take-all n xs (omega (arith, h)))
