-- ===== src/Outbox/Order.antt =====
-- `ORDER BY created_at ASC LIMIT …` of internal/outbox/outbox_repository.go: the rows come by age, and
-- those that are left out are the newest.
use go_auth_api.Base.{
  All, All-mono, Bool, Bool-cases, List, [], arith, inl, inr, leb, suc, take, true, zero, ℕ, ◌∷◌,
  ◌≡◌, ◌≤◌, ◌⊎◌,
}
use go_auth_api.Models.Event.{OutboxEvent}
use go_auth_api.Outbox.Selected.{IsIn, insert_by_age-All, take-All}
use go_auth_api.Repo.Outbox.{insert_by_age, oldest_first, select_all}
use go_auth_api.Sql.{exists_row}
use go_auth_api.Sql.Laws.{All-trivial}

-- Every event is at least as old as those after it.
abbrev pub Ascending : List OutboxEvent → Type 0
Ascending [] = Unit
Ascending (x ∷ xs) = All (λ (y : OutboxEvent). x.created_at ≤ y.created_at) xs × Ascending xs

insert_by_age-Ascending :
    (e : OutboxEvent) (xs : List OutboxEvent) → Ascending xs → Ascending (insert_by_age e xs)
unfolding insert_by_age
insert_by_age-Ascending e [] h = (tt, tt)
insert_by_age-Ascending e (x ∷ xs) (older, h) = elim (Bool-cases (leb e.created_at x.created_at)) [
  | inl le ↦ rw le ((ground arith, All-mono _ _ (λ y k. ground (arith, k)) xs older), (older, h))
  | inr gt ↦ rw gt (insert_by_age-All _ e xs (ground arith) older, insert_by_age-Ascending e xs h)
]

pub oldest_first-Ascending : (xs : List OutboxEvent) → Ascending (oldest_first xs)
unfolding oldest_first
oldest_first-Ascending [] = tt
oldest_first-Ascending (x ∷ xs) =
    insert_by_age-Ascending x (oldest_first xs) (oldest_first-Ascending xs)

pub take-Ascending : (n : ℕ) (xs : List OutboxEvent) → Ascending xs → Ascending (take n xs)
take-Ascending zero xs h = tt
take-Ascending (suc n) [] h = tt
take-Ascending (suc n) (x ∷ xs) (older, h) = (take-All _ n xs older, take-Ascending n xs h)

-- An event is among those, or no older than any of them.
abbrev pub IsInOrNewer : List OutboxEvent → OutboxEvent → Type 0
IsInOrNewer xs e = IsIn xs e ⊎ All (λ (c : OutboxEvent). c.created_at ≤ e.created_at) xs

All-of_both :
    (P Q R : OutboxEvent → Type 0) (xs : List OutboxEvent)
    → ((e : OutboxEvent) → P e → Q e → R e)
    → All P xs
    → All Q xs
    → All R xs
All-of_both P Q R [] f hp hq = tt
All-of_both P Q R (x ∷ xs) f (p, hp) (q, hq) = (f x p q, All-of_both P Q R xs f hp hq)

take_oldest : (n : ℕ) (xs : List OutboxEvent) → Ascending xs → All (IsInOrNewer (take n xs)) xs
unfolding exists_row
take_oldest zero xs h = All-mono _ _ (λ e k. inr tt) xs (All-trivial xs)
take_oldest (suc n) [] h = tt
take_oldest (suc n) (x ∷ xs) (older, h) =
    (inl (ground arith), All-of_both _ _ _ xs later older (take_oldest n xs h))
  where
    later :
        (e : OutboxEvent)
        → x.created_at ≤ e.created_at
        → IsInOrNewer (take n xs) e
        → IsInOrNewer (x ∷ take n xs) e
    later e le (inl among) = inl (ground (arith, among))
    later e le (inr newer) = inr (le, newer)

module _ (P : OutboxEvent → Type 0) where
  All-insert_by_age :
      (e : OutboxEvent) (xs : List OutboxEvent) → All P (insert_by_age e xs) → P e × All P xs
  unfolding insert_by_age
  All-insert_by_age e [] = λ h. h
  All-insert_by_age e (x ∷ xs) = elim (Bool-cases (leb e.created_at x.created_at)) [
    | inl le ↦ rw le (λ h. h)
    | inr gt ↦ rw gt (λ (px, h). let (pe, all) = All-insert_by_age e xs h in (pe, (px, all)))
  ]

  All-oldest_first : (xs : List OutboxEvent) → All P (oldest_first xs) → All P xs
  unfolding oldest_first
  All-oldest_first [] h = tt
  All-oldest_first (x ∷ xs) h =
      let (px, all) = All-insert_by_age x (oldest_first xs) h in (px, All-oldest_first xs all)

  All-select_all :
      (p : OutboxEvent → Bool) (xs : List OutboxEvent)
      → All P (select_all p xs)
      → All (λ e. p e ≡ true → P e) xs
  unfolding select_all
  All-select_all p [] = λ h. tt
  All-select_all p (x ∷ xs) = elim (Bool-cases (p x)) [
    | inl e ↦ rw e (λ (px, h). ((λ k. px), All-select_all p xs h))
    | inr e ↦ rw e (λ h. ((λ k. absurd cc), All-select_all p xs h))
  ]

-- A selected row is among the first `n` by age, or no older than any of them.
pub select_oldest :
    (p : OutboxEvent → Bool) (n : ℕ) (xs : List OutboxEvent)
    → All (λ e. p e ≡ true → IsInOrNewer (take n (oldest_first (select_all p xs))) e) xs
select_oldest p n xs = All-select_all _ p xs (
    All-oldest_first _ (select_all p xs)
      (take_oldest n _ (oldest_first-Ascending (select_all p xs))))
