-- ===== src/Sql/Laws.antt =====
-- What a `SELECT` finds after an `UPDATE` or a `DELETE`.
use go_auth_api.Base.{
  All, Any, Bool, Bool-cases, List, [], arith, false, if◌then◌else◌, inl, inr, none, refl, some,
  true, ◌∷◌, ◌≡◌,
}
use go_auth_api.Sql.{delete_rows, exists_row, select_one, update_rows}

module _ {A : Type 0} where
  -- A row that is found stands in the table and satisfies the `WHERE`.
  pub select_one_sound :
      (p : A → Bool) (P : A → Type 0) (xs : List A) (a : A)
      → All P xs
      → select_one p xs ≡ some a
      → (p a ≡ true) × P a
  unfolding select_one
  select_one_sound p P [] a h e = cc
  select_one_sound p P (x ∷ xs) a h e = ground (arith, select_one_sound p P xs a h.1)

  -- An update that makes no row satisfy a `WHERE` or stop to satisfy it leaves the test alone.
  pub exists_row-update_rows :
      (q p : A → Bool) (f : A → A) (xs : List A)
      → ((a : A) → p a ≡ true → q (f a) ≡ q a)
      → exists_row q (update_rows p f xs) ≡ exists_row q xs
  unfolding exists_row update_rows
  exists_row-update_rows q p f [] h = refl
  exists_row-update_rows q p f (x ∷ xs) h = ground (arith, h x, exists_row-update_rows q p f xs h)

  pub All-update_rows :
      (P : A → Type 0) (p : A → Bool) (f : A → A) (xs : List A)
      → ((a : A) → p a ≡ true → P a → P (f a))
      → All P xs
      → All P (update_rows p f xs)
  unfolding update_rows
  All-update_rows P p f [] h all = tt
  All-update_rows P p f (x ∷ xs) h (px, all) = elim (Bool-cases (p x)) [
    | inl e ↦ rw e (h x e px, All-update_rows P p f xs h all)
    | inr e ↦ rw e (px, All-update_rows P p f xs h all)
  ]

  pub All-delete_rows :
      (P : A → Type 0) (p : A → Bool) (xs : List A) → All P xs → All P (delete_rows p xs)
  unfolding delete_rows
  All-delete_rows P p [] all = tt
  All-delete_rows P p (x ∷ xs) (px, all) = elim (Bool-cases (p x)) [
    | inl e ↦ rw e (All-delete_rows P p xs all)
    | inr e ↦ rw e (px, All-delete_rows P p xs all)
  ]

  -- Every row after an update is a row of before, or the update of one that the `WHERE` admitted.
  pub update_rows_pointwise :
      (P : A → Type 0) (p : A → Bool) (f : A → A) (xs : List A)
      → ((a : A) → p a ≡ true → P (f a))
      → ((a : A) → p a ≡ false → P a)
      → All P (update_rows p f xs)
  unfolding update_rows
  update_rows_pointwise P p f [] h k = tt
  update_rows_pointwise P p f (x ∷ xs) h k = elim (Bool-cases (p x)) [
    | inl e ↦ rw e (h x e, update_rows_pointwise P p f xs h k)
    | inr e ↦ rw e (k x e, update_rows_pointwise P p f xs h k)
  ]

  -- A `SELECT` after an update that leaves the `WHERE` of the select alone finds the updated row.
  pub select_one-update_rows :
      (q p : A → Bool) (f : A → A) (xs : List A)
      → ((a : A) → p a ≡ true → q (f a) ≡ q a)
      → select_one q (update_rows p f xs)
        ≡ elim (select_one q xs) [ none ↦ none | some a ↦ some (if p a then f a else a) ]
  unfolding select_one update_rows
  select_one-update_rows q p f [] h = refl
  select_one-update_rows q p f (x ∷ xs) h = ground (arith, h x, select_one-update_rows q p f xs h)

pub All-trivial : {A : Type 0} (xs : List A) → All (λ _. Unit {0}) xs
All-trivial [] = tt
All-trivial (x ∷ xs) = (tt, All-trivial xs)

module _ {A : Type 0} where
  -- An update takes each row from one predicate to another.
  pub update_rows_takes :
      (P Q : A → Type 0) (p : A → Bool) (f : A → A) (xs : List A)
      → ((a : A) → p a ≡ true → P a → Q (f a))
      → ((a : A) → p a ≡ false → P a → Q a)
      → All P xs
      → All Q (update_rows p f xs)
  unfolding update_rows
  update_rows_takes P Q p f [] h k all = tt
  update_rows_takes P Q p f (x ∷ xs) h k (px, all) = elim (Bool-cases (p x)) [
    | inl e ↦ rw e (h x e px, update_rows_takes P Q p f xs h k all)
    | inr e ↦ rw e (k x e px, update_rows_takes P Q p f xs h k all)
  ]

  -- Nothing is found where no row satisfies the `WHERE`.
  pub select_one-none :
      (p : A → Bool) (xs : List A) → All (λ a. p a ≡ false) xs → select_one p xs ≡ none
  unfolding select_one
  select_one-none p [] all = refl
  select_one-none p (x ∷ xs) (e, all) = rw e (select_one-none p xs all)

  -- A row that satisfies the test is found.
  pub exists_row-Any :
      (p : A → Bool) (P : A → Type 0) (xs : List A)
      → ((a : A) → P a → p a ≡ true)
      → Any P xs
      → exists_row p xs ≡ true
  unfolding exists_row
  exists_row-Any p P [] h here = absurd here
  exists_row-Any p P (x ∷ xs) h (inl px) = rw (h x px) refl
  exists_row-Any p P (x ∷ xs) h (inr there) = ground (arith, exists_row-Any p P xs h there)
