-- ===== src/Sql.antt =====
-- The SQL that the repositories send, on tables as lists of rows: `SELECT` of one row, `UPDATE`
-- and `DELETE` with a `WHERE`, and the test of a uniqueness constraint.
pub mod Laws
use go_auth_api.Base.{Bool, List, Option, [], false, if◌then◌else◌, none, some, ◌||◌, ◌∷◌}
use go_auth_api.Errors.{no_rows}
use go_auth_api.World.{Outcome, err, ok}

module _ {A : Type 0} where
  unfoldable pub exists_row : (A → Bool) → List A → Bool
  exists_row p [] = false
  exists_row p (x ∷ xs) = p x || exists_row p xs

  -- `QueryRow`: the first row that the `WHERE` admits.
  unfoldable pub select_one : (A → Bool) → List A → Option A
  select_one p [] = none
  select_one p (x ∷ xs) = if p x then some x else select_one p xs

  unfoldable pub update_rows : (A → Bool) → (A → A) → List A → List A
  update_rows p f [] = []
  update_rows p f (x ∷ xs) = (if p x then f x else x) ∷ update_rows p f xs

  unfoldable pub delete_rows : (A → Bool) → List A → List A
  delete_rows p [] = []
  delete_rows p (x ∷ xs) = if p x then delete_rows p xs else x ∷ delete_rows p xs

-- `Scan` after `QueryRow`: no row is the error `sql.ErrNoRows`.
abbrev pub scan_row : {A : Type 0} → Option A → Outcome A
scan_row none = err no_rows
scan_row (some a) = ok a
