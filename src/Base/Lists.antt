-- ===== src/Base/Lists.antt =====
-- Lists measured by native numbers, and the row operations that the SQL statements are made of:
-- a table is a list of rows, `WHERE` a Boolean test of a row.
use nsp_platform.Base.{ℕ, zero, suc, leb, Bool, true, false, Option, none, some, List, [], ◌∷◌}

abbrev pub All {ℓ κ} : {A : Type ℓ} → (A → Type κ) → List A → Type κ
All P [] = Unit
All P (x ∷ xs) = P x × All P xs

module _ {ℓ} {A : Type ℓ} where
  abbrev pub length : List A → ℕ
  length [] = 0
  length (x ∷ xs) = suc (length xs)

  abbrev pub get_elem? : List A → ℕ → Option A
  get_elem? [] i = none
  get_elem? (x ∷ xs) zero = some x
  get_elem? (x ∷ xs) (suc i) = get_elem? xs i

  abbrev pub take : ℕ → List A → List A
  take zero xs = []
  take (suc n) [] = []
  take (suc n) (x ∷ xs) = x ∷ take n xs

  abbrev pub drop : ℕ → List A → List A
  drop zero xs = xs
  drop (suc n) [] = []
  drop (suc n) (x ∷ xs) = drop n xs

  -- `SELECT … WHERE p`.
  abbrev pub select : (A → Bool) → List A → List A
  select p [] = []
  select p (x ∷ xs) = let rest = select p xs in elim (p x) [ true ↦ x ∷ rest | false ↦ rest ]

  -- `SELECT … WHERE p` read by `QueryRow`: the first row.
  abbrev pub find_row : (A → Bool) → List A → Option A
  find_row p [] = none
  find_row p (x ∷ xs) = let rest = find_row p xs in elim (p x) [ true ↦ some x | false ↦ rest ]

  -- `UPDATE … SET f WHERE p`.
  abbrev pub update_where : (A → Bool) → (A → A) → List A → List A
  update_where p f [] = []
  update_where p f (x ∷ xs) =
      let rest = update_where p f xs in elim (p x) [ true ↦ f x ∷ rest | false ↦ x ∷ rest ]

  -- Whether `RowsAffected` is positive.
  abbrev pub any_row : (A → Bool) → List A → Bool
  any_row p [] = false
  any_row p (x ∷ xs) = let rest = any_row p xs in elim (p x) [ true ↦ true | false ↦ rest ]

  -- `DELETE … WHERE p`.
  abbrev pub delete_where : (A → Bool) → List A → List A
  delete_where p [] = []
  delete_where p (x ∷ xs) =
      let rest = delete_where p xs in elim (p x) [ true ↦ rest | false ↦ x ∷ rest ]

  abbrev pub insert_by : (A → ℕ) → A → List A → List A
  insert_by key x [] = x ∷ []
  insert_by key x (y ∷ ys) =
      let rest = insert_by key x ys in
      elim (leb (key x) (key y)) [ true ↦ x ∷ y ∷ ys | false ↦ y ∷ rest ]

  -- `ORDER BY key`, rows of one key in the table's order.
  abbrev pub order_by : (A → ℕ) → List A → List A
  order_by key [] = []
  order_by key (x ∷ xs) = insert_by key x (order_by key xs)
