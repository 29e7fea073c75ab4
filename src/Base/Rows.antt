-- ===== src/Base/Rows.antt =====
-- Laws of the row operations of Base/Lists: what `UPDATE`, `SELECT`, `ORDER BY` and `LIMIT` keep
-- of a property of every row.
use nsp_platform.Base.{
  leb, ℕ, zero, suc, ◌≤◌, ◌≡◌, refl, ap, Bool, true, false, List, [], ◌∷◌, ◌++◌, inl, inr, arith,
  Bool-cases,
}
use nsp_platform.Base.Lists.{All, length, take, select, update_where, any_row, insert_by, order_by}

module _ {ℓ} {A : Type ℓ} where
  pub All-map {κ μ} :
      (P : A → Type κ) (Q : A → Type μ)
      → ((x : A) → P x → Q x)
      → (xs : List A) → All P xs
      → All Q xs
  All-map P Q f [] h = tt
  All-map P Q f (x ∷ xs) h = (f x h.0, All-map P Q f xs h.1)

  pub All-Unit : (xs : List A) → All (λ x. Unit {0}) xs
  All-Unit [] = tt
  All-Unit (x ∷ xs) = (tt, All-Unit xs)

  pub All-append {κ} : (P : A → Type κ) (xs ys : List A) → All P xs → All P ys → All P (xs ++ ys)
  All-append P [] ys h k = k
  All-append P (x ∷ xs) ys h k = (h.0, All-append P xs ys h.1 k)

  -- A row that is updated has to satisfy `Q` afterwards.
  pub All-update_where {κ μ} :
      (P : A → Type κ) (Q : A → Type μ) (p : A → Bool) (f : A → A) (rows : List A)
      → ((r : A) → P r → p r ≡ true → Q (f r))
      → ((r : A) → P r → p r ≡ false → Q r)
      → All P rows
      → All Q (update_where p f rows)
  All-update_where P Q p f [] hit miss h = tt
  All-update_where P Q p f (r ∷ rows) hit miss h =
      let rest = All-update_where P Q p f rows hit miss h.1 in
      elim (Bool-cases (p r)) [
        | inl e ↦ rw (e, update_where) (hit r h.0 e, rest)
        | inr e ↦ rw (e, update_where) (miss r h.0 e, rest)
      ]

  pub All-select {κ} :
      (P : A → Type κ) (p : A → Bool) (rows : List A)
      → All P rows
      → All (λ r. P r × (p r ≡ true)) (select p rows)
  All-select P p [] h = tt
  All-select P p (r ∷ rows) h = elim (Bool-cases (p r)) [
    | inl e ↦ rw (e, select) ((h.0, e), All-select P p rows h.1)
    | inr e ↦ rw (e, select) (All-select P p rows h.1)
  ]

  pub All-take {κ} : (P : A → Type κ) (n : ℕ) (xs : List A) → All P xs → All P (take n xs)
  All-take P zero xs h = tt
  All-take P (suc n) [] h = tt
  All-take P (suc n) (x ∷ xs) h = (h.0, All-take P n xs h.1)

  pub length-take-le : (n : ℕ) (xs : List A) → length (take n xs) ≤ n
  length-take-le zero xs = omega arith
  length-take-le (suc n) [] = omega arith
  length-take-le (suc n) (x ∷ xs) = omega (arith, length-take-le n xs)

  pub any_row-false :
      (p : A → Bool) (rows : List A) → All (λ r. p r ≡ false) rows → any_row p rows ≡ false
  any_row-false p [] h = refl
  any_row-false p (r ∷ rows) h = rw (h.0, any_row) (any_row-false p rows h.1)

  pub All-any_row :
      (p : A → Bool) (rows : List A) → any_row p rows ≡ false → All (λ r. p r ≡ false) rows
  All-any_row p [] h = tt
  All-any_row p (r ∷ rows) h = elim (Bool-cases (p r)) [
    | inl e ↦ cc (rw (e, any_row) at h)
    | inr e ↦ (e, All-any_row p rows (rw (e, any_row) at h))
  ]

  pub update_where-none :
      (p : A → Bool) (f : A → A) (rows : List A)
      → All (λ r. p r ≡ false) rows
      → update_where p f rows ≡ rows
  update_where-none p f [] h = refl
  update_where-none p f (r ∷ rows) h =
      rw (h.0, update_where) (ap (◌∷◌ r) (update_where-none p f rows h.1))

module _ {ℓ κ} {A : Type ℓ} (P : A → Type κ) (key : A → ℕ) where
  All-insert_by : (x : A) (xs : List A) → P x → All P xs → All P (insert_by key x xs)
  All-insert_by x [] h k = (h, tt)
  All-insert_by x (y ∷ ys) h k = elim (Bool-cases (leb (key x) (key y))) [
    | inl e ↦ rw (e, insert_by) (h, k)
    | inr e ↦ rw (e, insert_by) (k.0, All-insert_by x ys h k.1)
  ]

  pub All-order_by : (xs : List A) → All P xs → All P (order_by key xs)
  All-order_by [] h = tt
  All-order_by (x ∷ xs) h = All-insert_by x (order_by key xs) h.0 (All-order_by xs h.1)
