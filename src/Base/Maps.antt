-- ===== src/Base/Maps.antt =====
-- Maps with text keys: the first entry of a key counts, and a write replaces it.
use mathlib.Core.Path.{◌≡◌, refl}
use mathlib.Core.Logic.{inl, inr}
use nsp_platform.Base.{
  String, true, false, Option, none, some, List, [], ◌∷◌, str_eq, Bool-cases, str_eq_refl,
  str_eq→eq,
}

module _ {ℓ} {A : Type ℓ} where
  -- `v, ok := m[key]`.
  abbrev pub lookup : String → List (String × A) → Option A
  lookup key [] = none
  lookup key ((k, v) ∷ m) =
      let rest = lookup key m in elim (str_eq k key) [ true ↦ some v | false ↦ rest ]

  -- `m[key] = v`.
  abbrev pub put : String → A → List (String × A) → List (String × A)
  put key v [] = (key, v) ∷ []
  put key v ((k, u) ∷ m) =
      let rest = put key v m in elim (str_eq k key) [ true ↦ (key, v) ∷ m | false ↦ (k, u) ∷ rest ]

  pub lookup-put :
      (key : String) (v : A) (m : List (String × A)) → lookup key (put key v m) ≡ some v
  lookup-put key v [] = rw (put, lookup, str_eq_refl key) refl
  lookup-put key v ((k, u) ∷ m) = elim (Bool-cases (str_eq k key)) [
    | inl e ↦ rw (e, lookup, str_eq_refl key) refl
    | inr e ↦ rw (e, lookup, e) (lookup-put key v m)
  ]

  pub lookup-put_other :
      (key other : String) (v : A) (m : List (String × A))
      → str_eq key other ≡ false
      → lookup other (put key v m) ≡ lookup other m
  lookup-put_other key other v [] h = rw (put, lookup, h) refl
  lookup-put_other key other v ((k, u) ∷ m) h = elim (Bool-cases (str_eq k key)) [
    | inl e ↦ rw (e, lookup, h, lookup, str_eq→eq k key e, h) refl
    | inr e ↦ elim (Bool-cases (str_eq k other)) [
      | inl f ↦ rw (e, lookup, f) refl
      | inr f ↦ rw (e, lookup, f) (lookup-put_other key other v m h)
    ]
  ]
