-- ===== src/Base/Split.antt =====
-- `strings.Split`, `strings.Join` and `sort.Strings`, for the separators that the code uses.
use Prim.Native.Char.{Char}
use Prim.Native.String.{compare, ◌++◌}
use text.Mathlib.Text.{is_le}
use nsp_platform.Base.{ℕ, String, true, false, List, [], ◌∷◌, ◌&&◌}
use nsp_platform.Base.Text.{is_char}

-- Puts a character before the first piece.
abbrev pub extend_head : Char → List String → List String
extend_head c [] = String.◌∷◌ c String.[] ∷ []
extend_head c (p ∷ ps) = String.◌∷◌ c p ∷ ps

-- `Split(s, sep)` for one character.
unfoldable pub split : ℕ → String → List String
split k String.[] = "" ∷ []
split k (String.◌∷◌ c s) =
    let rest = split k s in elim (is_char k c) [ true ↦ "" ∷ rest | false ↦ extend_head c rest ]

-- `Split(s, sep)` for a separator of two characters that differ. What the first of them begins is
-- decided at the character behind it.
unfoldable pub split_pair : ℕ → ℕ → String → List String
split_pair k l String.[] = "" ∷ []
split_pair k l (String.◌∷◌ c String.[]) = String.◌∷◌ c String.[] ∷ []
split_pair k l (String.◌∷◌ c (String.◌∷◌ d s)) = elim (is_char k c && is_char l d) [
  | true ↦ "" ∷ split_pair k l s
  | false ↦ extend_head c (split_pair k l (String.◌∷◌ d s))
]

-- `Join(list, sep)`.
abbrev pub join : String → List String → String
join sep [] = ""
join sep (s ∷ []) = s
join sep (s ∷ t ∷ r) = s ++ sep ++ join sep (t ∷ r)

abbrev insert : String → List String → List String
insert s [] = s ∷ []
insert s (t ∷ ts) =
    let rest = insert s ts in elim (is_le (compare s t)) [ true ↦ s ∷ t ∷ ts | false ↦ t ∷ rest ]

unfoldable pub sort_strings : List String → List String
sort_strings [] = []
sort_strings (s ∷ ts) = insert s (sort_strings ts)
