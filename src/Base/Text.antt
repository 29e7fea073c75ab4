-- ===== src/Base/Text.antt =====
-- The functions of the packages `strings`, `bytes` and `strconv` that the code walks texts with.
-- All the characters that the code looks for are ASCII, so that walking code points instead of the
-- bytes of UTF-8 finds them at the same places.
use Prim.Native.Nat.{ℕ, zero, suc, ◌+◌, ◌-◌, ◌*◌, ◌/◌, ◌%◌, ◌^◌, compare, Ordering}
use Prim.Native.Char.{Char, code}
use Prim.Native.String.{String, ◌++◌}
use mathlib.Core.Bool.{Bool, true, false, ◌&&◌, ◌||◌}
use mathlib.Core.Option.{Option, none, some}
use mathlib.Core.List.{List, [], ◌∷◌}
use nsp_platform.Base.Int.{ℤ, pos, negsuc}

abbrev pub same : ℕ → ℕ → Bool
same a b = elim (compare a b) [ Ordering.eq ↦ true | _ ↦ false ]

abbrev pub at_most : ℕ → ℕ → Bool
at_most a b = elim (compare a b) [ Ordering.gt ↦ false | _ ↦ true ]

-- `s == ""`.
abbrev pub is_empty : String → Bool
is_empty String.[] = true
is_empty (String.◌∷◌ c s) = false

-- Whether a character is the one with that code.
abbrev pub is_char : ℕ → Char → Bool
is_char k c = same (code c) k

-- Whether a text holds a character.
unfoldable pub has_char : ℕ → String → Bool
has_char k String.[] = false
has_char k (String.◌∷◌ c s) = is_char k c || has_char k s

-- What stands before and behind the first such character: `IndexByte` and the two slices.
unfoldable pub split_at : ℕ → String → Option (String × String)
split_at k String.[] = none
split_at k (String.◌∷◌ c s) =
    let rest = split_at k s in
    elim (is_char k c) [
      | true ↦ some (String.[], s)
      | false ↦ elim rest [ none ↦ none | some (a, b) ↦ some (String.◌∷◌ c a, b) ]
    ]

-- The ASCII part of `unicode.IsSpace`.
abbrev pub is_space : Char → Bool
is_space c = same (code c) 32 || (at_most 9 (code c) && at_most (code c) 13)

unfoldable pub trim_left : String → String
trim_left String.[] = String.[]
trim_left (String.◌∷◌ c s) =
    let rest = trim_left s in elim (is_space c) [ true ↦ rest | false ↦ String.◌∷◌ c s ]

unfoldable pub trim_right : String → String
trim_right String.[] = String.[]
trim_right (String.◌∷◌ c s) =
    let rest = trim_right s in
    elim (is_empty rest && is_space c) [ true ↦ String.[] | false ↦ String.◌∷◌ c rest ]

-- `TrimSpace`.
unfoldable pub trim_space : String → String
unfolding trim_left trim_right
trim_space s = trim_right (trim_left s)

-- The decimal digits read from the left, with the number read so far.
unfoldable pub digits_value : ℕ → String → Option ℕ
digits_value acc String.[] = some acc
digits_value acc (String.◌∷◌ c s) =
    let rest = digits_value (acc * 10 + (code c - 48)) s in
    elim (at_most 48 (code c) && at_most (code c) 57) [ true ↦ rest | false ↦ none ]

abbrev pub int_limit : ℕ
int_limit = 2 ^ 63

unfoldable pub signed : Bool → String → Option ℤ
unfolding digits_value
signed neg String.[] = none
signed true (String.◌∷◌ c s) = elim (digits_value 0 (String.◌∷◌ c s)) [
  | none ↦ none
  | some zero ↦ some (pos 0)
  | some (suc n) ↦ elim (at_most (suc n) int_limit) [ true ↦ some (negsuc n) | false ↦ none ]
]
signed false (String.◌∷◌ c s) = elim (digits_value 0 (String.◌∷◌ c s)) [
  | none ↦ none
  | some n ↦ elim (at_most int_limit n) [ true ↦ none | false ↦ some (pos n) ]
]

-- `strconv.Atoi`: an optional sign, then decimal digits, within 64 bits.
unfoldable pub atoi : String → Option ℤ
unfolding signed
atoi String.[] = none
atoi (String.◌∷◌ c s) = elim (same (code c) 45) [
  | true ↦ signed true s
  | false ↦ elim (same (code c) 43) [
    | true ↦ signed false s
    | false ↦ signed false (String.◌∷◌ c s)
  ]
]

-- The character at a place, the last one for a place beyond the list.
abbrev pub nth_char : Char → ℕ → List Char → Char
nth_char last n [] = last
nth_char last zero (c ∷ cs) = c
nth_char last (suc n) (c ∷ cs) = nth_char last n cs

abbrev pub decimal_digits : List Char
decimal_digits = "0" ∷ "1" ∷ "2" ∷ "3" ∷ "4" ∷ "5" ∷ "6" ∷ "7" ∷ "8" ∷ "9" ∷ []

unfoldable pub digit : ℕ → Char
digit n = nth_char "9" n decimal_digits

-- One round for each digit; a number below `10 ^ fuel` needs no more than `fuel`.
unfoldable pub show_digits : ℕ → ℕ → String → String
unfolding digit
show_digits zero n acc = acc
show_digits (suc fuel) n acc =
    let acc' = String.◌∷◌ (digit (n % 10)) acc in
    elim (n / 10) [ zero ↦ acc' | suc q ↦ show_digits fuel (suc q) acc' ]

-- `strconv.Itoa` of a number that is not negative; 20 digits hold every 64-bit number.
unfoldable pub show_nat : ℕ → String
unfolding show_digits
show_nat n = show_digits 20 n String.[]

-- `strconv.FormatInt(v, 10)`.
unfoldable pub show_int : ℤ → String
unfolding show_nat
show_int (pos n) = show_nat n
show_int (negsuc n) = "-" ++ show_nat (suc n)

-- `strconv.FormatBool`.
abbrev pub show_bool : Bool → String
show_bool true = "true"
show_bool false = "false"

-- The pieces of a `fmt.Sprintf` one behind the other.
abbrev pub texts : List String → String
texts [] = ""
texts (s ∷ []) = s
texts (s ∷ t ∷ r) = s ++ texts (t ∷ r)
