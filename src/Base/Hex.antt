-- ===== src/Base/Hex.antt =====
-- `hex.EncodeToString`, and the texts that `hex.DecodeString` takes.
use Prim.Native.Char.{Char, code}
use nsp_platform.Base.{
  ℕ, zero, suc, ◌/◌, ◌%◌, leb, String, Bool, true, false, List, [], ◌∷◌, ◌&&◌, ◌||◌, ◌≡◌, refl,
}
use nsp_platform.Base.Lists.{length}
use nsp_platform.Base.Text.{nth_char, is_empty}

abbrev hex_digits : List Char
hex_digits =
    "0" ∷ "1" ∷ "2" ∷ "3" ∷ "4" ∷ "5" ∷ "6" ∷ "7" ∷ "8" ∷ "9" ∷ "a" ∷ "b" ∷ "c" ∷ "d" ∷ "e" ∷ []

unfoldable pub nibble : ℕ → Char
nibble n = nth_char "f" n hex_digits

unfoldable pub hex_encode : List ℕ → String
unfolding nibble
hex_encode [] = String.[]
hex_encode (b ∷ bs) = String.◌∷◌ (nibble (b / 16)) (String.◌∷◌ (nibble (b % 16)) (hex_encode bs))

abbrev pub is_hex_digit : Char → Bool
is_hex_digit c =
    (leb 48 (code c) && leb (code c) 57)
    || (leb 97 (code c) && leb (code c) 102)
    || (leb 65 (code c) && leb (code c) 70)

-- Whether every character is a digit of a hexadecimal number.
unfoldable pub all_hex : String → Bool
all_hex String.[] = true
all_hex (String.◌∷◌ c s) = is_hex_digit c && all_hex s

abbrev AllHex : List Char → Type 0
AllHex [] = Unit
AllHex (c ∷ cs) = (is_hex_digit c ≡ true) × AllHex cs

nth_char-hex : (n : ℕ) (cs : List Char) → AllHex cs → is_hex_digit (nth_char "f" n cs) ≡ true
nth_char-hex n [] h = refl
nth_char-hex zero (c ∷ cs) h = h.0
nth_char-hex (suc n) (c ∷ cs) h = nth_char-hex n cs h.1

nibble-hex : (n : ℕ) → is_hex_digit (nibble n) ≡ true
unfolding nibble
nibble-hex n = nth_char-hex n hex_digits (
  refl,
  (
    refl,
    (
      refl,
      (
        refl,
        (refl, (refl, (refl, (refl, (refl, (refl, (refl, (refl, (refl, (refl, (refl, tt))))))))))),
      ),
    ),
  ),
)

pub hex_encode-all_hex : (bs : List ℕ) → all_hex (hex_encode bs) ≡ true
unfolding all_hex hex_encode
hex_encode-all_hex [] = refl
hex_encode-all_hex (b ∷ bs) = rw (nibble-hex (b / 16), nibble-hex (b % 16)) (hex_encode-all_hex bs)

pub hex_encode-is_empty :
    (bs : List ℕ) (n : ℕ) → length bs ≡ suc n → is_empty (hex_encode bs) ≡ false
unfolding hex_encode
hex_encode-is_empty [] n h = cc h
hex_encode-is_empty (b ∷ bs) n h = refl
