-- ===== src/Base/Visible.antt =====
-- Texts without blanks and commas, such as keys and hexadecimal numbers: trimming leaves them, and
-- they are one piece of a text that is split at commas.
use Prim.Native.Char.{Char}
use Prim.Native.String.{◌++◌}
use nsp_platform.Base.{
  ◌≡◌, refl, ap, ◌∙◌, sym, String, Bool, true, false, not, ◌&&◌, [], ◌∷◌, some, Bool-cases, inl,
  inr, &&-left, &&-right, arith,
}
use text.Mathlib.TextLemmas.{nil-append, cons-append}
use nsp_platform.Base.Text.{
  is_char, is_space, is_empty, trim_left, trim_right, trim_space, has_char, split_at,
}
use nsp_platform.Base.Hex.{is_hex_digit, all_hex}
use nsp_platform.Base.Split.{split_pair, extend_head}

abbrev pub is_visible : Char → Bool
is_visible c = not (is_space c) && not (is_char 44 c)

unfoldable pub all_visible : String → Bool
all_visible String.[] = true
all_visible (String.◌∷◌ c s) = is_visible c && all_visible s

visible-space : (c : Char) → is_visible c ≡ true → is_space c ≡ false
visible-space c h = ground arith

visible-comma : (c : Char) → is_visible c ≡ true → is_char 44 c ≡ false
visible-comma c h = ground arith

&&-false : (a : Bool) → (a && false) ≡ false
&&-false true = refl
&&-false false = refl

trim_right-cons :
    (c : Char) (s : String)
    → is_space c ≡ false
    → trim_right (String.◌∷◌ c s) ≡ String.◌∷◌ c (trim_right s)
unfolding trim_right
trim_right-cons c s h = rw (trim_right, h, &&-false (is_empty (trim_right s))) refl

trim_left-cons :
    (c : Char) (s : String) → is_space c ≡ false → trim_left (String.◌∷◌ c s) ≡ String.◌∷◌ c s
unfolding trim_left
trim_left-cons c s h = rw (trim_left, h) refl

trim_right-visible : (s : String) → all_visible s ≡ true → trim_right s ≡ s
unfolding all_visible trim_right
trim_right-visible String.[] h = refl
trim_right-visible (String.◌∷◌ c s) h =
    let c_visible = &&-left (is_visible c) (all_visible s) h in
    let s_visible = &&-right (is_visible c) (all_visible s) h in
    trim_right-cons c s (visible-space c c_visible)
    ∙ ap (String.◌∷◌ c) (trim_right-visible s s_visible)

pub trim_space-visible : (s : String) → all_visible s ≡ true → trim_space s ≡ s
unfolding all_visible trim_space trim_left trim_right
trim_space-visible String.[] h = refl
trim_space-visible (String.◌∷◌ c s) h =
    rw (trim_left-cons c s (visible-space c (&&-left (is_visible c) (all_visible s) h)))
      (trim_right-visible (String.◌∷◌ c s) h)

split_pair-cons :
    (c d : Char) (s : String)
    → is_char 44 c ≡ false
    → split_pair 44 32 (String.◌∷◌ c (String.◌∷◌ d s))
      ≡ extend_head c (split_pair 44 32 (String.◌∷◌ d s))
unfolding split_pair
split_pair-cons c d s h = rw (split_pair, h) refl

-- The first piece ends at the first ", ".
pub split_pair-append :
    (s rest : String)
    → all_visible s ≡ true
    → split_pair 44 32 (s ++ String.◌∷◌ "," (String.◌∷◌ " " rest)) ≡ s ∷ split_pair 44 32 rest
unfolding split_pair all_visible
split_pair-append String.[] rest h = rw (nil-append (String.◌∷◌ "," (String.◌∷◌ " " rest))) refl
split_pair-append (String.◌∷◌ c String.[]) rest h =
    rw
      (
        cons-append c "" (String.◌∷◌ "," (String.◌∷◌ " " rest)),
        nil-append (String.◌∷◌ "," (String.◌∷◌ " " rest)),
      )
      (split_pair-cons c "," (String.◌∷◌ " " rest)
        (visible-comma c (&&-left (is_visible c) true h)))
split_pair-append (String.◌∷◌ c (String.◌∷◌ d s)) rest h =
    let tail = String.◌∷◌ "," (String.◌∷◌ " " rest) in
    rw (cons-append c (String.◌∷◌ d s) tail, cons-append d s tail)
      (split_pair-cons c d (s ++ tail) (visible-comma c (&&-left (is_visible c) _ h))
        ∙ ap (λ u. extend_head c (split_pair 44 32 u)) (sym (cons-append d s tail))
        ∙ ap (extend_head c)
            (split_pair-append (String.◌∷◌ d s) rest (&&-right (is_visible c) _ h)))

pub split_pair-visible : (s : String) → all_visible s ≡ true → split_pair 44 32 s ≡ s ∷ []
unfolding split_pair all_visible
split_pair-visible String.[] h = refl
split_pair-visible (String.◌∷◌ c String.[]) h = refl
split_pair-visible (String.◌∷◌ c (String.◌∷◌ d s)) h =
    split_pair-cons c d s (visible-comma c (&&-left (is_visible c) _ h))
    ∙ ap (extend_head c) (split_pair-visible (String.◌∷◌ d s) (&&-right (is_visible c) _ h))

pub all_visible-append :
    (s t : String) → all_visible s ≡ true → all_visible t ≡ true → all_visible (s ++ t) ≡ true
unfolding all_visible
all_visible-append String.[] t h k = rw (nil-append t) k
all_visible-append (String.◌∷◌ c s) t h k =
    rw (cons-append c s t, all_visible, &&-left (is_visible c) _ h)
      (all_visible-append s t (&&-right (is_visible c) _ h) k)

-- What stands before and behind the first "=".
pub split_at-append :
    (s t : String) → has_char 61 s ≡ false → split_at 61 (s ++ String.◌∷◌ "=" t) ≡ some (s, t)
unfolding split_at has_char
split_at-append String.[] t h = rw (nil-append (String.◌∷◌ "=" t)) refl
split_at-append (String.◌∷◌ c s) t h = elim (Bool-cases (is_char 61 c)) [
  | inl e ↦ cc (rw (has_char, e) at h)
  | inr e ↦
      rw (cons-append c s (String.◌∷◌ "=" t), split_at, e)
        (rw (split_at-append s t (rw (has_char, e) at h)) refl)
]

hex-visible : (c : Char) → is_hex_digit c ≡ true → is_visible c ≡ true
hex-visible c h = ground arith

pub all_hex-visible : (s : String) → all_hex s ≡ true → all_visible s ≡ true
unfolding all_visible all_hex
all_hex-visible String.[] h = refl
all_hex-visible (String.◌∷◌ c s) h =
    rw (all_visible, hex-visible c (&&-left (is_hex_digit c) _ h))
      (all_hex-visible s (&&-right (is_hex_digit c) _ h))
