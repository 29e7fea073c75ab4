-- ===== src/Base/Decimal.antt =====
-- `strconv.ParseInt` reads back what `strconv.FormatInt` writes.
use Prim.Native.Char.{Char, code}
use nsp_platform.Base.{
  ℕ, zero, suc, ◌+◌, ◌-◌, ◌*◌, ◌/◌, ◌%◌, ◌^◌, ◌≤◌, ◌<◌, ◌≡◌, refl, ap, ◌∙◌, sym, String, true,
  false, List, [], ◌∷◌, some, arith,
}
use nsp_platform.Base.Int.{pos}
use nsp_platform.Base.Lists.{length}
use nsp_platform.Base.Text.{
  nth_char, decimal_digits, digit, show_digits, show_nat, digits_value, signed, atoi, at_most, same,
  is_empty, int_limit,
}

abbrev Digits : ℕ → List Char → Type 0
Digits k [] = Unit
Digits k (c ∷ cs) = (code c ≡ k) × Digits (suc k) cs

nth_char-code :
    (n k : ℕ) (cs : List Char) → Digits k cs → n < length cs → code (nth_char "9" n cs) ≡ k + n
nth_char-code n k [] h l = absurd (omega arith)
nth_char-code zero k (c ∷ cs) h l = h.0 ∙ omega arith
nth_char-code (suc n) k (c ∷ cs) h l = nth_char-code n (suc k) cs h.1 (omega arith) ∙ omega arith

digit-code : (n : ℕ) → n < 10 → code (digit n) ≡ 48 + n
unfolding digit
digit-code n l =
    nth_char-code n 48 decimal_digits
      (refl, (refl, (refl, (refl, (refl, (refl, (refl, (refl, (refl, (refl, tt)))))))))) l

digits_value-step :
    (a : ℕ) (c : Char) (s : String)
    → 48 ≤ code c
    → code c ≤ 57
    → digits_value a (String.◌∷◌ c s) ≡ digits_value (a * 10 + (code c - 48)) s
unfolding digits_value
digits_value-step a c s l h = rw (digits_value, low, high) refl
  where
    low : at_most 48 (code c) ≡ true
    low = ground arith

    high : at_most (code c) 57 ≡ true
    high = ground arith

digits_value-cons :
    (a d : ℕ) (s : String)
    → d < 10
    → digits_value a (String.◌∷◌ (digit d) s) ≡ digits_value (a * 10 + d) s
digits_value-cons a d s l =
    let e = digit-code d l in
    digits_value-step a (digit d) s (omega arith) (omega arith)
    ∙ ap (λ v. digits_value v s) (omega arith)

-- The digits of a number, written before a text, are read as that number.
digits_value-round :
    (fuel q d : ℕ) (s : String)
    → d < 10
    → q * 10 + d < 10 ^ suc fuel
    → digits_value 0 (elim q [
      | zero ↦ String.◌∷◌ (digit d) s
      | suc q' ↦ show_digits fuel (suc q') (String.◌∷◌ (digit d) s)
    ])
      ≡ digits_value (q * 10 + d) s
unfolding show_digits
digits_value-round fuel zero d s l b = digits_value-cons 0 d s l
digits_value-round zero (suc q) d s l b = absurd (omega arith)
digits_value-round (suc fuel) (suc q) d s l b =
    digits_value-round fuel (suc q / 10) (suc q % 10) (String.◌∷◌ (digit d) s) (omega arith)
      (omega arith)
    ∙ ap (λ v. digits_value v (String.◌∷◌ (digit d) s)) (omega arith)
    ∙ digits_value-cons (suc q) d s l

abbrev StartsWithDigit : String → Type 0
StartsWithDigit s = (c : Char) × (t : String) × (s ≡ String.◌∷◌ c t) × (48 ≤ code c) × (code c ≤ 57)

digit-StartsWithDigit : (d : ℕ) (s : String) → d < 10 → StartsWithDigit (String.◌∷◌ (digit d) s)
digit-StartsWithDigit d s l = let e = digit-code d l in (digit d, s, refl, omega arith, omega arith)

show_digits-StartsWithDigit :
    (fuel q : ℕ) (s : String)
    → StartsWithDigit s
    → StartsWithDigit (elim q [ zero ↦ s | suc q' ↦ show_digits fuel (suc q') s ])
unfolding show_digits
show_digits-StartsWithDigit fuel zero s h = h
show_digits-StartsWithDigit zero (suc q) s h = h
show_digits-StartsWithDigit (suc fuel) (suc q) s h =
    show_digits-StartsWithDigit fuel (suc q / 10) _
      (digit-StartsWithDigit (suc q % 10) s (omega arith))

show_nat-StartsWithDigit : (n : ℕ) → StartsWithDigit (show_nat n)
unfolding show_nat show_digits
show_nat-StartsWithDigit n =
    show_digits-StartsWithDigit 19 (n / 10) _ (digit-StartsWithDigit (n % 10) "" (omega arith))

digits_value-show_nat : (n : ℕ) → n < 2 ^ 63 → digits_value 0 (show_nat n) ≡ some n
unfolding show_nat show_digits digits_value
digits_value-show_nat n l =
    digits_value-round 19 (n / 10) (n % 10) "" (omega arith) (omega arith) ∙ ap some (omega arith)

atoi-digits :
    (n : ℕ) (s : String)
    → n < 2 ^ 63
    → StartsWithDigit s
    → digits_value 0 s ≡ some n
    → atoi s ≡ some (pos n)
unfolding atoi signed
atoi-digits n s l (c, t, e, low, high) v = rw e (
    rw
      (
        atoi,
        not_sign 45 (omega arith),
        not_sign 43 (omega arith),
        signed,
        ap (digits_value 0) (sym e) ∙ v,
        fits,
      )
      refl)
  where
    not_sign : (k : ℕ) → k < code c → same (code c) k ≡ false
    not_sign k h = ground arith

    fits : at_most int_limit n ≡ false
    fits = ground arith

-- A number that fits into 64 bits is read back from its decimal digits.
pub atoi-show_nat : (n : ℕ) → n < 2 ^ 63 → atoi (show_nat n) ≡ some (pos n)
atoi-show_nat n l =
    atoi-digits n (show_nat n) l (show_nat-StartsWithDigit n) (digits_value-show_nat n l)

pub show_nat-is_empty : (n : ℕ) → is_empty (show_nat n) ≡ false
show_nat-is_empty n = let (c, t, e, low, high) = show_nat-StartsWithDigit n in rw e refl
