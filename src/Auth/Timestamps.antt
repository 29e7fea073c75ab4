-- ===== src/Auth/Timestamps.antt =====
-- Which timestamps parseAndValidateTimestamp accepts.
use nsp_platform.Base.{
  ℕ, ◌+◌, ◌*◌, ◌^◌, ◌≤◌, ◌<◌, ◌≡◌, refl, ap, ◌∙◌, sym, String, Bool, true, false, some, ◌⊎◌, inl,
  inr, ◌↔◌, arith, ◌≢◌, Bool-cases, Option-cases, if◌then◌else◌,
}
use mathlib.Core.Path.{subst}
use nsp_platform.Base.Int.{ℤ, pos, negsuc}
use nsp_platform.Base.Text.{is_empty, atoi}
use nsp_platform.Auth.Errors.{ok, err, timestamp_expired}
use nsp_platform.Auth.Signing.{second}
use nsp_platform.Auth.Header.{
  wrapped_seconds, time_since, magnitude, exceeds, max_duration, unix_to_internal,
  parse_and_validate_timestamp,
}

-- A time in seconds is that close to a clock reading.
abbrev pub IsWithin : ℕ → ℕ → ℕ → Type 0
IsWithin tolerance now s = (s * second ≤ now + tolerance) × (now ≤ s * second + tolerance)

-- Further ahead of the clock than a duration can say.
abbrev pub IsFarAhead : ℕ → ℕ → Type 0
IsFarAhead now s = now + max_duration < s * second

within :
    (now tolerance s : ℕ)
    → tolerance < max_duration
    → exceeds (magnitude (time_since now (pos s))) tolerance ≡ false
    → IsWithin tolerance now s ⊎ IsFarAhead now s
within now tolerance s h e = ground arith

not_exceeding :
    (now tolerance s : ℕ)
    → tolerance < max_duration
    → IsWithin tolerance now s ⊎ IsFarAhead now s
    → exceeds (magnitude (time_since now (pos s))) tolerance ≡ false
not_exceeding now tolerance s h (inl w) = ground arith
not_exceeding now tolerance s h (inr f) = ground arith

unwrapped : (s : ℕ) → s + unix_to_internal < 2 ^ 63 → wrapped_seconds (pos s) ≡ pos s
unwrapped s h = ground arith

pub expired_unless :
    (b : Bool) (s s' : ℤ) → (if b then err timestamp_expired else ok s) ≡ ok s' → b ≡ false
expired_unless true s s' h = cc h
expired_unless false s s' h = refl

-- A decimal timestamp that `time.Unix` does not wrap around is accepted exactly if it lies within
-- the tolerance of the clock, or more than 2 ^ 63 - 1 nanoseconds ahead of it.
pub validate_iff :
    (now tolerance s : ℕ) (text : String)
    → tolerance < max_duration
    → s + unix_to_internal < 2 ^ 63
    → is_empty text ≡ false
    → atoi text ≡ some (pos s)
    → (parse_and_validate_timestamp now text tolerance ≡ ok (pos s))
      ↔ (IsWithin tolerance now s ⊎ IsFarAhead now s)
unfolding parse_and_validate_timestamp
validate_iff now tolerance s text h bound e a =
    rw (e, a, unwrapped s bound)
      (
        (λ r. within now tolerance s h (expired_unless _ (pos s) (pos s) r)),
        (λ w. rw (not_exceeding now tolerance s h w) refl),
      )

-- The request's time, where a duration can say how far ahead of the clock it lies.
abbrev pub IsSane : ℕ → ℤ → Type 0
IsSane now (pos s) = s * second ≤ now + max_duration
IsSane now (negsuc s) = Unit

stale :
    (now later tolerance : ℕ) (s : ℤ)
    → tolerance < max_duration
    → IsSane now s
    → now + 2 * tolerance < later
    → exceeds (magnitude (time_since now (wrapped_seconds s))) tolerance ≡ false
    → exceeds (magnitude (time_since later (wrapped_seconds s))) tolerance ≡ false
    → ⊥
stale now later tolerance (pos s) h sane l a b = ground arith
stale now later tolerance (negsuc s) h sane l a b = ground arith

accepted-value :
    (b : Bool) (s s' : ℤ) → (if b then err timestamp_expired else ok s) ≡ ok s' → s ≡ s'
accepted-value true s s' h = cc h
accepted-value false s s' h = cc h

-- A timestamp that was accepted is expired once twice the tolerance has passed.
pub validate-expires :
    (now later tolerance : ℕ) (text : String) (s s' : ℤ)
    → tolerance < max_duration
    → IsSane now s
    → now + 2 * tolerance < later
    → parse_and_validate_timestamp now text tolerance ≡ ok s
    → parse_and_validate_timestamp later text tolerance ≢ ok s'
unfolding parse_and_validate_timestamp
validate-expires now later tolerance text s s' h sane l p q = elim (Bool-cases (is_empty text)) [
  | inl e ↦ cc (rw e at p)
  | inr e ↦ elim (Option-cases (atoi text)) [
    | inl a ↦ cc (rw (e, a) at p)
    | inr (v, a) ↦
        let p' = rw (e, a) at p in
        let q' = rw (e, a) at q in
        stale now later tolerance v h (subst (IsSane now) (sym (accepted-value _ v s p')) sane) l
          (expired_unless _ v s p') (expired_unless _ v s' q')
  ]
]

pub validate-atoi :
    (now tolerance : ℕ) (text : String) (s : ℤ)
    → parse_and_validate_timestamp now text tolerance ≡ ok s
    → atoi text ≡ some s
unfolding parse_and_validate_timestamp
validate-atoi now tolerance text s p = elim (Bool-cases (is_empty text)) [
  | inl e ↦ cc (rw e at p)
  | inr e ↦ elim (Option-cases (atoi text)) [
    | inl a ↦ cc (rw (e, a) at p)
    | inr (v, a) ↦ a ∙ ap some (accepted-value _ v s (rw (e, a) at p))
  ]
]
