-- ===== src/Base/Int.antt =====
-- Go's `int` where a caller may configure a negative value: the integers over the native numbers,
-- with the tests that the code makes on them.
use Prim.Native.Nat.{ℕ, zero, suc, ◌+◌, ◌-◌, ◌%◌, ◌^◌, compare, Ordering}
use mathlib.Core.Bool.{Bool, true, false}

-- `negsuc n` is -(n + 1).
pub data ℤ : Type 0 where
  pos : ℕ → ℤ
  negsuc : ℕ → ℤ

-- `v == 0`.
abbrev pub is_zero : ℤ → Bool
is_zero (pos zero) = true
is_zero (pos (suc n)) = false
is_zero (negsuc n) = false

-- `v > 0`.
abbrev pub is_pos : ℤ → Bool
is_pos (pos zero) = false
is_pos (pos (suc n)) = true
is_pos (negsuc n) = false

-- `n < v` for a counter `n` that is never negative.
abbrev pub below : ℕ → ℤ → Bool
below n (pos k) = elim (compare n k) [ Ordering.lt ↦ true | _ ↦ false ]
below n (negsuc k) = false

-- The number itself, and 0 for a negative one.
abbrev pub pos_part : ℤ → ℕ
pos_part (pos n) = n
pos_part (negsuc n) = 0

abbrev below_or_equal : ℕ → ℕ → Bool
below_or_equal a b = elim (compare a b) [ Ordering.gt ↦ false | _ ↦ true ]

-- A product that is not negative, in an int64.
abbrev pub int64 : ℕ → ℤ
int64 n =
    let r = n % 2 ^ 64 in
    elim (below_or_equal (2 ^ 63) r) [ true ↦ negsuc (2 ^ 64 - r - 1) | false ↦ pos r ]

-- A time on the clock, later or earlier by a duration; no time is before 0.
abbrev pub later_by : ℤ → ℕ → ℕ
later_by (pos d) t = t + d
later_by (negsuc d) t = t - (d + 1)
