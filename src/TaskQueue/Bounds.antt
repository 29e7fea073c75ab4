-- ===== src/TaskQueue/Bounds.antt =====
-- The bounds that the paging of a listing and the check interval of a consumer are brought into.
use nsp_platform.Base.{
  ℕ, suc, zero, ◌≤◌, ◌<◌, Bool, true, false, ◌≡◌, refl, arith, ltb, Bool-cases, inl, inr, ◌⊎◌,
}
use nsp_platform.Base.Int.{ℤ, pos, negsuc}
use nsp_platform.TaskQueue.{ListOptions, normalize, at_most_hundred, at_least_one}
use nsp_platform.TaskQueue.Broker.{
  normalize_task_check_interval, min_task_check_interval, max_task_check_interval,
}

-- A positive value up to the limit is kept, a greater one becomes the limit, and any other the
-- default.
abbrev pub IsClamped : ℕ → ℕ → ℤ → ℤ → Type 0
IsClamped default high (pos n) v =
    ((1 ≤ n) × (n ≤ high) × (v ≡ pos n))
    ⊎ ((n ≡ 0) × (v ≡ pos default))
    ⊎ ((high < n) × (v ≡ pos high))
IsClamped default high (negsuc n) v = v ≡ pos default

at_most_hundred-IsClamped : (v : ℤ) → IsClamped 30 100 v (at_most_hundred (at_least_one v 30))
at_most_hundred-IsClamped (pos zero) = inr (inl (refl, refl))
at_most_hundred-IsClamped (negsuc n) = refl
at_most_hundred-IsClamped (pos (suc n)) = elim (Bool-cases (ltb 100 (suc n))) [
  | inl e ↦ rw e (inr (inr (ground arith, refl)))
  | inr e ↦ rw e (inl (omega arith, ground arith, refl))
]

-- A page has no limit.
abbrev pub IsPage : ℤ → ℤ → Type 0
IsPage (pos n) v = ((1 ≤ n) × (v ≡ pos n)) ⊎ ((n ≡ 0) × (v ≡ pos 1))
IsPage (negsuc n) v = v ≡ pos 1

at_least_one-IsPage : (v : ℤ) → IsPage v (at_least_one v 1)
at_least_one-IsPage (pos zero) = inr (refl, refl)
at_least_one-IsPage (pos (suc n)) = inl (omega arith, refl)
at_least_one-IsPage (negsuc n) = refl

at_least_one_twice : (v : ℤ) → at_least_one (at_least_one v 1) 1 ≡ at_least_one v 1
at_least_one_twice (pos zero) = refl
at_least_one_twice (pos (suc n)) = refl
at_least_one_twice (negsuc n) = refl

at_most_hundred_twice :
    (v : ℤ)
    → at_most_hundred (at_least_one (at_most_hundred (at_least_one v 30)) 30)
      ≡ at_most_hundred (at_least_one v 30)
at_most_hundred_twice (pos zero) = refl
at_most_hundred_twice (negsuc n) = refl
at_most_hundred_twice (pos (suc n)) = elim (Bool-cases (ltb 100 (suc n))) [
  | inl e ↦ rw e refl
  | inr e ↦ rw (e, e) refl
]

-- Normalize keeps a page from 1 on and a page size from 1 to 100, lowers a greater page size to 100,
-- and replaces any other page by 1 and any other page size by 30; a second Normalize changes nothing.
pub normalize-IsClamped :
    (o : ListOptions)
    → IsPage o.page (normalize o).page
      × IsClamped 30 100 o.page_size (normalize o).page_size
      × (normalize (normalize o) ≡ normalize o)
unfolding normalize
normalize-IsClamped o = (
  at_least_one-IsPage o.page,
  at_most_hundred-IsClamped o.page_size,
  λ i. record {
    page = at_least_one_twice o.page i;
    page_size = at_most_hundred_twice o.page_size i;
  },
)

-- The interval that a configured duration gives, in nanoseconds, and whether that is reported.
abbrev pub IsInterval : ℤ → ℕ × Bool → Type 0
IsInterval (negsuc n) r = r ≡ (0, false)
IsInterval (pos n) r =
    ((n ≡ 0) × (r ≡ (0, false)))
    ⊎ ((1 ≤ n) × (n < 200_000_000) × (r ≡ (200_000_000, true)))
    ⊎ ((200_000_000 ≤ n) × (n ≤ 2_000_000_000) × (r ≡ (n, false)))
    ⊎ ((2_000_000_000 < n) × (r ≡ (2_000_000_000, true)))

-- An interval from 200 milliseconds to 2 seconds is kept. A shorter positive one becomes 200
-- milliseconds and a longer one 2 seconds, which is reported, and one that is not positive becomes 0,
-- the library's default. The result taken as the configuration gives itself, without a report.
pub normalize_task_check_interval-IsInterval :
    (v : ℤ)
    → IsInterval v (normalize_task_check_interval v)
      × (normalize_task_check_interval (pos (normalize_task_check_interval v).0)
          ≡ ((normalize_task_check_interval v).0, false))
unfolding normalize_task_check_interval
normalize_task_check_interval-IsInterval (pos zero) = (inl (refl, refl), refl)
normalize_task_check_interval-IsInterval (negsuc n) = (refl, refl)
normalize_task_check_interval-IsInterval (pos (suc n)) =
    elim (Bool-cases (ltb (suc n) min_task_check_interval)) [
      | inl e ↦ rw e (inr (inl (omega arith, ground arith, refl)), refl)
      | inr e ↦ elim (Bool-cases (ltb max_task_check_interval (suc n))) [
        | inl f ↦ rw (e, f) (inr (inr (inr (ground arith, refl))), refl)
        | inr f ↦ rw (e, f) (inr (inr (inl (ground arith, ground arith, refl))), rw (e, f) refl)
      ]
    ]
