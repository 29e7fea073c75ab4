-- ===== src/Lock/Laws.antt =====
-- The watchdogs of a lock, over every sequence of calls and renewals.
use nsp_platform.Base.{
  ℕ, zero, suc, ◌/◌, ◌<◌, ◌≤◌, ltb, ◌==◌, String, true, false, Option, some, none, List, [], ◌∷◌,
  ◌≡◌, refl, arith, inl, inr, ◌⊎◌, if-holds,
}
use nsp_platform.Base.Int.{ℤ, pos, negsuc, pos_part}
use nsp_platform.Base.Lists.{delete_where}
use nsp_platform.Lock.{LockOption}
use nsp_platform.Lock.Redis.{
  Redsync, State, new, acquire, acquired, try_acquire, try_acquired, release, renew, start_watchdog,
  stop, watchdog_interval, interval_from, positive_part_of, with_world, is_running, tick,
  with_mutex,
}

-- The calls of a lock's methods, and a renewal by the watchdog of the number.
pub data Call (C : Type 0) : Type 0 where
  call_acquire call_try_acquire call_release call_renew : C → Call C
  round : ℕ → Call C

-- The goroutines are those that the lock's watchdog stands for.
abbrev pub IsOwned : LockOption → Option ℕ → List (ℕ × ℤ) → Type 0
IsOwned opt none running = running ≡ []
IsOwned opt (some n) running =
    (opt.enable_watchdog ≡ true) × (running ≡ (n, watchdog_interval opt.ttl) ∷ [])

abbrev pub IsGuarded : {M W : Type 0} → State M W → Type 0
IsGuarded s = IsOwned s.lock.opt s.lock.wd s.running

eq_refl : (n : ℕ) → (n == n) ≡ true
eq_refl n = ground arith

stop-IsOwned :
    (opt : LockOption) (wd : Option ℕ) (running : List (ℕ × ℤ))
    → IsOwned opt wd running
    → stop wd running ≡ []
stop-IsOwned opt none running h = h
stop-IsOwned opt (some n) running h = rw (h.1, delete_where, eq_refl n) refl

-- An interval that is positive, and shorter than a time to live of two nanoseconds or more.
abbrev pub IsTimely : ℤ → ℤ → Type 0
IsTimely (pos t) v = (0 < pos_part v) × ((pos_part v < t) ⊎ (t ≤ 1))
IsTimely (negsuc t) v = 0 < pos_part v

whole-IsTimely :
    (t : ℕ) → ltb 0 (t / 2) ≡ false → IsTimely (pos t) (interval_from (pos t) none none)
whole-IsTimely zero e = (ground arith, inr (ground arith))
whole-IsTimely (suc t) e = (ground arith, inr (ground arith))

pub watchdog_interval-IsTimely : (ttl : ℤ) → IsTimely ttl (watchdog_interval ttl)
watchdog_interval-IsTimely (pos t) =
    if-holds (λ o. IsTimely (pos t) (interval_from (pos t) o (positive_part_of (pos t) 2)))
      (ltb 0 (t / 3)) (some (pos (t / 3))) none (λ e. (ground arith, inl (ground arith)))
      (λ e.
        if-holds (λ o. IsTimely (pos t) (interval_from (pos t) none o)) (ltb 0 (t / 2))
          (some (pos (t / 2))) none (λ f. (ground arith, inl (ground arith)))
          (λ f. whole-IsTimely t f))
watchdog_interval-IsTimely (negsuc t) = ground arith

start_watchdog-IsGuarded :
    {M W : Type 0} (s : State M W) → IsGuarded s → IsGuarded (start_watchdog s)
unfolding start_watchdog
start_watchdog-IsGuarded s h =
    if-holds IsGuarded s.lock.opt.enable_watchdog _ s
      (λ e. (e, rw (stop-IsOwned s.lock.opt s.lock.wd s.running h) refl)) (λ e. h)

module _ {E M C W : Type 0} (rs : Redsync E M C W) where
  -- A call, or a renewal.
  abbrev pub step : Call C → State M W → State M W
  step (call_acquire ctx) s = (acquire rs ctx s).1
  step (call_try_acquire ctx) s = (try_acquire rs ctx s).1
  step (call_release ctx) s = (release rs ctx s).1
  step (call_renew ctx) s = (renew rs ctx s).1
  step (round n) s = tick rs n s

  abbrev pub run : List (Call C) → State M W → State M W
  run [] s = s
  run (c ∷ cs) s = run cs (step c s)

  acquired-IsGuarded :
      (ctx : C) (s : State M W) (r : Option E × W) → IsGuarded s → IsGuarded (acquired rs ctx s r).1
  acquired-IsGuarded ctx s (none, w) h = start_watchdog-IsGuarded (with_world w s) h
  acquired-IsGuarded ctx s (some e, w) h = h

  try_acquired-IsGuarded :
      (mu : M) (s : State M W) (r : Option E × W)
      → IsGuarded s
      → IsGuarded (try_acquired rs mu s r).1
  try_acquired-IsGuarded mu s (none, w) h =
      start_watchdog-IsGuarded (with_mutex mu (with_world w s)) h
  try_acquired-IsGuarded mu s (some e, w) h = h

  tick-IsGuarded : (n : ℕ) (s : State M W) → IsGuarded s → IsGuarded (tick rs n s)
  unfolding tick renew
  tick-IsGuarded n s h = if-holds IsGuarded (is_running n s.running) _ s (λ e. h) (λ e. h)

  step-IsGuarded : (c : Call C) (s : State M W) → IsGuarded s → IsGuarded (step c s)
  unfolding acquire try_acquire release renew
  step-IsGuarded (call_acquire ctx) s h = acquired-IsGuarded ctx s _ h
  step-IsGuarded (call_try_acquire ctx) s h = try_acquired-IsGuarded _ s _ h
  step-IsGuarded (call_release ctx) s h = stop-IsOwned s.lock.opt s.lock.wd s.running h
  step-IsGuarded (call_renew ctx) s h = h
  step-IsGuarded (round n) s h = tick-IsGuarded n s h

  runs-IsGuarded : (cs : List (Call C)) (s : State M W) → IsGuarded s → IsGuarded (run cs s)
  runs-IsGuarded [] s h = h
  runs-IsGuarded (c ∷ cs) s h = runs-IsGuarded cs (step c s) (step-IsGuarded c s h)

  new-IsGuarded :
      (draws : ℕ → ℕ → ℕ) (name : String) (opts : List (LockOption → LockOption)) (w : W)
      → IsGuarded (new rs draws name opts w)
  unfolding new
  new-IsGuarded draws name opts w = refl

  -- For redsync as it may be, and over every sequence of calls and renewals: the goroutines that
  -- run are the one that the lock's watchdog stands for, which is there only if the watchdog is
  -- enabled and renews at a positive interval shorter than a time to live of two nanoseconds or
  -- more; and when Release has returned, with an error or without, none runs.
  pub run-IsGuarded :
      (draws : ℕ → ℕ → ℕ) (name : String) (opts : List (LockOption → LockOption)) (w : W)
      (cs : List (Call C)) (ctx : C)
      → IsGuarded (run cs (new rs draws name opts w))
        × IsTimely
            (run cs (new rs draws name opts w)).lock.opt.ttl
            (watchdog_interval (run cs (new rs draws name opts w)).lock.opt.ttl)
        × ((release rs ctx (run cs (new rs draws name opts w))).1.running ≡ [])
  unfolding release
  run-IsGuarded draws name opts w cs ctx =
      let s = run cs (new rs draws name opts w) in
      let h = runs-IsGuarded cs (new rs draws name opts w) (new-IsGuarded draws name opts w) in
      (h, watchdog_interval-IsTimely s.lock.opt.ttl, stop-IsOwned s.lock.opt s.lock.wd s.running h)
