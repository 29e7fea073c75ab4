-- ===== src/Lock/Redis.antt =====
-- The lock of lock/redis.go. Redsync and the context are parameters: a mutex of redsync is a
-- reference, and its token lies in the world with the state of Redis. The goroutines of the
-- watchdogs are a table; a call is one step, and a watchdog renews the lock between the calls.
use nsp_platform.Base.{
  ℕ, suc, ◌+◌, ◌/◌, ltb, ◌==◌, String, Bool, true, false, Option, some, none, List, [], ◌∷◌,
  if◌then◌else◌, ◌||◌,
}
use nsp_platform.Base.Int.{ℤ, pos, negsuc, is_pos, int64}
use nsp_platform.Base.Lists.{delete_where}
use nsp_platform.Lock.{
  LockError, not_acquired, lock_expired, other, LockOption, default_lock_option, with_options,
}

-- The options of redsync: WithExpiry, WithTries, and the function of WithRetryDelayFunc if there
-- is one, which is none where it panics.
pub record MutexOption : Type 0 where
  pub expiry : ℤ
  pub tries : ℤ
  pub retry_delay : Option (ℕ → Option ℤ)

-- What the code calls of redsync, over its errors, mutexes and contexts and the world.
pub record Redsync (E M C W : Type 0) : Type 0 where
  pub new_mutex : String → MutexOption → W → M × W
  pub mutex_name : M → String
  pub lock_context : C → M → W → Option E × W
  pub unlock_context : C → M → W → (Bool × Option E) × W
  pub extend_context : C → M → W → (Bool × Option E) × W
  pub is_already_expired : E → Bool
  pub is_extend_failed : E → Bool
  pub is_taken : E → Bool
  pub ctx_err : C → W → Option E
  pub background : C

-- `RetryDelay + rand.Int63n(RetryDelay / 2)`; Int63n panics on a bound that is not positive.
abbrev pub jittered : (ℕ → ℕ) → ℤ → Option ℤ
jittered int63n (pos d) = if ltb 0 (d / 2) then some (int64 (d + int63n (d / 2))) else none
jittered int63n (negsuc d) = none

-- `ttl / n`, towards zero, where it is positive.
abbrev pub positive_part_of : ℤ → ℕ → Option ℤ
positive_part_of (pos t) n = if ltb 0 (t / n) then some (pos (t / n)) else none
positive_part_of (negsuc t) n = none

-- The first of the two that is positive, and otherwise the time to live or a millisecond.
abbrev pub interval_from : ℤ → Option ℤ → Option ℤ → ℤ
interval_from ttl (some interval) half = interval
interval_from ttl none (some interval) = interval
interval_from ttl none none = if is_pos ttl then ttl else pos 1000000

abbrev pub watchdog_interval : ℤ → ℤ
watchdog_interval ttl = interval_from ttl (positive_part_of ttl 3) (positive_part_of ttl 2)

-- A watchdog is the number of its goroutine.
pub record RedisLock (M : Type 0) : Type 0 where
  pub mu : M
  pub wd : Option ℕ
  pub opt : LockOption

-- The goroutines that run, each with its interval, and the number of the next.
pub record State (M W : Type 0) : Type 0 where
  pub lock : RedisLock M
  pub running : List (ℕ × ℤ)
  pub next : ℕ
  pub world : W

abbrev pub with_world : {M W : Type 0} → W → State M W → State M W
with_world w s = record { lock = s.lock; running = s.running; next = s.next; world = w }

-- `Stop` of the watchdog.
abbrev pub stop : Option ℕ → List (ℕ × ℤ) → List (ℕ × ℤ)
stop none running = running
stop (some n) running = delete_where (λ g. g.0 == n) running

abbrev pub is_running : ℕ → List (ℕ × ℤ) → Bool
is_running n [] = false
is_running n (g ∷ rest) = g.0 == n || is_running n rest

-- `startWatchdog`.
unfoldable pub start_watchdog : {M W : Type 0} → State M W → State M W
start_watchdog s =
    if s.lock.opt.enable_watchdog
    then record {
      lock = record { mu = s.lock.mu; wd = some s.next; opt = s.lock.opt };
      running = (s.next, watchdog_interval s.lock.opt.ttl) ∷ stop s.lock.wd s.running;
      next = suc s.next;
      world = s.world;
    }
    else s

-- The start of `Release`: the watchdog is taken out and stopped.
abbrev pub without_watchdog : {M W : Type 0} → State M W → State M W
without_watchdog s = record {
  lock = record { mu = s.lock.mu; wd = none; opt = s.lock.opt };
  running = stop s.lock.wd s.running;
  next = s.next;
  world = s.world;
}

abbrev pub with_mutex : {M W : Type 0} → M → State M W → State M W
with_mutex mu s = record {
  lock = record { mu = mu; wd = s.lock.wd; opt = s.lock.opt };
  running = s.running;
  next = s.next;
  world = s.world;
}

-- The context's error comes first.
abbrev acquire_error : {E : Type 0} → Option E → LockError E
acquire_error (some e) = other e
acquire_error none = not_acquired

-- The error of `Release` and `Renew`, where `is_expiry` is the test that their code makes.
abbrev pub answer_error : {E : Type 0} → (E → Bool) → Bool × Option E → Option (LockError E)
answer_error is_expiry (ok, some e) = if is_expiry e then some lock_expired else some (other e)
answer_error is_expiry (true, none) = none
answer_error is_expiry (false, none) = some lock_expired

module _ {E M C W : Type 0} (rs : Redsync E M C W) where
  -- `New`, with what rand.Int63n answers at each try.
  unfoldable pub new : (ℕ → ℕ → ℕ) → String → List (LockOption → LockOption) → W → State M W
  new draws name opts w =
      let opt = with_options opts default_lock_option in
      let (mu, w') =
        rs.new_mutex name
          (record {
            expiry = opt.ttl;
            tries = opt.retry_count;
            retry_delay = some (λ tries. jittered (draws tries) opt.retry_delay);
          })
          w in
      record { lock = record { mu = mu; wd = none; opt = opt }; running = []; next = 0; world = w' }

  abbrev pub acquired : C → State M W → Option E × W → Option (LockError E) × State M W
  acquired ctx s (none, w) = (none, start_watchdog (with_world w s))
  acquired ctx s (some e, w) = (some (acquire_error (rs.ctx_err ctx w)), with_world w s)

  -- `Acquire`.
  unfoldable pub acquire : C → State M W → Option (LockError E) × State M W
  acquire ctx s = acquired ctx s (rs.lock_context ctx s.lock.mu s.world)

  abbrev pub try_acquired : M → State M W → Option E × W → Option (LockError E) × State M W
  try_acquired temp_mu s (none, w) = (none, start_watchdog (with_mutex temp_mu (with_world w s)))
  try_acquired temp_mu s (some e, w) = (some not_acquired, with_world w s)

  -- `TryAcquire`.
  unfoldable pub try_acquire : C → State M W → Option (LockError E) × State M W
  try_acquire ctx s =
      let (temp_mu, w) =
        rs.new_mutex (rs.mutex_name s.lock.mu)
          (record { expiry = s.lock.opt.ttl; tries = pos 1; retry_delay = none }) s.world in
      try_acquired temp_mu s (rs.lock_context ctx temp_mu w)

  -- `Release`.
  unfoldable pub release : C → State M W → Option (LockError E) × State M W
  release ctx s =
      let (answer, w) = rs.unlock_context ctx s.lock.mu s.world in
      (
        answer_error (λ e. rs.is_already_expired e || rs.is_taken e) answer,
        with_world w (without_watchdog s),
      )

  -- `Renew`.
  unfoldable pub renew : C → State M W → Option (LockError E) × State M W
  renew ctx s =
      let (answer, w) = rs.extend_context ctx s.lock.mu s.world in
      (answer_error (λ e. rs.is_extend_failed e || rs.is_taken e) answer, with_world w s)

  -- `Name`.
  abbrev pub name : State M W → String
  name s = rs.mutex_name s.lock.mu

  -- A round of the watchdog's goroutine, if it still runs; what `Renew` returns is logged only.
  unfoldable pub tick : ℕ → State M W → State M W
  unfolding renew
  tick n s = if is_running n s.running then (renew rs.background s).1 else s
