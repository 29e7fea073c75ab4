-- ===== src/Lock.antt =====
-- The package lock: a distributed lock over redsync. lock/lock.go and lock/option.go here, the
-- children model lock/redis.go.
pub mod Connect
pub mod Redis
pub mod Laws
use nsp_platform.Base.{ℕ, ◌*◌, Bool, true, false, List, [], ◌∷◌}
use nsp_platform.Base.Int.{ℤ, pos}

-- The sentinels, and any other error.
pub data LockError (E : Type 0) : Type 0 where
  not_acquired lock_expired : LockError E
  other : E → LockError E

-- Durations are in nanoseconds.
pub record LockOption : Type 0 where
  pub ttl : ℤ
  pub retry_count : ℤ
  pub retry_delay : ℤ
  pub enable_watchdog : Bool

abbrev pub second : ℕ
second = 1000000000

abbrev pub default_lock_option : LockOption
default_lock_option = record {
  ttl = pos (8 * second);
  retry_count = pos 32;
  retry_delay = pos 100000000;
  enable_watchdog = false;
}

abbrev pub with_ttl : ℤ → LockOption → LockOption
with_ttl d o = record {
  ttl = d;
  retry_count = o.retry_count;
  retry_delay = o.retry_delay;
  enable_watchdog = o.enable_watchdog;
}

abbrev pub with_retry_count : ℤ → LockOption → LockOption
with_retry_count n o = record {
  ttl = o.ttl;
  retry_count = n;
  retry_delay = o.retry_delay;
  enable_watchdog = o.enable_watchdog;
}

abbrev pub with_retry_delay : ℤ → LockOption → LockOption
with_retry_delay d o = record {
  ttl = o.ttl;
  retry_count = o.retry_count;
  retry_delay = d;
  enable_watchdog = o.enable_watchdog;
}

abbrev pub with_watchdog : LockOption → LockOption
with_watchdog o = record {
  ttl = o.ttl;
  retry_count = o.retry_count;
  retry_delay = o.retry_delay;
  enable_watchdog = true;
}

-- The options in their order.
abbrev pub with_options : List (LockOption → LockOption) → LockOption → LockOption
with_options [] o = o
with_options (f ∷ fs) o = with_options fs (f o)
