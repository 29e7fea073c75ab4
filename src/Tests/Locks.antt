-- ===== src/Tests/Locks.antt =====
-- A lock with a watchdog that is acquired twice and released, over a Redis with one holder.
use nsp_platform.Base.{
  ℕ, zero, suc, ◌*◌, ◌==◌, String, true, false, Option, some, none, [], ◌∷◌, ◌≡◌, refl, List,
}
use nsp_platform.Base.Int.{pos}
use nsp_platform.Lock.{
  LockOption, second, with_ttl, with_retry_count, with_retry_delay, with_watchdog,
}
use nsp_platform.Lock.Redis.{
  Redsync, State, new, acquire, try_acquire, start_watchdog, tick, renew, release,
  watchdog_interval, name,
}
use nsp_platform.Lock.Laws.{
  Call, IsGuarded, IsTimely, run, run-IsGuarded, call_acquire, call_try_acquire, call_renew, round,
}

-- The world is the number of locks granted; a mutex may always be extended, and its release finds
-- it taken after the first grant.
abbrev redsync : Redsync ℕ String Unit ℕ
redsync = record {
  new_mutex = λ text o w. (text, w);
  mutex_name = λ text. text;
  lock_context = λ ctx mu w. (none, suc w);
  unlock_context = λ ctx mu w. ((false, if_taken w), w);
  extend_context = λ ctx mu w. ((true, none), w);
  is_already_expired = λ e. false;
  is_extend_failed = λ e. false;
  is_taken = λ e. e == 1;
  ctx_err = λ ctx w. none;
  background = tt;
}
  where
    if_taken : ℕ → Option ℕ
    if_taken (suc zero) = none
    if_taken w = some 1

abbrev options : List (LockOption → LockOption)
options =
    with_ttl (pos (3 * second))
    ∷ with_retry_count (pos 4)
    ∷ with_retry_delay (pos second)
    ∷ with_watchdog
    ∷ []

abbrev calls : List (Call Unit)
calls = call_acquire tt ∷ round 0 ∷ call_renew tt ∷ call_try_acquire tt ∷ round 0 ∷ round 1 ∷ []

abbrev acquired_lock : State String ℕ
acquired_lock = run redsync calls (new redsync (λ tries n. 0) "order:pay:1" options 0)

running_one : acquired_lock.running ≡ (1, pos second) ∷ []
unfolding new acquire try_acquire start_watchdog tick renew
running_one = refl

own_name : name redsync acquired_lock ≡ "order:pay:1"
unfolding new acquire try_acquire start_watchdog tick renew
own_name = refl

run-IsGuarded_example :
    IsGuarded acquired_lock
    × IsTimely acquired_lock.lock.opt.ttl (watchdog_interval acquired_lock.lock.opt.ttl)
    × ((release redsync tt acquired_lock).1.running ≡ [])
run-IsGuarded_example = run-IsGuarded redsync (λ tries n. 0) "order:pay:1" options 0 calls tt
