-- ===== src/Auth/MemoryNonceStore.antt =====
-- MemoryNonceStore of auth/nonce.go. An operation under the mutex is one step; the clock that it
-- reads is an argument, in nanoseconds.
use nsp_platform.Base.{
  ℕ, suc, ◌+◌, ◌-◌, ◌*◌, ◌^◌, ltb, leb, String, Bool, true, false, List, Option, none, some,
  if◌then◌else◌,
}
use nsp_platform.Base.Int.{ℤ, pos, negsuc}
use nsp_platform.Base.Lists.{delete_where}
use nsp_platform.Base.Maps.{lookup, put}
use nsp_platform.Auth.Errors.{Result, ok}
use nsp_platform.Auth.Stores.{NonceStore}

-- Each nonce with the time that it expires at.
abbrev pub Nonces : Type 0
Nonces = List (String × ℤ)

-- `ttl * 2` of an int64 that is positive.
abbrev pub twice : ℕ → ℤ
twice ttl = if ltb (2 * ttl) (2 ^ 63) then pos (2 * ttl) else negsuc (2 ^ 64 - 2 * ttl - 1)

-- `now.Add(d)`.
abbrev pub add_duration : ℕ → ℤ → ℤ
add_duration now (pos d) = pos (now + d)
add_duration now (negsuc d) = if leb (suc d) now then pos (now - suc d) else negsuc (d - now)

-- `now.After(t)`.
abbrev pub is_after : ℕ → ℤ → Bool
is_after now (pos t) = ltb t now
is_after now (negsuc t) = true

-- A nonce that is present is used, however old its entry is.
abbrev store_unless_used : ℕ → String → ℕ → Nonces → Option ℤ → Result Bool × Nonces
store_unless_used now nonce ttl nonces (some e) = (ok true, nonces)
store_unless_used now nonce ttl nonces none =
    (ok false, put nonce (add_duration now (twice ttl)) nonces)

unfoldable pub check_and_store : ℕ → String → ℕ → Nonces → Result Bool × Nonces
check_and_store now nonce ttl nonces = store_unless_used now nonce ttl nonces (lookup nonce nonces)

-- `cleanup` deletes the expired entries.
unfoldable pub cleanup : ℕ → Nonces → Nonces
cleanup now nonces = delete_where (λ entry. is_after now entry.1) nonces

abbrev pub memory_nonce_store : NonceStore Nonces
memory_nonce_store = record { check_and_store = check_and_store }
