-- ===== src/Auth/Replay.antt =====
-- Replays: what becomes of the nonce of an accepted request in MemoryNonceStore while other
-- requests are checked and the cleanup runs, and of a second request with that nonce.
use nsp_platform.Base.{
  ℕ, ◌+◌, ◌*◌, ◌^◌, ◌≤◌, ◌<◌, ◌≡◌, ◌≢◌, refl, ap, ◌∙◌, sym, String, Bool, true, false, some, List,
  [], ◌∷◌, inl, inr, arith, Bool-cases, Option-cases, str_eq, str_eq→eq,
}
use mathlib.Core.Path.{subst}
use native.Mathlib.Decide.{dec_lt}
use nsp_platform.Base.Int.{ℤ, pos}
use nsp_platform.Base.Lists.{All, delete_where}
use nsp_platform.Base.Maps.{lookup, lookup-put, lookup-put_other}
use nsp_platform.Auth.Errors.{ok}
use nsp_platform.Auth.Stores.{Credential}
use nsp_platform.Auth.MemoryNonceStore.{
  Nonces, twice, is_after, add_duration, check_and_store, cleanup, memory_nonce_store,
}
use nsp_platform.Auth.Signing.{Crypto}
use nsp_platform.Auth.Timestamps.{IsSane, validate-expires, validate-atoi}
use nsp_platform.Http.{HttpRequest, get_header}
use nsp_platform.Base.Text.{atoi}
use nsp_platform.Auth.Verifier.{Verifier, verify}
use nsp_platform.Auth.Accepted.{verify-ok}

-- What the store goes through: a nonce is checked for a request, or the cleanup runs.
pub data Event : Type 0 where
  checks : ℕ → String → ℕ → Event
  cleans : ℕ → Event

abbrev pub time : Event → ℕ
time (checks now nonce ttl) = now
time (cleans now) = now

unfoldable pub apply : Event → Nonces → Nonces
unfolding check_and_store cleanup
apply (checks now nonce ttl) s = (check_and_store now nonce ttl s).1
apply (cleans now) s = cleanup now s

unfoldable pub apply_all : List Event → Nonces → Nonces
unfolding apply
apply_all [] s = s
apply_all (e ∷ es) s = apply_all es (apply e s)

lookup-delete_where :
    (key : String) (t : ℤ) (p : String × ℤ → Bool) (s : Nonces)
    → lookup key s ≡ some t
    → p (key, t) ≡ false
    → lookup key (delete_where p s) ≡ some t
lookup-delete_where key t p [] h k = cc h
lookup-delete_where key t p ((c, u) ∷ s) h k = elim (Bool-cases (str_eq c key)) [
  | inl e ↦
      let u≡t : u ≡ t = cc (rw (lookup, e) at h) in
      let k' = rw (sym (str_eq→eq c key e), sym u≡t) at k in
      rw (delete_where, k', lookup, e) (ap some u≡t)
  | inr e ↦ elim (Bool-cases (p (c, u))) [
    | inl f ↦ rw (delete_where, f) (lookup-delete_where key t p s (rw (lookup, e) at h) k)
    | inr f ↦
        rw (delete_where, f, lookup, e) (lookup-delete_where key t p s (rw (lookup, e) at h) k)
  ]
]

check-keeps :
    (now : ℕ) (nonce other : String) (ttl : ℕ) (t : ℤ) (s : Nonces)
    → lookup nonce s ≡ some t
    → lookup nonce (check_and_store now other ttl s).1 ≡ some t
unfolding check_and_store
check-keeps now nonce other ttl t s h = elim (Option-cases (lookup other s)) [
  | inr (u, e) ↦ rw e h
  | inl e ↦ elim (Bool-cases (str_eq other nonce)) [
    | inl f ↦ cc (sym (rw (str_eq→eq other nonce f) at e) ∙ h)
    | inr f ↦ rw e (lookup-put_other other nonce _ s f ∙ h)
  ]
]

-- Until its entry expires, nothing that happens in the store removes a nonce.
apply_all-keeps :
    (es : List Event) (nonce : String) (t : ℕ) (s : Nonces)
    → All (λ e. time e ≤ t) es
    → lookup nonce s ≡ some (pos t)
    → lookup nonce (apply_all es s) ≡ some (pos t)
unfolding apply_all cleanup
apply_all-keeps [] nonce t s h k = k
apply_all-keeps (checks now other ttl ∷ es) nonce t s h k =
    apply_all-keeps es nonce t _ h.1 (check-keeps now nonce other ttl (pos t) s k)
apply_all-keeps (cleans now ∷ es) nonce t s h k =
    apply_all-keeps es nonce t _ h.1
      (lookup-delete_where nonce (pos t) (λ entry. is_after now entry.1) s k (not_after h.0))
  where
    not_after : now ≤ t → is_after now (pos t) ≡ false
    not_after l = ground arith

check-lookup :
    (now ttl : ℕ) (nonce : String) (s : Nonces)
    → 2 * ttl < 2 ^ 63
    → (check_and_store now nonce ttl s).0 ≡ ok false
    → lookup nonce (check_and_store now nonce ttl s).1 ≡ some (pos (now + 2 * ttl))
unfolding check_and_store
check-lookup now ttl nonce s bound h = elim (Option-cases (lookup nonce s)) [
  | inr (u, e) ↦ cc (rw e at h)
  | inl e ↦ rw e (lookup-put nonce _ s ∙ ap (λ d. some (add_duration now d)) twice_lem)
]
  where
    twice_lem : twice ttl ≡ pos (2 * ttl)
    twice_lem = ground arith

check_used :
    (now ttl : ℕ) (nonce : String) (t : ℤ) (s : Nonces)
    → lookup nonce s ≡ some t
    → (check_and_store now nonce ttl s).0 ≡ ok true
unfolding check_and_store
check_used now ttl nonce t s h = rw h refl

-- A nonce that the store took as new is refused until twice the TTL has passed, whatever other
-- requests and cleanups come between.
pub check-check :
    (now later ttl ttl' : ℕ) (nonce : String) (es : List Event) (s : Nonces)
    → 2 * ttl < 2 ^ 63
    → (check_and_store now nonce ttl s).0 ≡ ok false
    → All (λ e. time e ≤ now + 2 * ttl) es
    → (check_and_store later nonce ttl' (apply_all es (check_and_store now nonce ttl s).1)).0
      ≡ ok true
check-check now later ttl ttl' nonce es s bound h l =
    check_used later ttl' nonce _ _
      (apply_all-keeps es nonce _ _ l (check-lookup now ttl nonce s bound h))

All-time : (es : List Event) (a b : ℕ) → a ≤ b → All (λ e. time e ≤ a) es → All (λ e. time e ≤ b) es
All-time [] a b l h = tt
All-time (e ∷ es) a b l h = (omega arith, All-time es a b l h.1)

module _ (crypto : Crypto) (v : Verifier Nonces) where
  -- Of two requests with the same nonce and timestamp, a verifier over the store in memory accepts
  -- at most one, whatever nonces are checked and whatever cleanups run between them: where the
  -- timestamp of the first lies at most 2 ^ 63 - 1 nanoseconds ahead of the clock, and twice the
  -- tolerance and the time that passes between the two readings of the clock for the second
  -- request are together at most twice the TTL of a nonce.
  pub verify-verify :
      (now at later at' delay : ℕ) (s : Nonces) (r r' : HttpRequest) (es : List Event)
      (cred cred' : Credential) (stamp : ℤ)
      → v.nonces ≡ memory_nonce_store
      → 2 * v.nonce_ttl < 2 ^ 63
      → 2 * v.timestamp_tolerance + delay ≤ 2 * v.nonce_ttl
      → now ≤ at
      → at' ≤ later + delay
      → All (λ e. time e ≤ at') es
      → get_header "X-NSP-Nonce" r'.headers ≡ get_header "X-NSP-Nonce" r.headers
      → get_header "X-NSP-Timestamp" r'.headers ≡ get_header "X-NSP-Timestamp" r.headers
      → atoi (get_header "X-NSP-Timestamp" r.headers) ≡ some stamp
      → IsSane now stamp
      → (verify crypto v now at (s, r)).0 ≡ ok cred
      → (verify crypto v later at' (apply_all es (verify crypto v now at (s, r)).1.0, r')).0
        ≢ ok cred'
  verify-verify now at later at' delay s r r' es cred cred' stamp mem bound enough mono prompt times
        same_nonce same_stamp is_stamp sane h h' =
      let ((t, accepted), new, stored) = verify-ok crypto v now at (s, r) cred h in
      let ((t', accepted'), new', stored') =
        verify-ok crypto v later at' (apply_all es (verify crypto v now at (s, r)).1.0, r') cred'
          h' in
      elim (dec_lt (at + 2 * v.nonce_ttl) at') [
        | yes l ↦
            let same : stamp ≡ t =
              cc (sym is_stamp ∙ validate-atoi now v.timestamp_tolerance _ t accepted) in
            validate-expires now later v.timestamp_tolerance
              (get_header "X-NSP-Timestamp" r.headers) t t' (omega arith)
              (subst (IsSane now) same sane) (omega arith) accepted (rw same_stamp at accepted')
        | no l ↦
            let used =
              check-check at at' v.nonce_ttl v.nonce_ttl (get_header "X-NSP-Nonce" r.headers) es s
                bound (rw mem at new)
                (All-time es at' (at + 2 * v.nonce_ttl) (omega arith) times) in
            cc (sym used ∙ rw (same_nonce, stored, mem) at new')
      ]
