-- ===== src/Auth/Accepted.antt =====
-- What a request that Verify accepts has passed.
use nsp_platform.Base.{ℕ, ◌≡◌, refl, ap, ◌∙◌, String, Bool, true, false, Bool-cases, inl, inr}
use nsp_platform.Base.Int.{ℤ}
use nsp_platform.Base.Text.{is_empty}
use nsp_platform.Auth.Errors.{ok}
use nsp_platform.Auth.Actions.{
  lift, pure, raise, annotate, bind-ok, bind-run, bind-state, annotate-ok,
}
use nsp_platform.Auth.Stores.{Credential}
use nsp_platform.Auth.Signing.{Crypto}
use nsp_platform.Auth.Header.{parse_auth_header, parse_and_validate_timestamp}
use nsp_platform.Auth.Verifier.{
  Verifier, State, header, on_nonces, usable, refuse_used, check_nonce, check_credential, verify,
}

refuse_used-ok :
    {S : Type 0} (used : Bool) (t : State S) → (refuse_used used t).0 ≡ ok tt → used ≡ false
unfolding refuse_used raise pure
refuse_used-ok true t h = cc h
refuse_used-ok false t h = refl

pub refuse_used-state : {S : Type 0} (used : Bool) (t : State S) → (refuse_used used t).1 ≡ t
unfolding refuse_used raise pure
refuse_used-state true t = refl
refuse_used-state false t = refl

module _ {S : Type 0} (v : Verifier S) where
  -- The nonce was new, and only its store has changed.
  check_nonce-ok :
      (at : ℕ) (nonce : String) (t : State S)
      → (check_nonce v at nonce t).0 ≡ ok tt
      → ((v.nonces.check_and_store at nonce v.nonce_ttl t.0).0 ≡ ok false)
        × ((check_nonce v at nonce t).1
            ≡ ((v.nonces.check_and_store at nonce v.nonce_ttl t.0).1, t.1))
  unfolding check_nonce annotate
  check_nonce-ok at nonce t h = elim (Bool-cases (is_empty nonce)) [
    | inl e ↦ cc (rw (e, raise) at h)
    | inr e ↦
        let check =
          annotate "nonce check failed"
            (on_nonces {S = S} (v.nonces.check_and_store at nonce v.nonce_ttl)) in
        let (used, p, q) = bind-ok check refuse_used t tt (rw e at h) in
        let fresh = refuse_used-ok used (check t).1 q in
        (
          annotate-ok "nonce check failed"
              (on_nonces {S = S} (v.nonces.check_and_store at nonce v.nonce_ttl)) t false
              (p ∙ ap ok fresh),
          rw e (
              ap (λ r. r.1) (bind-run check refuse_used t used p)
              ∙ refuse_used-state used (check t).1),
        )
  ]

module _ (crypto : Crypto) {S : Type 0} (v : Verifier S) where
  check_credential-framed :
      (ak client : String) (t : State S) → (check_credential crypto v ak client t).1.0 ≡ t.0
  unfolding check_credential
  check_credential-framed ak client t =
      bind-state Kept (annotate "credential lookup failed" (lift (v.store ak))) _ t refl
        λ found. bind-state Kept (lift (usable found)) _ t refl λ cred. refl
    where
      Kept : State S → Type 0
      Kept t' = t'.0 ≡ t.0

  -- An accepted request had a timestamp within the tolerance and a new nonce, which is stored now.
  pub verify-ok :
      (now at : ℕ) (t : State S) (cred : Credential)
      → (verify crypto v now at t).0 ≡ ok cred
      → ((s : ℤ) × (parse_and_validate_timestamp now
              (header "X-NSP-Timestamp" t)
              v.timestamp_tolerance
            ≡ ok s))
        × ((v.nonces.check_and_store at (header "X-NSP-Nonce" t) v.nonce_ttl t.0).0 ≡ ok false)
        × ((verify crypto v now at t).1.0
            ≡ (v.nonces.check_and_store at (header "X-NSP-Nonce" t) v.nonce_ttl t.0).1)
  unfolding verify lift
  verify-ok now at t cred h =
      let auth = parse_auth_header (header "Authorization" t) in
      let stamp =
        parse_and_validate_timestamp now (header "X-NSP-Timestamp" t) v.timestamp_tolerance in
      let ((ak, client), p, h1) = bind-ok (lift auth) _ t cred h in
      let (s, q, h2) = bind-ok (lift stamp) _ t cred h1 in
      let (u, r, h3) = bind-ok (check_nonce v at (header "X-NSP-Nonce" t)) _ t cred h2 in
      let (fresh, stored) = check_nonce-ok v at (header "X-NSP-Nonce" t) t r in
      (
        (s, q),
        fresh,
        ap (λ r. r.1.0)
              (bind-run (lift auth) _ t (ak, client) p
                ∙ bind-run (lift stamp) _ t s q
                ∙ bind-run (check_nonce v at (header "X-NSP-Nonce" t)) _ t u r)
            ∙ check_credential-framed ak client _
            ∙ ap (λ t'. t'.0) stored,
      )
