-- ===== src/Auth/Authentic.antt =====
-- Whose signature an accepted request carries.
use mathlib.Core.Path.{subst}
use nsp_platform.Base.{
  ◌≡◌, refl, ap, ◌∙◌, String, Bool, true, false, Option, some, none, ltb, Bool-cases, Option-cases,
  inl, inr, if◌then◌else◌, ℕ, str_eq, str_eq→eq,
}
use nsp_platform.Base.Lists.{length}
use nsp_platform.Http.{HttpRequest, Body}
use nsp_platform.Auth.Errors.{ok, err, ak_not_found}
use nsp_platform.Auth.Actions.{lift, annotate, bind-ok, annotate-ok}
use nsp_platform.Auth.Stores.{Credential}
use nsp_platform.Auth.Signing.{Crypto, max_request_body_size, hash_of, hash_body, hash_request_body}
use nsp_platform.Auth.Signed.{bytes_of}
use nsp_platform.Auth.Header.{parse_auth_header, parse_and_validate_timestamp}
use nsp_platform.Auth.Verifier.{
  Verifier, State, header, usable, check_nonce, check_credential, check_signature,
  compare_signature, expected_signature, verify,
}
use nsp_platform.Auth.Admission.{check_nonce-request}
use nsp_platform.Auth.Gate.{hash_request_body-request}

enabled-ok :
    (b : Bool) (d c : Credential)
    → (if b then ok d else err ak_not_found) ≡ ok c
    → (b ≡ true) × (d ≡ c)
enabled-ok true d c h = (refl, cc h)
enabled-ok false d c h = cc h

usable-ok :
    (found : Option Credential) (c : Credential)
    → usable found ≡ ok c
    → (found ≡ some c) × (c.enabled ≡ true)
usable-ok none c h = cc h
usable-ok (some d) c h =
    let (enabled, same) = enabled-ok d.enabled d c h in
    (ap some same, subst (λ x. x.enabled ≡ true) same enabled)

compare_signature-ok :
    (cred : Credential) (client expected : String) (c : Credential)
    → compare_signature cred client expected ≡ ok c
    → (cred ≡ c) × (client ≡ expected)
compare_signature-ok cred client expected c h = elim (Bool-cases (str_eq client expected)) [
  | inl e ↦ (cc (rw e at h), str_eq→eq client expected e)
  | inr e ↦ cc (rw e at h)
]

hash_body-hash :
    (crypto : Crypto) (req : HttpRequest) (b : Option Body) (h : String)
    → (hash_body crypto req b).0 ≡ ok h
    → h ≡ hash_of crypto (bytes_of b)
hash_body-hash crypto req none h e = cc e
hash_body-hash crypto req (some body) h e =
    elim (Bool-cases (ltb max_request_body_size (length body.bytes))) [
      | inl large ↦ cc (rw (large, large) at e)
      | inr small ↦ elim (Option-cases body.failure) [
        | inl f ↦ cc (rw (small, f) at e)
        | inr (text, f) ↦ cc (rw (small, f) at e)
      ]
    ]

module _ (crypto : Crypto) where
  check_signature-ok :
      (cred : Credential) (client : String) (req : HttpRequest) (c : Credential)
      → (check_signature crypto cred client req).0 ≡ ok c
      → (cred ≡ c)
        × (client ≡ expected_signature crypto cred req (hash_of crypto (bytes_of req.body)))
  unfolding check_signature annotate hash_request_body
  check_signature-ok cred client req c h =
      let (text, p, q) =
        bind-ok (annotate "failed to hash request body" (hash_request_body crypto)) _ req c h in
      let read = annotate-ok "failed to hash request body" (hash_request_body crypto) req text p in
      let (same, equal) = compare_signature-ok cred client _ c q in
      (
        same,
        equal
            ∙ ap (λ r. expected_signature crypto cred r text)
                (hash_request_body-request crypto req text read)
            ∙ ap (expected_signature crypto cred req)
                (hash_body-hash crypto req req.body text read),
      )

  module _ {S : Type 0} (v : Verifier S) where
    check_credential-ok :
        (ak client : String) (t : State S) (cred : Credential)
        → (check_credential crypto v ak client t).0 ≡ ok cred
        → (v.store ak ≡ ok (some cred))
          × (cred.enabled ≡ true)
          × (client ≡ expected_signature crypto cred t.1 (hash_of crypto (bytes_of t.1.body)))
    unfolding check_credential annotate lift
    check_credential-ok ak client t cred h =
        let look = annotate "credential lookup failed" (lift (v.store ak)) in
        let (found, p, h1) = bind-ok look _ t cred h in
        let (c, q, h2) = bind-ok (lift (usable found)) _ t cred h1 in
        let (is_found, enabled) = usable-ok found c q in
        let (same, equal) = check_signature-ok c client t.1 cred h2 in
        (
          annotate-ok "credential lookup failed" (lift (v.store ak)) t found p
              ∙ ap (λ x. ok x) (is_found ∙ ap some same),
          subst (λ x. x.enabled ≡ true) same enabled,
          equal
              ∙ ap (λ x. expected_signature crypto x t.1 (hash_of crypto (bytes_of t.1.body))) same,
        )

    -- The credential that Verify returns is the one stored for the access key of the header, it is
    -- enabled, and the header's signature is the one that its secret key gives for this request.
    pub verify-authentic :
        (now at : ℕ) (t : State S) (cred : Credential)
        → (verify crypto v now at t).0 ≡ ok cred
        → (ak : String) × (client : String) × (parse_auth_header (header "Authorization" t)
            ≡ ok (ak, client))
          × (v.store ak ≡ ok (some cred))
          × (cred.enabled ≡ true)
          × (client ≡ expected_signature crypto cred t.1 (hash_of crypto (bytes_of t.1.body)))
    unfolding verify lift
    verify-authentic now at t cred h =
        let auth = parse_auth_header (header "Authorization" t) in
        let stamp =
          parse_and_validate_timestamp now (header "X-NSP-Timestamp" t) v.timestamp_tolerance in
        let ((ak, client), p, h1) = bind-ok (lift auth) _ t cred h in
        let (s, q, h2) = bind-ok (lift stamp) _ t cred h1 in
        let (u, r, h3) = bind-ok (check_nonce v at (header "X-NSP-Nonce" t)) _ t cred h2 in
        let (found, enabled, equal) = check_credential-ok ak client _ cred h3 in
        let same = check_nonce-request v at (header "X-NSP-Nonce" t) t in
        (
          ak,
          client,
          p,
          found,
          enabled,
          equal
              ∙ ap (λ x. expected_signature crypto cred x (hash_of crypto (bytes_of x.body))) same,
        )
