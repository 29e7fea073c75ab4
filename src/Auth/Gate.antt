-- ===== src/Auth/Gate.antt =====
-- What the middleware lets through: the request as it came, with the credential that Verify found.
use nsp_platform.Base.{
  ℕ, ◌≡◌, refl, ap, ◌∙◌, String, false, Option, some, none, ltb, Bool-cases, Option-cases, inl, inr,
  ◌⊎◌,
}
use nsp_platform.Base.Lists.{length}
use nsp_platform.Http.{HttpRequest, Body}
use nsp_platform.Auth.Errors.{Result, ok, err, AuthError}
use nsp_platform.Auth.Actions.{lift, annotate, bind-ok, bind-run, annotate-ok}
use nsp_platform.Auth.Stores.{Credential}
use nsp_platform.Auth.Signing.{Crypto, max_request_body_size, hash_body, hash_request_body}
use nsp_platform.Auth.Header.{parse_auth_header, parse_and_validate_timestamp}
use nsp_platform.Auth.Verifier.{
  Verifier, State, header, usable, check_nonce, check_credential, check_signature, verify,
}
use nsp_platform.Auth.Admission.{check_nonce-request}
use nsp_platform.Auth.Middleware.{
  GinContext, MiddlewareOption, is_skipped, aksk_auth_middleware, on_verified, answer_failure,
  abort,
}

Result-cases :
    {A : Type 0} (r : Result A) → ((a : A) × (r ≡ ok a)) ⊎ ((e : AuthError) × (r ≡ err e))
Result-cases (ok a) = inl (a, refl)
Result-cases (err e) = inr (e, refl)

hash_body-ok :
    (crypto : Crypto) (req : HttpRequest) (b : Option Body) (h : String)
    → (hash_body crypto (record req { body = b }) b).0 ≡ ok h
    → (hash_body crypto (record req { body = b }) b).1 ≡ record req { body = b }
hash_body-ok crypto req none h e = refl
hash_body-ok crypto req (some body) h e =
    elim (Bool-cases (ltb max_request_body_size (length body.bytes))) [
      | inl large ↦ cc (rw (large, large) at e)
      | inr small ↦ elim (Option-cases body.failure) [
        | inl none_left ↦ rw (small, none_left) (rw small refl)
        | inr (text, fails) ↦ cc (rw (small, fails) at e)
      ]
    ]

module _ (crypto : Crypto) where
  pub hash_request_body-request :
      (req : HttpRequest) (h : String)
      → (hash_request_body crypto req).0 ≡ ok h
      → (hash_request_body crypto req).1 ≡ req
  unfolding hash_request_body
  hash_request_body-request req h e = hash_body-ok crypto req req.body h e

  check_signature-request :
      (cred : Credential) (client : String) (req : HttpRequest) (c : Credential)
      → (check_signature crypto cred client req).0 ≡ ok c
      → (check_signature crypto cred client req).1 ≡ req
  unfolding check_signature annotate
  check_signature-request cred client req c h =
      let hash = annotate "failed to hash request body" (hash_request_body crypto) in
      let (text, p, q) = bind-ok hash _ req c h in
      ap (λ r. r.1) (bind-run hash _ req text p)
      ∙ hash_request_body-request req text
          (annotate-ok "failed to hash request body" (hash_request_body crypto) req text p)

  module _ {S : Type 0} (v : Verifier S) where
    check_credential-request :
        (ak client : String) (t : State S) (cred : Credential)
        → (check_credential crypto v ak client t).0 ≡ ok cred
        → (check_credential crypto v ak client t).1.1 ≡ t.1
    unfolding check_credential annotate lift
    check_credential-request ak client t cred h =
        let look = annotate "credential lookup failed" (lift (v.store ak)) in
        let (found, p, h1) = bind-ok look _ t cred h in
        let (c, q, h2) = bind-ok (lift (usable found)) _ t cred h1 in
        ap (λ r. r.1.1) (bind-run look _ t found p ∙ bind-run (lift (usable found)) _ t c q)
        ∙ check_signature-request c client t.1 cred h2

    verify-request :
        (now at : ℕ) (t : State S) (cred : Credential)
        → (verify crypto v now at t).0 ≡ ok cred
        → (verify crypto v now at t).1.1 ≡ t.1
    unfolding verify lift
    verify-request now at t cred h =
        let auth = parse_auth_header (header "Authorization" t) in
        let stamp =
          parse_and_validate_timestamp now (header "X-NSP-Timestamp" t) v.timestamp_tolerance in
        let ((ak, client), p, h1) = bind-ok (lift auth) _ t cred h in
        let (s, q, h2) = bind-ok (lift stamp) _ t cred h1 in
        let (u, r, h3) = bind-ok (check_nonce v at (header "X-NSP-Nonce" t)) _ t cred h2 in
        ap (λ r. r.1.1)
          (bind-run (lift auth) _ t (ak, client) p
            ∙ bind-run (lift stamp) _ t s q
            ∙ bind-run (check_nonce v at (header "X-NSP-Nonce" t)) _ t u r)
        ∙ check_credential-request ak client _ cred h3
        ∙ check_nonce-request v at (header "X-NSP-Nonce" t) t

    -- A request that is not skipped either is accepted by Verify, and the handlers run on it as
    -- it came, body included, with the credential in both contexts; or it is refused, and the
    -- handlers do not run: the answer is the failure handler's, and the context is aborted.
    pub aksk_auth_middleware-cases :
        (opt : MiddlewareOption) (next : GinContext → GinContext) (now at : ℕ) (s : S)
        (c : GinContext)
        → is_skipped opt.skipper c ≡ false
        → ((cred : Credential) × ((verify crypto v now at (s, c.request)).0 ≡ ok cred)
            × ((aksk_auth_middleware crypto v opt next now at (s, c)).1
                ≡ next (record c { gin_credential = some cred; ctx_credential = some cred })))
          ⊎ ((e : AuthError) × ((verify crypto v now at (s, c.request)).0 ≡ err e)
              × ((aksk_auth_middleware crypto v opt next now at (s, c)).1
                  ≡ abort (
                      answer_failure opt.on_auth_failed
                        (record c { request = (verify crypto v now at (s, c.request)).1.1 })
                        e)))
    unfolding aksk_auth_middleware
    aksk_auth_middleware-cases opt next now at s c taken =
        elim (Result-cases (verify crypto v now at (s, c.request)).0) [
          | inl (cred, e) ↦ inl (
            cred,
            e,
            rw taken (
                ap
                  (on_verified opt next
                    (record c { request = (verify crypto v now at (s, c.request)).1.1 }))
                  e
                ∙ ap
                    (λ r. next (record c {
                      request = r;
                      gin_credential = some cred;
                      ctx_credential = some cred;
                    }))
                    (verify-request now at (s, c.request) cred e)),
          )
          | inr (e', e) ↦ inr (
            e',
            e,
            rw taken (
                ap
                  (on_verified opt next
                    (record c { request = (verify crypto v now at (s, c.request)).1.1 }))
                  e),
          )
        ]
