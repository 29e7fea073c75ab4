-- ===== src/Auth/Admission.antt =====
-- How the failures of Verify are answered.
use nsp_platform.Base.{
  ℕ, ◌≡◌, refl, ap, sym, String, Bool, true, false, Option, some, none, Bool-cases, Option-cases,
  inl, inr, ◌⊎◌, str_eq, List, [], ◌||◌,
}
use mathlib.Core.Path.{subst}
use nsp_platform.Auth.Accepted.{refuse_used-state}
use nsp_platform.Base.Text.{is_empty, atoi}
use nsp_platform.Base.Maps.{lookup}
use nsp_platform.Http.{HttpRequest}
use nsp_platform.Auth.Errors.{ok, AuthError, error_to_http_status}
use nsp_platform.Auth.Actions.{
  ◌>>=◌, lift, raise, pure, annotate, with_prefix, bind-state, Errors, bind-Errors,
}
use nsp_platform.Auth.Stores.{Credential}
use nsp_platform.Auth.MemoryStore.{Creds, get_by_ak}
use nsp_platform.Auth.MemoryNonceStore.{Nonces, check_and_store, memory_nonce_store}
use nsp_platform.Auth.Signing.{Crypto}
use nsp_platform.Auth.Signed.{IsReadable, hash-readable}
use nsp_platform.Auth.Header.{
  parse_auth_header, parse_and_validate_timestamp, checked_params, both_present, cut_prefix,
  parse_params, exceeds, magnitude, time_since, wrapped_seconds,
}
use nsp_platform.Base.Split.{split_pair}
use nsp_platform.Auth.Verifier.{
  Verifier, State, header, usable, on_nonces, refuse_used, check_nonce, check_credential,
  check_signature, compare_signature, verify,
}

-- Answered with 400 or 401.
abbrev pub IsRefusal : AuthError → Type 0
IsRefusal e = (error_to_http_status e ≡ 400) ⊎ (error_to_http_status e ≡ 401)

both_present-IsRefusal :
    (ak signature : Option String) → Errors IsRefusal (both_present ak signature)
both_present-IsRefusal none s = inl refl
both_present-IsRefusal (some ak) none = inl refl
both_present-IsRefusal (some ak) (some s) = elim (Bool-cases (is_empty ak || is_empty s)) [
  | inl e ↦ rw e (inl refl)
  | inr e ↦ rw e tt
]

checked_params-IsRefusal :
    (params : Option (List (String × String))) → Errors IsRefusal (checked_params params)
checked_params-IsRefusal none = inl refl
checked_params-IsRefusal (some params) =
    both_present-IsRefusal (lookup "AK" params) (lookup "Signature" params)

parse_auth_header-IsRefusal : (text : String) → Errors IsRefusal (parse_auth_header text)
unfolding parse_auth_header parse_params
parse_auth_header-IsRefusal text = elim (Bool-cases (is_empty text)) [
  | inl e ↦ rw e (inl refl)
  | inr e ↦ rw e (elim (Option-cases (cut_prefix ("NSP-HMAC-SHA256 ") text)) [
    | inl f ↦ rw f (inl refl)
    | inr (content, f) ↦
        rw f (checked_params-IsRefusal (parse_params (split_pair 44 32 content) []))
  ])
]

timestamp-IsRefusal :
    (now tolerance : ℕ) (text : String)
    → Errors IsRefusal (parse_and_validate_timestamp now text tolerance)
unfolding parse_and_validate_timestamp
timestamp-IsRefusal now tolerance text = elim (Bool-cases (is_empty text)) [
  | inl e ↦ rw e (inl refl)
  | inr e ↦ elim (Option-cases (atoi text)) [
    | inl f ↦ rw (e, f) (inl refl)
    | inr (s, f) ↦
        rw (e, f)
          (elim (Bool-cases (exceeds (magnitude (time_since now (wrapped_seconds s))) tolerance)) [
            | inl g ↦ rw g (inr refl)
            | inr g ↦ rw g tt
          ])
  ]
]

refuse_used-IsRefusal :
    {S : Type 0} (used : Bool) (t : State S) → Errors IsRefusal (refuse_used used t).0
unfolding refuse_used raise pure
refuse_used-IsRefusal true t = inr refl
refuse_used-IsRefusal false t = tt

usable-IsRefusal : (found : Option Credential) → Errors IsRefusal (usable found)
usable-IsRefusal none = inr refl
usable-IsRefusal (some cred) =
    elim cred.enabled as (λ b. Errors IsRefusal (usable (some (record cred { enabled = b })))) [
      | true ↦ tt
      | false ↦ inr refl
    ]

compare_signature-IsRefusal :
    (cred : Credential) (client expected : String)
    → Errors IsRefusal (compare_signature cred client expected)
compare_signature-IsRefusal cred client expected = elim (Bool-cases (str_eq client expected)) [
  | inl e ↦ rw e tt
  | inr e ↦ rw e (inr refl)
]

check_and_store-ok :
    (now : ℕ) (nonce : String) (ttl : ℕ) (s : Nonces) (text : String)
    → Errors IsRefusal (with_prefix text (check_and_store now nonce ttl s).0)
unfolding check_and_store
check_and_store-ok now nonce ttl s text = elim (Option-cases (lookup nonce s)) [
  | inl e ↦ rw e tt
  | inr (t, e) ↦ rw e tt
]

check_nonce-IsRefusal :
    (v : Verifier Nonces) (at : ℕ) (nonce : String) (t : State Nonces)
    → v.nonces ≡ memory_nonce_store
    → Errors IsRefusal (check_nonce v at nonce t).0
unfolding check_nonce raise annotate
check_nonce-IsRefusal v at nonce t mem = elim (Bool-cases (is_empty nonce)) [
  | inl e ↦ rw e (inl refl)
  | inr e ↦
      rw (e, mem)
        (bind-Errors IsRefusal
          (annotate "nonce check failed"
            (on_nonces (memory_nonce_store.check_and_store at nonce v.nonce_ttl)))
          refuse_used t (check_and_store-ok at nonce v.nonce_ttl t.0 "nonce check failed")
          λ used. refuse_used-IsRefusal used _)
]

pub check_nonce-request :
    {S : Type 0} (v : Verifier S) (at : ℕ) (nonce : String) (t : State S)
    → (check_nonce v at nonce t).1.1 ≡ t.1
unfolding check_nonce raise annotate
check_nonce-request v at nonce t = elim (Bool-cases (is_empty nonce)) [
  | inl e ↦ rw e refl
  | inr e ↦ rw e (
      bind-state (λ t'. t'.1 ≡ t.1)
        (annotate "nonce check failed" (on_nonces (v.nonces.check_and_store at nonce v.nonce_ttl)))
        refuse_used t refl λ used. ap (λ t'. t'.1) (refuse_used-state used _))
]

check_signature-IsRefusal :
    (crypto : Crypto) (cred : Credential) (client : String) (req : HttpRequest)
    → IsReadable req.body
    → Errors IsRefusal (check_signature crypto cred client req).0
unfolding check_signature ◌>>=◌ annotate
check_signature-IsRefusal crypto cred client req readable =
    rw (hash-readable crypto req readable) (compare_signature-IsRefusal cred client _)

module _ (crypto : Crypto) (creds : Creds) (v : Verifier Nonces) where
  get_by_ak-ok : (ak : String) → get_by_ak creds ak ≡ ok (lookup ak creds)
  unfolding get_by_ak
  get_by_ak-ok ak = refl

  check_credential-IsRefusal :
      (ak client : String) (t : State Nonces)
      → v.store ≡ get_by_ak creds
      → IsReadable t.1.body
      → Errors IsRefusal (check_credential crypto v ak client t).0
  unfolding check_credential annotate lift
  check_credential-IsRefusal ak client t store readable =
      bind-Errors IsRefusal (annotate "credential lookup failed" (lift (v.store ak))) _ t found_ok
        λ found.
          bind-Errors IsRefusal (lift (usable found)) _ t (usable-IsRefusal found)
            λ cred. check_signature-IsRefusal crypto cred client t.1 readable
    where
      found_ok : Errors IsRefusal (with_prefix "credential lookup failed" (v.store ak))
      found_ok = rw (store, get_by_ak-ok ak) tt

  -- Over the stores in memory, Verify fails for a request with a readable body only with errors
  -- that ErrorToHTTPStatus maps to 400 or 401.
  pub verify-IsRefusal :
      (now at : ℕ) (t : State Nonces)
      → v.nonces ≡ memory_nonce_store
      → v.store ≡ get_by_ak creds
      → IsReadable t.1.body
      → Errors IsRefusal (verify crypto v now at t).0
  unfolding verify lift
  verify-IsRefusal now at t mem store readable =
      let stamp =
        parse_and_validate_timestamp now (header "X-NSP-Timestamp" t) v.timestamp_tolerance in
      bind-Errors IsRefusal (lift (parse_auth_header (header "Authorization" t))) _ t
        (parse_auth_header-IsRefusal (header "Authorization" t))
        λ auth.
          bind-Errors IsRefusal (lift stamp) _ t
            (timestamp-IsRefusal now v.timestamp_tolerance (header "X-NSP-Timestamp" t))
            λ s.
              bind-Errors IsRefusal (check_nonce v at (header "X-NSP-Nonce" t)) _ t
                (check_nonce-IsRefusal v at (header "X-NSP-Nonce" t) t mem)
                λ u. check_credential-IsRefusal auth.0 auth.1 _ store (
                  subst (λ r. IsReadable r.body)
                    (sym (check_nonce-request v at (header "X-NSP-Nonce" t) t)) readable)
