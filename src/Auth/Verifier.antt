-- ===== src/Auth/Verifier.antt =====
-- The verifying half of auth/aksk.go: NewVerifier and Verify. A call of Verify reads the clock
-- twice, for the timestamp and in the nonce store; what it changes is the store of nonces and the
-- request, whose body is read and put back.
use nsp_platform.Base.{ℕ, ◌*◌, String, Bool, Option, none, some, if◌then◌else◌, str_eq}
use nsp_platform.Base.Int.{ℤ, is_pos, pos_part}
use nsp_platform.Base.Text.{is_empty}
use nsp_platform.Http.{HttpRequest, get_header}
use nsp_platform.Auth.Errors.{
  Result, ok, err, missing_nonce, nonce_reused, ak_not_found, signature_mismatch,
}
use nsp_platform.Auth.Actions.{Act, ◌>>=◌, ◌>>◌, lift, pure, raise, annotate}
use nsp_platform.Auth.Stores.{Credential, CredentialStore, NonceStore}
use nsp_platform.Auth.Signing.{
  Crypto, default_signed_headers, second, hash_request_body, build_string_to_sign,
  compute_hmac_sha256,
}
use nsp_platform.Auth.Header.{parse_auth_header, parse_and_validate_timestamp}

abbrev pub default_timestamp_tolerance : ℕ
default_timestamp_tolerance = 5 * 60 * second

abbrev pub default_nonce_ttl : ℕ
default_nonce_ttl = 15 * 60 * second

pub record VerifierConfig : Type 0 where
  pub timestamp_tolerance : ℤ
  pub nonce_ttl : ℤ

pub record Verifier (S : Type 0) : Type 0 where
  pub store : CredentialStore
  pub nonces : NonceStore S
  pub timestamp_tolerance : ℕ
  pub nonce_ttl : ℕ

-- `if d > 0 { field = d }`.
abbrev or_default : ℤ → ℕ → ℕ
or_default d default = if is_pos d then pos_part d else default

unfoldable pub new_verifier :
    {S : Type 0} → CredentialStore → NonceStore S → Option VerifierConfig → Verifier S
new_verifier store nonces none = record {
  store = store;
  nonces = nonces;
  timestamp_tolerance = default_timestamp_tolerance;
  nonce_ttl = default_nonce_ttl;
}
new_verifier store nonces (some cfg) = record {
  store = store;
  nonces = nonces;
  timestamp_tolerance = or_default cfg.timestamp_tolerance default_timestamp_tolerance;
  nonce_ttl = or_default cfg.nonce_ttl default_nonce_ttl;
}

-- The store of nonces and the request.
abbrev pub State : Type 0 → Type 0
State S = S × HttpRequest

abbrev pub on_request : {S A : Type 0} → Act HttpRequest A → Act (State S) A
on_request m (s, req) = let (r, req') = m req in (r, (s, req'))

abbrev pub on_nonces : {S A : Type 0} → Act S A → Act (State S) A
on_nonces m (s, req) = let (r, s') = m s in (r, (s', req))

abbrev pub header : {S : Type 0} → String → State S → String
header name t = get_header name t.1.headers

abbrev pub usable : Option Credential → Result Credential
usable none = err ak_not_found
usable (some cred) = if cred.enabled then ok cred else err ak_not_found

-- The signed headers that the request names, or the default ones.
abbrev pub signed_headers : HttpRequest → String
signed_headers req =
    let named = get_header "X-NSP-SignedHeaders" req.headers in
    if is_empty named then default_signed_headers else named

abbrev pub compare_signature : Credential → String → String → Result Credential
compare_signature cred client expected =
    if str_eq client expected then ok cred else err signature_mismatch

-- Step 3.
unfoldable pub refuse_used : {S : Type 0} → Bool → Act (State S) (Unit {0})
unfolding raise pure
refuse_used used = if used then raise nonce_reused else pure tt

module _ {S : Type 0} (v : Verifier S) where
  unfoldable pub check_nonce : ℕ → String → Act (State S) (Unit {0})
  unfolding ◌>>=◌ annotate raise refuse_used
  check_nonce now nonce =
      if is_empty nonce
      then raise missing_nonce
      else (annotate "nonce check failed"
            (on_nonces (v.nonces.check_and_store now nonce v.nonce_ttl))
          >>= refuse_used)

module _ (crypto : Crypto) where
  abbrev pub expected_signature : Credential → HttpRequest → String → String
  expected_signature cred req body_hash =
      compute_hmac_sha256 crypto cred.secret_key
        (build_string_to_sign crypto req (signed_headers req) body_hash)

  -- Steps 5 to 7.
  unfoldable pub check_signature : Credential → String → Act HttpRequest Credential
  unfolding ◌>>=◌ annotate hash_request_body
  check_signature cred client = do
    body_hash ← annotate "failed to hash request body" (hash_request_body crypto)
    λ req. (compare_signature cred client (expected_signature cred req body_hash), req)

  module _ {S : Type 0} (v : Verifier S) where
    -- Steps 4 to 7.
    unfoldable pub check_credential : String → String → Act (State S) Credential
    unfolding ◌>>=◌ annotate lift check_signature
    check_credential ak client = do
      found ← annotate "credential lookup failed" (lift (v.store ak))
      cred ← lift (usable found)
      on_request (check_signature cred client)

    unfoldable pub verify : ℕ → ℕ → Act (State S) Credential
    unfolding ◌>>=◌ lift parse_auth_header parse_and_validate_timestamp check_nonce check_credential
    verify now stored_at t =
        (do
          (ak, client) ← lift (parse_auth_header (header "Authorization" t))
          _ ←
              lift (
                parse_and_validate_timestamp now (header "X-NSP-Timestamp" t) v.timestamp_tolerance)
          check_nonce v stored_at (header "X-NSP-Nonce" t)
          check_credential ak client)
          t
