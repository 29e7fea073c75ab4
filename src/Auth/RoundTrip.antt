-- ===== src/Auth/RoundTrip.antt =====
-- A request that Sign has signed is accepted by Verify.
use nsp_platform.Base.{
  ℕ, ◌+◌, ◌/◌, ◌^◌, ◌<◌, ◌≡◌, refl, ap, ◌∙◌, String, true, false, some, List, arith, str_eq_refl,
  inl, if◌then◌else◌,
}
use nsp_platform.Base.Lists.{length}
use nsp_platform.Base.Int.{pos}
use nsp_platform.Base.Text.{is_empty, show_nat}
use nsp_platform.Base.Hex.{hex_encode, hex_encode-all_hex, hex_encode-is_empty}
use nsp_platform.Base.Visible.{all_visible, all_hex-visible}
use nsp_platform.Base.Decimal.{atoi-show_nat, show_nat-is_empty}
use nsp_platform.Http.{HttpRequest, get_header}
use nsp_platform.Auth.Errors.{ok, err, ak_not_found, signature_mismatch}
use nsp_platform.Auth.Actions.{◌>>=◌, lift, pure, annotate, with_prefix, bind-run}
use nsp_platform.Auth.Stores.{Credential}
use nsp_platform.Auth.Signing.{
  Crypto, Signer, default_signed_headers, second, hash_of, build_string_to_sign,
  compute_hmac_sha256, auth_header, sign,
}
use nsp_platform.Auth.Header.{
  parse_auth_header, parse_and_validate_timestamp, max_duration, unix_to_internal,
}
use nsp_platform.Auth.HeaderRoundTrip.{parse-header}
use nsp_platform.Auth.Timestamps.{IsWithin, validate_iff}
use nsp_platform.Auth.Signed.{
  IsReadable, bytes_of, hash-readable, string_to_sign-authorization, sign-run, signature, unsigned,
  with_headers, signed_request, sent-authorization, sent-signed_headers, sent-nonce, sent-timestamp,
}
use nsp_platform.Auth.Verifier.{
  Verifier, State, usable, refuse_used, check_nonce, check_signature, compare_signature,
  expected_signature, check_credential, verify, signed_headers,
}

check_nonce-fresh :
    {S : Type 0} (v : Verifier S) (at : ℕ) (nonce : String) (t : State S)
    → is_empty nonce ≡ false
    → (v.nonces.check_and_store at nonce v.nonce_ttl t.0).0 ≡ ok false
    → (check_nonce v at nonce t).0 ≡ ok tt × ((check_nonce v at nonce t).1.1 ≡ t.1)
unfolding check_nonce ◌>>=◌ annotate refuse_used pure
check_nonce-fresh v at nonce t e fresh = rw (e, fresh) (refl, refl)

module _ (crypto : Crypto) (signer : Signer) (req : HttpRequest) (sent_at : ℕ) (random : List ℕ)
    (readable : IsReadable req.body) where
  abbrev signed : HttpRequest
  signed = signed_request crypto signer req sent_at random

  names_signed : signed_headers signed ≡ default_signed_headers
  names_signed =
      ap (λ named. if is_empty named then default_signed_headers else named)
        (sent-signed_headers crypto signer req sent_at random)

  expected_signed :
      (cred : Credential)
      → cred.secret_key ≡ signer.secret_key
      → expected_signature crypto cred signed (hash_of crypto (bytes_of req.body))
        ≡ signature crypto signer req sent_at random
  expected_signed cred key =
      let body_hash = hash_of crypto (bytes_of req.body) in
      ap
        (λ k.
          compute_hmac_sha256 crypto k
            (build_string_to_sign crypto signed (signed_headers signed) body_hash))
        key
      ∙ ap (compute_hmac_sha256 crypto signer.secret_key) (
          ap (λ names. build_string_to_sign crypto signed names body_hash) names_signed
          ∙ string_to_sign-authorization crypto
              (with_headers crypto signer req (unsigned crypto signer req sent_at random))
              (auth_header signer.access_key (signature crypto signer req sent_at random))
              body_hash)

  check_signature-signed :
      (cred : Credential)
      → cred.secret_key ≡ signer.secret_key
      → (check_signature crypto cred (signature crypto signer req sent_at random) signed).0
        ≡ ok cred
  unfolding check_signature ◌>>=◌ annotate
  check_signature-signed cred key = rw (hash-readable crypto signed readable) (
      ap (compare_signature cred (signature crypto signer req sent_at random))
        (expected_signed cred key)
      ∙ ap (λ b. if b then ok cred else err signature_mismatch)
          (str_eq_refl (signature crypto signer req sent_at random)))

  check_credential-signed :
      {S : Type 0} (v : Verifier S) (t : State S) (cred : Credential)
      → t.1 ≡ signed
      → v.store signer.access_key ≡ ok (some cred)
      → cred.enabled ≡ true
      → cred.secret_key ≡ signer.secret_key
      → (check_credential crypto v signer.access_key
          (signature crypto signer req sent_at random)
          t).0
        ≡ ok cred
  unfolding check_credential annotate lift
  check_credential-signed v t cred same found enabled key =
      ap (λ r. r.0)
        (bind-run (annotate "credential lookup failed" (lift (v.store signer.access_key))) _ t
            (some cred) (ap (with_prefix "credential lookup failed") found)
          ∙ bind-run (lift (usable (some cred))) _ t cred
              (ap (λ b. if b then ok cred else err ak_not_found) enabled))
      ∙ ap (λ r. (check_signature crypto cred (signature crypto signer req sent_at random) r).0)
          same
      ∙ check_signature-signed cred key

  -- A request that is signed with the secret key of an enabled credential is accepted while the
  -- clock stays within the tolerance of the second in which it was signed, if its nonce is new,
  -- the key has no blanks and commas, and the body can be read and is not too large.
  pub verify-sign :
      {S : Type 0} (v : Verifier S) (now at : ℕ) (s : S) (cred : Credential)
      → ((k d : String) → length (crypto.hmac_sha256 k d) ≡ 32)
      → length random ≡ 16
      → all_visible signer.access_key ≡ true
      → is_empty signer.access_key ≡ false
      → v.store signer.access_key ≡ ok (some cred)
      → cred.enabled ≡ true
      → cred.secret_key ≡ signer.secret_key
      → v.timestamp_tolerance < max_duration
      → sent_at / second + unix_to_internal < 2 ^ 63
      → IsWithin v.timestamp_tolerance now (sent_at / second)
      → (v.nonces.check_and_store at (hex_encode random) v.nonce_ttl s).0 ≡ ok false
      → (verify crypto v now at (s, (sign crypto signer sent_at (ok random) req).1)).0 ≡ ok cred
  unfolding verify lift compute_hmac_sha256
  verify-sign v now at s cred hmac_length random_length visible named found enabled key tolerance
        bound close fresh =
      rw (sign-run crypto signer req sent_at random readable) (
        ap (λ r. r.0)
          (bind-run (lift (parse_auth_header (get_header "Authorization" signed.headers))) _
              (s, signed) (signer.access_key, signature crypto signer req sent_at random)
              (ap parse_auth_header (sent-authorization crypto signer req sent_at random)
                ∙ parse-header signer.access_key (signature crypto signer req sent_at random)
                    visible (all_hex-visible _ (hex_encode-all_hex _)) named
                    (hex_encode-is_empty _ 31 (hmac_length _ _)))
            ∙ bind-run
                (lift (
                  parse_and_validate_timestamp now (get_header "X-NSP-Timestamp" signed.headers)
                    v.timestamp_tolerance))
                _ (s, signed) (pos (sent_at / second))
                (ap (λ x. parse_and_validate_timestamp now x v.timestamp_tolerance)
                    (sent-timestamp crypto signer req sent_at random)
                  ∙ (validate_iff now v.timestamp_tolerance (sent_at / second)
                        (show_nat (sent_at / second)) tolerance bound (show_nat-is_empty _)
                        (atoi-show_nat _ (omega arith))).1
                      (inl close))
            ∙ bind-run (check_nonce v at (get_header "X-NSP-Nonce" signed.headers)) _ (s, signed) tt
                checked.0)
        ∙ check_credential-signed v _ cred checked.1 found enabled key)
    where
      checked :
          ((check_nonce v at (get_header "X-NSP-Nonce" signed.headers) (s, signed)).0 ≡ ok tt)
          × ((check_nonce v at (get_header "X-NSP-Nonce" signed.headers) (s, signed)).1.1 ≡ signed)
      checked = rw (sent-nonce crypto signer req sent_at random) (
          check_nonce-fresh v at (hex_encode random) (s, signed)
            (hex_encode-is_empty random 15 random_length) fresh)
