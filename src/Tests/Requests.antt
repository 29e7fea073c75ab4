-- ===== src/Tests/Requests.antt =====
-- Signed requests at concrete inputs: a toy hash, a client, a server with one credential, and a
-- replay after a cleanup.
use nsp_platform.Base.{
  ℕ, zero, suc, ◌+◌, ◌*◌, ◌≡◌, ◌≢◌, refl, String, true, false, List, [], ◌∷◌, none, some, arith,
  ◌⊎◌, ◌↔◌,
}
use nsp_platform.Base.Int.{pos}
use nsp_platform.Base.Text.{show_nat, show_digits, digit, atoi, signed, digits_value}
use nsp_platform.Base.Visible.{all_visible}
use nsp_platform.Http.{HttpRequest, get_header, set_header, canonical_key}
use nsp_platform.Auth.Errors.{ok, err, AuthError}
use nsp_platform.Auth.Actions.{Errors}
use nsp_platform.Auth.Stores.{Credential}
use nsp_platform.Auth.MemoryStore.{Creds, get_by_ak}
use nsp_platform.Auth.MemoryNonceStore.{Nonces, check_and_store, memory_nonce_store}
use nsp_platform.Auth.Signing.{Crypto, Signer, sign, second, auth_header, hash_of}
use nsp_platform.Auth.Header.{parse_auth_header, parse_and_validate_timestamp}
use nsp_platform.Auth.HeaderRoundTrip.{parse-header}
use nsp_platform.Auth.Verifier.{
  Verifier, verify, expected_signature, default_nonce_ttl, default_timestamp_tolerance,
}
use nsp_platform.Auth.Timestamps.{IsWithin, IsFarAhead, validate_iff}
use nsp_platform.Auth.Replay.{Event, checks, cleans, apply_all, check-check, verify-verify}
use nsp_platform.Auth.RoundTrip.{verify-sign}
use nsp_platform.Auth.Admission.{IsRefusal, verify-IsRefusal}
use nsp_platform.Auth.Middleware.{
  GinContext, no_option, abort, default_auth_failed_handler, aksk_auth_middleware,
}
use nsp_platform.Auth.Authentic.{verify-authentic}
use nsp_platform.Auth.Signed.{bytes_of}
use nsp_platform.Auth.Gate.{aksk_auth_middleware-cases}

abbrev repeat : ℕ → ℕ → List ℕ
repeat zero b = []
repeat (suc n) b = b ∷ repeat n b

abbrev crypto : Crypto
crypto = record {
  sha256 = λ bs. bs;
  hmac_sha256 = λ k d. repeat 32 171;
  parse_query = λ q. none;
  query_escape = λ s. s;
}

abbrev cred : Credential
cred = record {
  access_key = "orders";
  secret_key = "s3cret";
  label = "order service";
  enabled = true;
}

abbrev creds : Creds
creds = ("orders", cred) ∷ []

abbrev signer : Signer
signer = record { access_key = "orders"; secret_key = "s3cret" }

abbrev verifier : Verifier Nonces
verifier = record {
  store = get_by_ak creds;
  nonces = memory_nonce_store;
  timestamp_tolerance = default_timestamp_tolerance;
  nonce_ttl = default_nonce_ttl;
}

abbrev request : HttpRequest
request = record {
  method = "POST";
  path = "/orders";
  raw_query = "";
  headers = ("Content-Type", "application/json") ∷ [];
  body = some (record { bytes = 123 ∷ 125 ∷ []; failure = none });
}

abbrev sent_at : ℕ
sent_at = 1700000000 * second

abbrev random : List ℕ
random = repeat 16 7

abbrev signed_one : HttpRequest
signed_one = (sign crypto signer sent_at (ok random) request).1

verify-sign_example :
    (verify crypto verifier (sent_at + second) (sent_at + second) ([], signed_one)).0 ≡ ok cred
unfolding get_by_ak check_and_store all_visible
verify-sign_example =
    verify-sign crypto signer request sent_at random (refl, omega arith) verifier (sent_at + second)
      (sent_at + second) [] cred (λ k d. refl) refl refl refl refl refl refl (omega arith)
      (omega arith) (omega arith, omega arith) refl

verify-IsRefusal_example : Errors IsRefusal (verify crypto verifier sent_at sent_at ([], request)).0
verify-IsRefusal_example =
    verify-IsRefusal crypto creds verifier sent_at sent_at ([], request) refl refl
      (refl, omega arith)

validate_iff_example :
    (parse_and_validate_timestamp sent_at "1700000003" (5 * second) ≡ ok (pos 1700000003))
    ↔ (IsWithin (5 * second) sent_at 1700000003 ⊎ IsFarAhead sent_at 1700000003)
unfolding atoi signed digits_value
validate_iff_example =
    validate_iff sent_at (5 * second) 1700000003 "1700000003" (omega arith) (omega arith) refl refl

parse-header_example : parse_auth_header (auth_header "orders" "abab") ≡ ok ("orders", "abab")
unfolding all_visible
parse-header_example = parse-header "orders" "abab" refl refl refl refl

-- Another request, and a cleanup 20 minutes later.
abbrev history : List Event
history =
    checks (sent_at + 3 * second) "n2" default_nonce_ttl ∷ cleans (sent_at + 1200 * second) ∷ []

check-check_example :
    (check_and_store
      (sent_at + 1300 * second)
      "n1"
      default_nonce_ttl
      (apply_all history (check_and_store sent_at "n1" default_nonce_ttl []).1)).0
    ≡ ok true
unfolding check_and_store
check-check_example =
    check-check sent_at (sent_at + 1300 * second) default_nonce_ttl default_nonce_ttl "n1" history
      [] (omega arith) refl (omega arith, (omega arith, tt))

-- The signed request is accepted.
accepted :
    (verify crypto verifier (sent_at + second) (sent_at + second) ([], signed_one)).0 ≡ ok cred
unfolding get_by_ak check_and_store all_visible
accepted =
    verify-sign crypto signer request sent_at random (refl, omega arith) verifier (sent_at + second)
      (sent_at + second) [] cred (λ k d. refl) refl refl refl refl refl refl (omega arith)
      (omega arith) (omega arith, omega arith) refl

verify-verify_example :
    (verify crypto verifier (sent_at + 1300 * second) (sent_at + 1301 * second) (
      apply_all history
          (verify crypto verifier (sent_at + second) (sent_at + second) ([], signed_one)).1.0,
      signed_one,
    )).0
    ≢ ok cred
unfolding sign atoi signed digits_value show_nat show_digits digit set_header get_header
    canonical_key
verify-verify_example =
    verify-verify crypto verifier (sent_at + second) (sent_at + second) (sent_at + 1300 * second)
      (sent_at + 1301 * second) second [] signed_one signed_one history cred cred (pos 1700000000)
      refl (omega arith) (omega arith) (omega arith) (omega arith) (omega arith, (omega arith, tt))
      refl refl refl (omega arith) accepted

verify-authentic_example :
    (ak : String) × (client : String) × (parse_auth_header
        (get_header "Authorization" signed_one.headers)
      ≡ ok (ak, client))
    × (verifier.store ak ≡ ok (some cred))
    × (cred.enabled ≡ true)
    × (client
        ≡ expected_signature crypto cred signed_one (hash_of crypto (bytes_of signed_one.body)))
verify-authentic_example =
    verify-authentic crypto verifier (sent_at + second) (sent_at + second) ([], signed_one) cred
      accepted

abbrev context : GinContext
context = record {
  request = request;
  gin_credential = none;
  ctx_credential = none;
  answer = none;
  aborted = false;
}

aksk_auth_middleware-cases_example :
    ((c : Credential) × ((verify crypto verifier sent_at sent_at ([], request)).0 ≡ ok c)
      × ((aksk_auth_middleware crypto verifier no_option (λ x. x) sent_at sent_at ([], context)).1
          ≡ record context { gin_credential = some c; ctx_credential = some c }))
    ⊎ ((e : AuthError) × ((verify crypto verifier sent_at sent_at ([], request)).0 ≡ err e)
        × ((aksk_auth_middleware crypto verifier no_option (λ x. x) sent_at sent_at ([], context)).1
            ≡ abort (
                default_auth_failed_handler
                  (record context {
                    request = (verify crypto verifier sent_at sent_at ([], request)).1.1;
                  })
                  e)))
aksk_auth_middleware-cases_example =
    aksk_auth_middleware-cases crypto verifier no_option (λ x. x) sent_at sent_at [] context refl
