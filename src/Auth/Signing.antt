-- ===== src/Auth/Signing.antt =====
-- The signing half of auth/aksk.go: the string to sign, the hash of the body, and Sign. The clock
-- counts nanoseconds since 1970; SHA-256, HMAC and the package net/url are parameters.
use Prim.Native.String.{◌++◌}
use nsp_platform.Base.{
  ℕ, suc, ◌+◌, ◌*◌, ◌-◌, ◌/◌, ltb, leb, String, Bool, true, false, List, [], ◌∷◌, map, Option, none,
  some, if◌then◌else◌,
}
use nsp_platform.Base.Lists.{length, drop}
use nsp_platform.Base.Text.{is_empty, trim_space, show_nat, texts}
use nsp_platform.Base.Split.{split, join, sort_strings}
use nsp_platform.Base.Maps.{lookup}
use nsp_platform.Base.Hex.{hex_encode}
use nsp_platform.Http.{HttpRequest, Body, Headers, get_header, set_header, to_upper, to_lower}
use nsp_platform.Auth.Actions.{Act, ◌>>=◌, ◌>>◌, lift, modify, get, annotate}
use nsp_platform.Auth.Errors.{Result, ok, err, body_too_large, external}

pub record Crypto : Type 0 where
  pub sha256 : List ℕ → List ℕ
  pub hmac_sha256 : String → String → List ℕ
  -- `url.ParseQuery`: none for its error, else the map in the order that it is walked in.
  pub parse_query : String → Option (List (String × List String))
  pub query_escape : String → String

abbrev pub max_request_body_size : ℕ
max_request_body_size = 10 * 1024 * 1024

abbrev pub default_signed_headers : String
default_signed_headers = "content-type;x-nsp-nonce;x-nsp-timestamp"

abbrev pub auth_scheme : String
auth_scheme = "NSP-HMAC-SHA256"

abbrev pub values_of : Option (List String) → List String
values_of none = []
values_of (some vs) = vs

module _ (crypto : Crypto) where
  abbrev escaped_pairs : String → List String → List String
  escaped_pairs k [] = []
  escaped_pairs k (v ∷ vs) =
      texts (crypto.query_escape k ∷ "=" ∷ crypto.query_escape v ∷ []) ∷ escaped_pairs k vs

  abbrev all_pairs : List (String × List String) → List String → List String
  all_pairs values [] = []
  all_pairs values (k ∷ ks) =
      nsp_platform.Base.◌++◌ (escaped_pairs k (sort_strings (values_of (lookup k values))))
        (all_pairs values ks)

  abbrev sorted_query : Option (List (String × List String)) → String → String
  sorted_query none raw = raw
  sorted_query (some values) raw =
      join "&" (all_pairs values (sort_strings (map (λ entry. entry.0) values)))

  unfoldable pub build_canonical_query_string : String → String
  build_canonical_query_string raw =
      if is_empty raw then "" else sorted_query (crypto.parse_query raw) raw

  abbrev pub header_lines : Headers → List String → String
  header_lines headers [] = ""
  header_lines headers (h ∷ hs) =
      let name = trim_space h in
      to_lower name
      ++ ":"
      ++ trim_space (get_header name headers)
      ++ "\n"
      ++ header_lines headers hs

  unfoldable pub build_canonical_headers : Headers → String → String
  build_canonical_headers headers signed =
      if is_empty signed then "" else header_lines headers (split 59 signed)

  unfoldable pub build_string_to_sign : HttpRequest → String → String → String
  unfolding build_canonical_query_string build_canonical_headers
  build_string_to_sign req signed body_hash =
      to_upper req.method
      ++ "\n"
      ++ (if is_empty req.path then "/" else req.path)
      ++ "\n"
      ++ build_canonical_query_string req.raw_query
      ++ "\n"
      ++ build_canonical_headers req.headers signed
      ++ signed
      ++ "\n"
      ++ body_hash

  unfoldable pub compute_hmac_sha256 : String → String → String
  compute_hmac_sha256 key text = hex_encode (crypto.hmac_sha256 key text)

  -- `ReadAll(LimitReader(body, max+1))`: the reader's error counts if the limit is not reached.
  abbrev pub read_failure : Body → Option String
  read_failure body = if ltb max_request_body_size (length body.bytes) then none else body.failure

  abbrev pub hash_of : List ℕ → String
  hash_of bytes = hex_encode (crypto.sha256 bytes)

  abbrev pub hash_read : HttpRequest → Body → Option String → Result String × HttpRequest
  hash_read req body (some text) =
      (err (external text), record req { body = some (record body { bytes = [] }) })
  hash_read req body none =
      if ltb max_request_body_size (length body.bytes)
      then (
        err body_too_large,
        record req {
          body = some (record body { bytes = drop (suc max_request_body_size) body.bytes });
        },
      )
      else (
        ok (hash_of body.bytes),
        record req { body = some (record { bytes = body.bytes; failure = none }) },
      )

  abbrev pub hash_body : HttpRequest → Option Body → Result String × HttpRequest
  hash_body req none = (ok (hash_of []), req)
  hash_body req (some body) = hash_read req body (read_failure body)

  -- The body is read, and put back for the next reader.
  unfoldable pub hash_request_body : Act HttpRequest String
  hash_request_body req = hash_body req req.body

abbrev pub second : ℕ
second = 1000000000

-- `generateNonce`, given what `rand.Read` answers.
unfoldable pub generate_nonce : Result (List ℕ) → Result String
generate_nonce (ok bytes) = ok (hex_encode bytes)
generate_nonce (err e) = err e

pub record Signer : Type 0 where
  pub access_key : String
  pub secret_key : String

unfoldable pub new_signer : String → String → Signer
new_signer ak sk = record { access_key = ak; secret_key = sk }

unfoldable pub auth_header : String → String → String
auth_header ak signature = auth_scheme ++ " AK=" ++ ak ++ ", Signature=" ++ signature

unfoldable pub sign_string : Crypto → Signer → String → Act HttpRequest (Unit {0})
unfolding modify get ◌>>=◌ compute_hmac_sha256 auth_header
sign_string crypto signer body_hash = do
  req ← get
  let text = build_string_to_sign crypto req default_signed_headers body_hash
  let signature = compute_hmac_sha256 crypto signer.secret_key text
  modify (λ r. record r {
    headers = set_header "Authorization" (auth_header signer.access_key signature) r.headers;
  })

abbrev set : String → String → Act HttpRequest (Unit {0})
unfolding modify
set name value = modify (λ r. record r { headers = set_header name value r.headers })

-- `Sign` at a time, given the random bytes of the nonce.
unfoldable pub sign : Crypto → Signer → ℕ → Result (List ℕ) → Act HttpRequest (Unit {0})
unfolding ◌>>=◌ lift annotate generate_nonce hash_request_body sign_string
sign crypto signer now random = do
  set "X-NSP-Timestamp" (show_nat (now / second))
  nonce ← annotate "failed to generate nonce" (lift (generate_nonce random))
  set "X-NSP-Nonce" nonce
  body_hash ← annotate "failed to hash request body" (hash_request_body crypto)
  set "X-NSP-SignedHeaders" default_signed_headers
  sign_string crypto signer body_hash
