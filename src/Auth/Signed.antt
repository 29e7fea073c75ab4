-- ===== src/Auth/Signed.antt =====
-- What Sign makes of a request: its headers, and the text that its signature covers.
use nsp_platform.Base.{
  ℕ, ◌/◌, ◌≤◌, ◌≡◌, refl, ◌∙◌, ltb, String, false, Option, some, none, List, [], ◌∷◌, arith,
}
use nsp_platform.Base.Text.{show_nat, trim_space, trim_left, trim_right}
use nsp_platform.Base.Split.{split}
use nsp_platform.Base.Hex.{hex_encode}
use nsp_platform.Base.Lists.{length, All}
use nsp_platform.Http.{
  HttpRequest, Body, Headers, get_header, set_header, canonical_key, get_header-set_header,
  get_header-set_header_other,
}
use nsp_platform.Auth.Errors.{ok}
use nsp_platform.Auth.Actions.{◌>>=◌, lift, modify, get, annotate}
use nsp_platform.Auth.Signing.{
  Crypto, Signer, default_signed_headers, max_request_body_size, second, hash_of, hash_body,
  hash_request_body, build_string_to_sign, header_lines, build_canonical_headers,
  compute_hmac_sha256, auth_header, generate_nonce, sign_string, sign,
}

-- The body can be read to its end, and is not too large.
abbrev pub IsReadable : Option Body → Type 0
IsReadable none = Unit
IsReadable (some body) = (body.failure ≡ none) × (length body.bytes ≤ max_request_body_size)

abbrev pub bytes_of : Option Body → List ℕ
bytes_of none = []
bytes_of (some body) = body.bytes

module _ (crypto : Crypto) where
  pub hash-readable :
      (req : HttpRequest)
      → IsReadable req.body
      → hash_request_body crypto req ≡ (ok (hash_of crypto (bytes_of req.body)), req)
  unfolding hash_request_body
  hash-readable req h =
      elim req.body
          as (λ b.
            IsReadable b
            → hash_body crypto (record req { body = b }) b
              ≡ (ok (hash_of crypto (bytes_of b)), record req { body = b })) [
                | none ↦ λ _. refl
                | some body ↦ λ r. rw (r.0, small body r.1) (rw (small body r.1) refl)
              ]
        h
    where
      small :
          (body : Body)
          → length body.bytes ≤ max_request_body_size
          → ltb max_request_body_size (length body.bytes) ≡ false
      small body l = ground arith

  header_lines-agree :
      (h h' : Headers) (names : List String)
      → All (λ n. get_header (trim_space n) h ≡ get_header (trim_space n) h') names
      → header_lines crypto h names ≡ header_lines crypto h' names
  header_lines-agree h h' [] e = refl
  header_lines-agree h h' (n ∷ names) e =
      rw (header_lines, e.0, header_lines-agree h h' names e.1) refl

  -- The Authorization header is not among the signed ones.
  headers-authorization :
      (value : String) (h : Headers)
      → build_canonical_headers crypto (set_header "Authorization" value h) default_signed_headers
        ≡ build_canonical_headers crypto h default_signed_headers
  unfolding build_canonical_headers split trim_space trim_left trim_right canonical_key
  headers-authorization value h =
      header_lines-agree (set_header "Authorization" value h) h
        ("content-type" ∷ "x-nsp-nonce" ∷ "x-nsp-timestamp" ∷ [])
        (
          get_header-set_header_other "Authorization" "content-type" value h refl,
          (
            get_header-set_header_other "Authorization" "x-nsp-nonce" value h refl,
            (get_header-set_header_other "Authorization" "x-nsp-timestamp" value h refl, tt),
          ),
        )

  pub string_to_sign-authorization :
      (req : HttpRequest) (value body_hash : String)
      → build_string_to_sign crypto
          (record req { headers = set_header "Authorization" value req.headers })
          default_signed_headers
          body_hash
        ≡ build_string_to_sign crypto req default_signed_headers body_hash
  unfolding build_string_to_sign
  string_to_sign-authorization req value body_hash =
      rw (headers-authorization value req.headers) refl

module _ (crypto : Crypto) (signer : Signer) (req : HttpRequest) where
  abbrev pub with_headers : Headers → HttpRequest
  with_headers h = record req { headers = h }

  -- The headers that Sign signs, and all that it writes.
  abbrev pub unsigned : ℕ → List ℕ → Headers
  unsigned now random = set_header "X-NSP-SignedHeaders" default_signed_headers (
      set_header "X-NSP-Nonce" (hex_encode random)
        (set_header "X-NSP-Timestamp" (show_nat (now / second)) req.headers))

  abbrev pub signature : ℕ → List ℕ → String
  signature now random = compute_hmac_sha256 crypto signer.secret_key (
      build_string_to_sign crypto (with_headers (unsigned now random)) default_signed_headers
        (hash_of crypto (bytes_of req.body)))

  abbrev pub signed_request : ℕ → List ℕ → HttpRequest
  signed_request now random = with_headers (
      set_header "Authorization" (auth_header signer.access_key (signature now random))
        (unsigned now random))

  pub sign-run :
      (now : ℕ) (random : List ℕ)
      → IsReadable req.body
      → sign crypto signer now (ok random) req ≡ (ok tt, signed_request now random)
  unfolding sign ◌>>=◌ lift annotate generate_nonce sign_string modify get
  sign-run now random readable =
      rw
        (hash-readable crypto
          (with_headers (
            set_header "X-NSP-Nonce" (hex_encode random)
              (set_header "X-NSP-Timestamp" (show_nat (now / second)) req.headers)))
          readable)
        refl

  module _ (now : ℕ) (random : List ℕ) where
    abbrev pub sent : Headers
    sent = (signed_request now random).headers

    pub sent-authorization :
        get_header "Authorization" sent ≡ auth_header signer.access_key (signature now random)
    sent-authorization = get_header-set_header "Authorization" _ (unsigned now random)

    pub sent-signed_headers : get_header "X-NSP-SignedHeaders" sent ≡ default_signed_headers
    unfolding canonical_key
    sent-signed_headers =
        get_header-set_header_other "Authorization" "X-NSP-SignedHeaders" _ (unsigned now random)
          refl
        ∙ get_header-set_header "X-NSP-SignedHeaders" _ _

    pub sent-nonce : get_header "X-NSP-Nonce" sent ≡ hex_encode random
    unfolding canonical_key
    sent-nonce =
        get_header-set_header_other "Authorization" "X-NSP-Nonce" _ (unsigned now random) refl
        ∙ get_header-set_header_other "X-NSP-SignedHeaders" "X-NSP-Nonce" _ _ refl
        ∙ get_header-set_header "X-NSP-Nonce" _ _

    pub sent-timestamp : get_header "X-NSP-Timestamp" sent ≡ show_nat (now / second)
    unfolding canonical_key
    sent-timestamp =
        get_header-set_header_other "Authorization" "X-NSP-Timestamp" _ (unsigned now random) refl
        ∙ get_header-set_header_other "X-NSP-SignedHeaders" "X-NSP-Timestamp" _ _ refl
        ∙ get_header-set_header_other "X-NSP-Nonce" "X-NSP-Timestamp" _ _ refl
        ∙ get_header-set_header "X-NSP-Timestamp" _ _
