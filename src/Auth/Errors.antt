-- ===== src/Auth/Errors.antt =====
-- The errors of auth/aksk.go, and the status codes that they are answered with.
use nsp_platform.Base.{ℕ, String, [], ◌∷◌}
use nsp_platform.Base.Text.{texts}

-- The sentinels, an error of a store or of the platform, and `fmt.Errorf("text: %w", e)`.
pub data AuthError : Type 0 where
  missing_auth_header invalid_auth_format missing_timestamp missing_nonce : AuthError
  timestamp_expired nonce_reused ak_not_found signature_mismatch body_too_large : AuthError
  external : String → AuthError
  wrapped : String → AuthError → AuthError

pub data Result {ℓ} (A : Type ℓ) : Type ℓ where
  ok : A → Result A
  err : AuthError → Result A

abbrev pub error_text : AuthError → String
error_text missing_auth_header = "authorization header is missing"
error_text invalid_auth_format = "invalid authorization header format"
error_text missing_timestamp = "timestamp header is missing or malformed"
error_text missing_nonce = "nonce header is missing"
error_text timestamp_expired = "timestamp is expired or outside tolerance window"
error_text nonce_reused = "nonce has already been used"
error_text ak_not_found = "access key not found or disabled"
error_text signature_mismatch = "signature does not match"
error_text body_too_large = "request body exceeds maximum allowed size"
error_text (external text) = text
error_text (wrapped text e) = texts (text ∷ ": " ∷ error_text e ∷ [])

-- `errors.Is` looks through the wrapping.
abbrev pub error_to_http_status : AuthError → ℕ
error_to_http_status missing_auth_header = 400
error_to_http_status invalid_auth_format = 400
error_to_http_status missing_timestamp = 400
error_to_http_status missing_nonce = 400
error_to_http_status timestamp_expired = 401
error_to_http_status nonce_reused = 401
error_to_http_status ak_not_found = 401
error_to_http_status signature_mismatch = 401
error_to_http_status (wrapped text e) = error_to_http_status e
error_to_http_status _ = 500
