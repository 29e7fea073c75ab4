-- ===== src/Auth/Middleware.antt =====
-- auth/middleware.go: the Gin middleware that lets only verified requests through. The handlers
-- behind it, which `c.Next()` runs, are a parameter; `c.Request`, the keys of gin.Context and of
-- the request's context, the answer and the abort flag are the state.
use text.Mathlib.Text.{starts_with}
use nsp_platform.Base.{
  ℕ, String, Bool, true, false, Option, some, none, List, [], ◌∷◌, if◌then◌else◌, str_eq, ◌||◌,
}
use nsp_platform.Http.{HttpRequest}
use nsp_platform.Auth.Errors.{Result, ok, err, AuthError, error_to_http_status, error_text}
use nsp_platform.Auth.Stores.{Credential}
use nsp_platform.Auth.Signing.{Crypto}
use nsp_platform.Auth.Verifier.{Verifier, verify}

pub record GinContext : Type 0 where
  pub request : HttpRequest
  pub gin_credential : Option Credential
  pub ctx_credential : Option Credential
  -- The status and the message of the JSON answer.
  pub answer : Option (ℕ × String)
  pub aborted : Bool

pub record MiddlewareOption : Type 0 where
  pub skipper : Option (GinContext → Bool)
  pub on_auth_failed : Option (GinContext → AuthError → GinContext)

-- A nil option is one with no functions.
abbrev pub no_option : MiddlewareOption
no_option = record { skipper = none; on_auth_failed = none }

abbrev pub is_skipped : Option (GinContext → Bool) → GinContext → Bool
is_skipped none c = false
is_skipped (some skip) c = skip c

abbrev pub default_auth_failed_handler : GinContext → AuthError → GinContext
default_auth_failed_handler c e = record c { answer = some (error_to_http_status e, error_text e) }

abbrev pub answer_failure :
    Option (GinContext → AuthError → GinContext) → GinContext → AuthError → GinContext
answer_failure none c e = default_auth_failed_handler c e
answer_failure (some handler) c e = handler c e

abbrev pub context_with_credential : GinContext → Credential → GinContext
context_with_credential c cred = record c { ctx_credential = some cred }

abbrev pub credential_from_gin : GinContext → Option Credential
credential_from_gin c = c.gin_credential

abbrev pub credential_from_context : GinContext → Option Credential
credential_from_context c = c.ctx_credential

abbrev pub abort : GinContext → GinContext
abort c = record c { aborted = true }

abbrev pub on_verified :
    MiddlewareOption → (GinContext → GinContext) → GinContext → Result Credential → GinContext
on_verified opt next c (err e) = abort (answer_failure opt.on_auth_failed c e)
on_verified opt next c (ok cred) =
    next (context_with_credential (record c { gin_credential = some cred }) cred)

module _ (crypto : Crypto) {S : Type 0} (v : Verifier S) (opt : MiddlewareOption) where
  abbrev pub authenticate :
      (GinContext → GinContext)
      → GinContext
      → Result Credential × (S × HttpRequest)
      → S × GinContext
  authenticate next c (r, (s, request)) =
      (s, on_verified opt next (record c { request = request }) r)

  unfoldable pub aksk_auth_middleware :
      (GinContext → GinContext) → ℕ → ℕ → S × GinContext → S × GinContext
  unfolding verify
  aksk_auth_middleware next now at (s, c) =
      if is_skipped opt.skipper c
      then (s, next c)
      else authenticate next c (verify crypto v now at (s, c.request))

abbrev has_path : String → List String → Bool
has_path path [] = false
has_path path (p ∷ ps) = str_eq path p || has_path path ps

abbrev has_prefix : String → List String → Bool
has_prefix path [] = false
has_prefix path (p ∷ ps) = starts_with path p || has_prefix path ps

-- NewSkipperByPath and NewSkipperByPathPrefix.
unfoldable pub new_skipper_by_path : List String → GinContext → Bool
new_skipper_by_path paths c = has_path c.request.path paths

unfoldable pub new_skipper_by_path_prefix : List String → GinContext → Bool
new_skipper_by_path_prefix prefixes c = has_prefix c.request.path prefixes
