-- ===== src/Saga/Errors.antt =====
-- The error values of the saga module (saga/executor.go, saga/runtime_context.go, saga/engine.go):
-- the sentinels that `errors.Is` finds in a chain, and the text that `Error()` prints.
use nsp_platform.Base.{String, Bool, true, false, List, [], ◌∷◌, ◌||◌}
use nsp_platform.Base.Text.{texts}

pub data Sentinel : Type 0 where
  step_retryable step_fatal compensation_failed signing_failed execution_timeout canceled : Sentinel
  deadline_exceeded transaction_failed transaction_not_found transaction_disappeared : Sentinel

pub record Error : Type 0 where
  pub wraps : List Sentinel
  pub message : String

pub data Result {ℓ} (A : Type ℓ) : Type ℓ where
  ok : A → Result A
  err : Error → Result A

abbrev same : Sentinel → Sentinel → Bool
same step_retryable step_retryable = true
same step_fatal step_fatal = true
same compensation_failed compensation_failed = true
same signing_failed signing_failed = true
same execution_timeout execution_timeout = true
same canceled canceled = true
same deadline_exceeded deadline_exceeded = true
same transaction_failed transaction_failed = true
same transaction_not_found transaction_not_found = true
same transaction_disappeared transaction_disappeared = true
same _ _ = false

abbrev holds : Sentinel → List Sentinel → Bool
holds s [] = false
holds s (t ∷ ts) = same s t || holds s ts

-- `errors.Is(err, s)`.
abbrev pub is_error : Sentinel → Error → Bool
is_error s e = holds s e.wraps

abbrev pub sentinel_text : Sentinel → String
sentinel_text step_retryable = "step failed, retry possible"
sentinel_text step_fatal = "step failed, no more retries"
sentinel_text compensation_failed = "compensation failed"
sentinel_text signing_failed = "request signing failed"
sentinel_text execution_timeout = "transaction timeout"
sentinel_text canceled = "context canceled"
sentinel_text deadline_exceeded = "context deadline exceeded"
sentinel_text transaction_failed = "transaction reached terminal failed state"
sentinel_text transaction_not_found = "transaction not found"
sentinel_text transaction_disappeared = "transaction disappeared during wait"

-- A sentinel itself.
abbrev pub bare : Sentinel → Error
bare s = record { wraps = s ∷ []; message = sentinel_text s }

-- `fmt.Errorf(text)` with nothing wrapped.
abbrev pub plain : String → Error
plain text = record { wraps = []; message = text }

-- `fmt.Errorf("text: %w", e)`.
abbrev pub prefix : String → Error → Error
prefix text e = record e { message = texts (text ∷ ": " ∷ e.message ∷ []) }

-- `fmt.Errorf("%w: %v", s, text)`.
abbrev pub wrap : Sentinel → String → Error
wrap s text = record { wraps = s ∷ []; message = texts (sentinel_text s ∷ ": " ∷ text ∷ []) }

-- `fmt.Errorf("%s: %w", text, s)`.
abbrev pub wrap_behind : String → Sentinel → Error
wrap_behind text s = record { wraps = s ∷ []; message = texts (text ∷ ": " ∷ sentinel_text s ∷ []) }

-- `fmt.Errorf("%s: %w: %w", text, s, e)`.
abbrev pub wrap_both : String → Sentinel → Error → Error
wrap_both text s e = record {
  wraps = s ∷ e.wraps;
  message = texts (text ∷ ": " ∷ sentinel_text s ∷ ": " ∷ e.message ∷ []);
}
