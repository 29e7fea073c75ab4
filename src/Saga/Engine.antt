-- ===== src/Saga/Engine.antt =====
-- saga/engine.go: Submit and Query. An engine is what it runs on, Env, with the identifiers that
-- uuid.New makes, the trace context of the caller's context, and how that context ends. Submit
-- also writes the new identifier into the caller's definition, which nothing reads.
pub mod Config
pub mod ConfigLaws
pub mod Wait
pub mod WaitLaws
pub mod Termination
pub mod Submission
use nsp_platform.Base.{
  ℕ, zero, suc, ◌*◌, String, Bool, true, false, List, [], ◌∷◌, map, Option, some, none,
  if◌then◌else◌,
}
use nsp_platform.Base.Int.{ℤ, pos, negsuc, int64, later_by}
use nsp_platform.Base.Text.{is_empty, texts}
use nsp_platform.Json.{str, Fields, end, Object, set_field}
use nsp_platform.Trace.{TraceContext}
use nsp_platform.Saga.Definition.{
  Step, StepStatus, Transaction, TxStatus, SagaDefinition, tx_status_text, step_status_text,
}
use nsp_platform.Saga.Errors.{Result, Error, ok, err, plain, prefix, wrap, transaction_not_found}
use nsp_platform.Saga.Runtime.{
  Env, World, M, Credential, ◌>>=◌, ◌>>◌, pure, raise, attempt, annotate, ask, modify, statement,
  query, now, on_option,
}
use nsp_platform.Saga.Store.Transactions.{get_transaction, create_transaction_with_steps}
use nsp_platform.Saga.Store.Steps.{get_steps}
use nsp_platform.Saga.Coordinator.Drive.{submit}

pub record StepStatusView : Type 0 where
  pub index : ℕ
  pub name : String
  pub status : String
  pub poll_count : ℕ
  pub last_error : String

pub record TransactionStatus : Type 0 where
  pub id : String
  pub status : String
  pub current_step : ℕ
  pub steps : List StepStatusView
  pub last_error : String
  pub created_at : ℕ
  pub finished_at : Option ℕ

abbrev pub step_view : Step → StepStatusView
step_view step = record {
  index = step.index;
  name = step.name;
  status = step_status_text step.status;
  poll_count = step.poll_count;
  last_error = step.last_error;
}

abbrev pub transaction_view : Transaction → List Step → TransactionStatus
transaction_view tx steps = record {
  id = tx.id;
  status = tx_status_text tx.status;
  current_step = tx.current_step;
  steps = map step_view steps;
  last_error = tx.last_error;
  created_at = tx.created_at;
  finished_at = tx.finished_at;
}

-- `%q` of a text without special characters.
abbrev quoted : String → String
quoted s = texts ("\"" ∷ s ∷ "\"" ∷ [])

-- `cred == nil || !cred.Enabled`.
abbrev pub is_usable : Option Credential → Bool
is_usable none = false
is_usable (some cred) = cred.enabled

abbrev pub fields_of : Object → Fields
fields_of none = end
fields_of (some m) = m

-- The payload with the caller's trace.
abbrev pub with_trace : Option TraceContext → Fields → Fields
with_trace none m = m
with_trace (some tc) m =
    set_field "_span_id" (str tc.span_id) (set_field "_trace_id" (str tc.trace_id) m)

-- `time.Duration(sec) * time.Second` behind the clock, where it is set.
abbrev pub timeout_of : ℤ → ℕ → Option ℕ
timeout_of (pos zero) t = none
timeout_of (pos (suc n)) t = some (later_by (int64 (suc n * 1000000000)) t)
timeout_of (negsuc n) t = none

abbrev pub new_step : String → String → ℕ → Step → Step
new_step tx_id id index d = record d {
  id = id;
  transaction_id = tx_id;
  index = index;
  status = StepStatus.pending;
  action_response = none;
  poll_count = 0;
  next_poll_at = none;
  retry_count = 0;
  last_error = "";
  started_at = none;
  finished_at = none;
}

module _ (env : Env) where
  -- `Query`.
  unfoldable pub query_transaction : String → M TransactionStatus
  unfolding ◌>>=◌ annotate query on_option raise pure get_transaction get_steps
  query_transaction id = do
    found ← annotate "failed to get transaction" (query env (get_transaction id))
    on_option found
        (λ tx. do
          steps ← annotate "failed to get steps" (query env (get_steps id))
          pure (transaction_view tx steps))
        (raise (wrap transaction_not_found id))

  abbrev pub validated : String → Result (Option Credential) → Result (Unit {0})
  validated ak (err e) = err (prefix (texts ("failed to validate AuthAK " ∷ quoted ak ∷ [])) e)
  validated ak (ok found) =
      if is_usable found
      then ok tt
      else err (plain (texts ("credential not found or disabled for AuthAK " ∷ quoted ak ∷ [])))

  unfoldable pub check_credential :
      (ℕ → String → Result (Option Credential)) → String → M (Unit {0})
  check_credential get_by_ak ak w =
      (validated ak (get_by_ak w.tick ak), record w { tick = suc w.tick })

  -- The loop over the steps; those without an access key are passed over.
  unfoldable pub check_credentials :
      (ℕ → String → Result (Option Credential)) → List Step → M (Unit {0})
  unfolding ◌>>=◌ pure check_credential
  check_credentials get_by_ak [] = pure tt
  check_credentials get_by_ak (step ∷ steps) =
      let rest = check_credentials get_by_ak steps in
      if is_empty step.auth_ak then rest else (check_credential get_by_ak step.auth_ak >> rest)

  unfoldable pub validate : List Step → M (Unit {0})
  unfolding check_credentials on_option pure
  validate steps =
      on_option env.credentials (λ get_by_ak. check_credentials get_by_ak steps) (pure tt)

  module _ (new_uuid : ℕ → String) (caller_trace : Option TraceContext) where
    unfoldable pub new_steps : String → ℕ → List Step → M (List Step)
    unfolding ◌>>=◌ pure ask
    new_steps tx_id index [] = pure []
    new_steps tx_id index (d ∷ ds) = do
      id ← ask new_uuid
      steps ← new_steps tx_id (suc index) ds
      pure (new_step tx_id id index d ∷ steps)

    abbrev pub new_transaction : SagaDefinition → String → ℕ → Transaction
    new_transaction def id t = record {
      id = id;
      status = TxStatus.pending;
      payload = some (with_trace caller_trace (fields_of def.payload));
      current_step = 0;
      created_at = t;
      updated_at = t;
      finished_at = none;
      timeout_at = timeout_of def.timeout_sec t;
      retry_count = 0;
      last_error = "";
    }

    unfoldable pub create : Transaction → List Step → M (Unit {0})
    unfolding annotate statement create_transaction_with_steps
    create tx steps = annotate "failed to create transaction" (
        statement env (λ now db_now db.
          create_transaction_with_steps env.codec.jsonb env.codec.timestamptz tx steps db))

    -- `Submit`, behind its test for nil.
    unfoldable pub submit_definition : SagaDefinition → M String
    unfolding ◌>>=◌ pure ask modify now validate new_steps create submit
    submit_definition def = do
      validate def.steps
      id ← ask new_uuid
      t ← now env
      steps ← new_steps id 0 def.steps
      create (new_transaction def id t) steps
      modify (λ w. (submit id w).1)
      pure id

    -- `Submit` of a definition that may be nil.
    unfoldable pub submit_saga : Option SagaDefinition → M String
    unfolding on_option raise submit_definition
    submit_saga def = on_option def submit_definition (raise (plain "saga definition is required"))
