-- ===== src/Saga/Definition.antt =====
-- saga/definition.go: the statuses, the step, transaction and poll task records, and the saga
-- definition. A `time.Time` is a number of nanoseconds, a `*time.Time` an `Option`. A counter that
-- the code only increments is a natural number, and what a caller configures is an integer.
use nsp_platform.Base.{ℕ, String, List, Option}
use nsp_platform.Base.Int.{ℤ}
use nsp_platform.Json.{Object}

-- `other ""` is the unset type.
pub data StepType : Type 0 where
  sync : StepType
  async : StepType
  other : String → StepType

pub data TxStatus : Type 0 where
  pending running compensating succeeded failed : TxStatus

pub data StepStatus : Type 0 where
  pending running polling succeeded failed compensating compensated skipped : StepStatus

pub record Step : Type 0 where
  pub id : String
  pub transaction_id : String
  pub index : ℕ
  pub name : String
  pub step_type : StepType
  pub status : StepStatus
  pub action_method : String
  pub action_url : String
  pub action_payload : Object
  pub action_response : Object
  pub auth_ak : String
  pub compensate_method : String
  pub compensate_url : String
  pub compensate_payload : Object
  pub poll_url : String
  pub poll_method : String
  pub poll_interval_sec : ℤ
  pub poll_max_times : ℤ
  pub poll_count : ℕ
  pub poll_success_path : String
  pub poll_success_value : String
  pub poll_failure_path : String
  pub poll_failure_value : String
  pub next_poll_at : Option ℕ
  pub retry_count : ℕ
  pub max_retry : ℤ
  pub last_error : String
  pub started_at : Option ℕ
  pub finished_at : Option ℕ

pub record Transaction : Type 0 where
  pub id : String
  pub status : TxStatus
  pub payload : Object
  pub current_step : ℕ
  pub created_at : ℕ
  pub updated_at : ℕ
  pub finished_at : Option ℕ
  pub timeout_at : Option ℕ
  pub retry_count : ℕ
  pub last_error : String

pub record PollTask : Type 0 where
  pub id : ℕ
  pub step_id : String
  pub transaction_id : String
  pub next_poll_at : ℕ
  pub locked_until : Option ℕ
  pub locked_by : Option String

pub record SagaDefinition : Type 0 where
  pub id : String
  pub name : String
  pub steps : List Step
  pub timeout_sec : ℤ
  pub payload : Object

-- The statuses as the template data and the database spell them.
abbrev pub tx_status_text : TxStatus → String
tx_status_text TxStatus.pending = "pending"
tx_status_text TxStatus.running = "running"
tx_status_text TxStatus.compensating = "compensating"
tx_status_text TxStatus.succeeded = "succeeded"
tx_status_text TxStatus.failed = "failed"

abbrev pub step_status_text : StepStatus → String
step_status_text StepStatus.pending = "pending"
step_status_text StepStatus.running = "running"
step_status_text StepStatus.polling = "polling"
step_status_text StepStatus.succeeded = "succeeded"
step_status_text StepStatus.failed = "failed"
step_status_text StepStatus.compensating = "compensating"
step_status_text StepStatus.compensated = "compensated"
step_status_text StepStatus.skipped = "skipped"
