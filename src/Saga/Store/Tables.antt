-- ===== src/Saga/Store/Tables.antt =====
-- The three tables of saga/migrations/saga.sql, with the columns that store.go reads and writes.
use nsp_platform.Base.{ℕ, String, Bool, true, false, List, Option, none, some, str_eq, ltb}
use nsp_platform.Saga.Definition.{Step, Transaction, PollTask, TxStatus, StepStatus}

-- A row of saga_transactions: the transaction, and its lease.
pub record TxRow : Type 0 where
  pub tx : Transaction
  pub open tx use *
  pub locked_by : Option String
  pub locked_until : Option ℕ

-- `next_task` is the sequence of saga_poll_tasks.id.
pub record Db : Type 0 where
  pub transactions : List TxRow
  pub steps : List Step
  pub poll_tasks : List PollTask
  pub next_task : ℕ

abbrev pub tx_is : String → TxRow → Bool
tx_is id row = str_eq row.id id

abbrev pub step_is : String → Step → Bool
step_is id step = str_eq step.id id

abbrev pub task_of : String → PollTask → Bool
task_of step_id task = str_eq task.step_id step_id

-- `column < t`, false where the column is NULL.
abbrev pub is_before : Option ℕ → ℕ → Bool
is_before none t = false
is_before (some u) t = ltb u t

abbrev pub is_null : Option String → Bool
is_null none = true
is_null (some s) = false

-- `column = s`, false where the column is NULL.
abbrev pub is_value : Option String → String → Bool
is_value none s = false
is_value (some t) s = str_eq t s

abbrev pub same_status : TxStatus → TxStatus → Bool
same_status TxStatus.pending TxStatus.pending = true
same_status TxStatus.running TxStatus.running = true
same_status TxStatus.compensating TxStatus.compensating = true
same_status TxStatus.succeeded TxStatus.succeeded = true
same_status TxStatus.failed TxStatus.failed = true
same_status _ _ = false

-- `status IN ('pending', 'running', 'compensating')`.
abbrev pub is_active : TxStatus → Bool
is_active TxStatus.pending = true
is_active TxStatus.running = true
is_active TxStatus.compensating = true
is_active TxStatus.succeeded = false
is_active TxStatus.failed = false

-- The statuses at which `finished_at` is set.
abbrev pub finish_time : TxStatus → ℕ → Option ℕ
finish_time TxStatus.succeeded now = some now
finish_time TxStatus.failed now = some now
finish_time _ now = none

abbrev pub step_start_time : StepStatus → ℕ → Option ℕ → Option ℕ
step_start_time StepStatus.running now old = some now
step_start_time _ now old = old

abbrev pub step_finish_time : StepStatus → ℕ → Option ℕ
step_finish_time StepStatus.succeeded now = some now
step_finish_time StepStatus.failed now = some now
step_finish_time StepStatus.compensated now = some now
step_finish_time _ now = none
