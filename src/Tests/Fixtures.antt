-- ===== src/Tests/Fixtures.antt =====
-- An environment with another session at work, and a store with a few transactions.
use nsp_platform.Base.{ℕ, zero, suc, ◌*◌, ◌/◌, String, false, [], ◌∷◌, none, some}
use nsp_platform.Base.Int.{pos}
use nsp_platform.Json.{end, Codec}
use nsp_platform.Saga.Definition.{Step, sync, StepStatus, Transaction, TxStatus}
use nsp_platform.Saga.Store.Tables.{TxRow, Db}
use nsp_platform.Saga.Store.Transactions.{update_transaction_status_cas}
use nsp_platform.Saga.Runtime.{Env, World, works, fails, Fault, reply, Wakeup}

abbrev pub codec : Codec
codec = record {
  float_text = λ b. "1.5";
  sprint = λ v. "map[]";
  marshal = λ v. some "{}";
  unmarshal = λ s. none;
  jsonb = λ o. o;
  timestamptz = λ t. t / 1000 * 1000;
}

-- The third statement of the run fails.
abbrev fault : ℕ → Fault
fault (suc (suc (suc zero))) = fails "connection reset"
fault n = works

-- Another instance starts "tx2" between any two effects.
abbrev pub others : ℕ → Db → Db
others n db = (update_transaction_status_cas n n "tx2" TxStatus.pending TxStatus.running "" db).1

abbrev pub env : Env
env = record {
  codec = codec;
  instance_id = "a";
  lease_duration = 100;
  local_clock = λ n. n;
  db_clock = λ n. n;
  fault = fault;
  others = others;
  locked_txs = λ n id. false;
  locked_tasks = λ n id. false;
  is_done = λ n. false;
  parent_deadline = none;
  deadline_fired = λ n deadline. false;
  engine_trace = none;
  engine_log_trace = false;
  new_span_id = λ n. "span";
  bad_request = λ r. none;
  respond = λ n r. reply 200 "";
  credentials = none;
  sign = λ n c r. nsp_platform.Saga.Errors.Result.ok r;
  wakes = λ n. Wakeup.stopped;
}

abbrev pub tx : String → TxStatus → Transaction
tx id status = record {
  id = id;
  status = status;
  payload = some end;
  current_step = 0;
  created_at = 1;
  updated_at = 1;
  finished_at = none;
  timeout_at = some 2;
  retry_count = 0;
  last_error = "";
}

abbrev pub row : String → TxStatus → TxRow
row id status = record { tx = tx id status; locked_by = none; locked_until = none }

abbrev pub step : String → ℕ → StepStatus → Step
step id index status = record {
  id = id;
  transaction_id = "tx1";
  index = index;
  name = id;
  step_type = sync;
  status = status;
  action_method = "POST";
  action_url = "http://svc/do";
  action_payload = some end;
  action_response = none;
  auth_ak = "";
  compensate_method = "POST";
  compensate_url = "http://svc/undo";
  compensate_payload = some end;
  poll_url = "";
  poll_method = "";
  poll_interval_sec = pos 0;
  poll_max_times = pos 0;
  poll_count = 0;
  poll_success_path = "";
  poll_success_value = "";
  poll_failure_path = "";
  poll_failure_value = "";
  next_poll_at = none;
  retry_count = 0;
  max_retry = pos 0;
  last_error = "";
  started_at = none;
  finished_at = none;
}

abbrev pub db : Db
db = record {
  transactions =
      row "tx1" TxStatus.running
      ∷ row "tx2" TxStatus.pending
      ∷ row "tx3" TxStatus.compensating
      ∷ [];
  steps = step "s1" 0 StepStatus.succeeded ∷ step "s2" 1 StepStatus.pending ∷ [];
  poll_tasks = [];
  next_task = 1;
}

abbrev pub world : World
world = record {
  db = db;
  sent = [];
  tick = 0;
  active_tx = "tx1" ∷ [];
  task_queue = [];
  notify_chan = [];
}
