-- ===== src/TaskQueue/Broker.antt =====
-- taskqueue/asynqbroker/broker.go and consumer.go: Publish, and what Handle gives to a handler. The
-- asynq client and server are parameters.
use nsp_platform.Base.{
  ℕ, zero, suc, ◌*◌, ltb, String, Bool, true, false, Option, some, none, List, [], ◌∷◌,
  if◌then◌else◌,
}
use nsp_platform.Base.Int.{ℤ, pos, negsuc}
use nsp_platform.Base.Text.{is_empty, texts}
use nsp_platform.Trace.{TraceContext}
use nsp_platform.TaskQueue.{Task, TaskInfo}
use nsp_platform.TaskQueue.Envelope.{
  Bytes, EnvelopeCodec, Unwrapped, wrap_with_trace, unwrap_envelope, inject_trace_from_metadata,
}

-- The text of an error, or the identifier and the queue of the enqueued task.
pub data Enqueued : Type 0 where
  refused : String → Enqueued
  accepted : TaskInfo → Enqueued

-- `EnqueueContext` of a type, a payload and an option for the queue.
abbrev pub Client : Type 0
Client = String → Option Bytes → Option String → Enqueued

abbrev pub queue_option : String → Option String
queue_option queue = if is_empty queue then none else some queue

abbrev pub with_prefix : Enqueued → Enqueued
with_prefix (refused text) = refused (texts ("asynq enqueue failed: " ∷ text ∷ []))
with_prefix (accepted info) = accepted info

module _ (codec : EnvelopeCodec) where
  -- `Publish`.
  unfoldable pub publish : Client → Option TraceContext → Task → Enqueued
  unfolding wrap_with_trace
  publish client tc task = with_prefix (
      client task.task_type (wrap_with_trace codec tc task.payload task.reply task.metadata)
        (queue_option task.queue))

  abbrev pub received : String → String → Unwrapped → Task
  received task_type queue u = record {
    task_type = task_type;
    payload = u.payload;
    queue = queue;
    reply = u.reply;
    priority = pos 0;
    metadata = u.business_meta;
  }

  -- The context's trace and the task that the function registered by `Handle` passes on.
  unfoldable pub handle :
      String
      → List ℕ
      → Option TraceContext
      → String
      → String
      → Option Bytes
      → Option TraceContext × Task
  unfolding unwrap_envelope inject_trace_from_metadata
  handle instance_id span_bytes ctx task_type queue message =
      let u = unwrap_envelope codec message in
      (
        inject_trace_from_metadata ctx u.trace_meta instance_id span_bytes,
        received task_type queue u,
      )

abbrev pub millisecond : ℕ
millisecond = 1000000

abbrev pub min_task_check_interval : ℕ
min_task_check_interval = 200 * millisecond

abbrev pub max_task_check_interval : ℕ
max_task_check_interval = 2000 * millisecond

abbrev pub clamped : ℕ → ℕ × Bool
clamped n =
    if ltb n min_task_check_interval
    then (min_task_check_interval, true)
    else if ltb max_task_check_interval n
    then (max_task_check_interval, true)
    else (n, false)

-- `normalizeTaskCheckInterval`: the interval, and whether it was clamped.
unfoldable pub normalize_task_check_interval : ℤ → ℕ × Bool
normalize_task_check_interval (pos zero) = (0, false)
normalize_task_check_interval (pos (suc n)) = clamped (suc n)
normalize_task_check_interval (negsuc n) = (0, false)
