-- ===== src/TaskQueue/Laws.antt =====
-- What a handler is given of a published task (taskqueue/asynqbroker).
use nsp_platform.Base.{
  ℕ, String, true, false, Option, some, none, List, [], ◌∷◌, ◌≡◌, refl, str_eq, ◌∙◌, Bool-cases,
  inl, inr,
}
use nsp_platform.Base.Int.{ℤ, pos}
use nsp_platform.Base.Hex.{hex_encode}
use nsp_platform.Base.Lists.{All}
use nsp_platform.Base.Text.{is_empty}
use nsp_platform.Json.{Value, str, obj, Fields, end, field, get}
use nsp_platform.Trace.{TraceContext, is_valid_hex_string, metadata_from_trace_context}
use nsp_platform.Trace.Laws.{metadata-restored, valid-is_empty}
use nsp_platform.TaskQueue.{
  Task, TaskInfo, ReplySpec, Metadata, ListOptions, normalize, at_most_hundred, at_least_one,
}
use nsp_platform.TaskQueue.Envelope.{
  Bytes, EnvelopeCodec, envelope, with_reply, wrap_with_trace, unwrap_envelope, reply_of,
  inject_trace_from_metadata, reply_fields, object, members, omit_nil, meta_fields, read_texts,
  read_meta, read_raw, read_text, omit_empty, unmarshal, is_envelope, envelope_of,
}
use nsp_platform.TaskQueue.Broker.{
  Client, Enqueued, publish, handle, received, with_prefix, normalize_task_check_interval,
  min_task_check_interval, max_task_check_interval,
}

-- encoding/json writes the reply.
abbrev pub IsPrinted : EnvelopeCodec → Option ReplySpec → Type 0
IsPrinted codec none = Unit
IsPrinted codec (some r) = (raw : Bytes) × (codec.print (obj (reply_fields r)) ≡ some raw)

abbrev pub reply_value : Option ReplySpec → Option Value
reply_value none = none
reply_value (some r) = some (obj (reply_fields r))

-- The JSON object of the message that carries the task.
abbrev pub sent : EnvelopeCodec → TraceContext → Bytes → Option ReplySpec → Metadata → Fields
sent codec tc payload reply meta =
    object (members codec (envelope (some tc) (some payload) (reply_value reply) meta))

-- The names of an object are found exactly.
abbrev pub IsFound : EnvelopeCodec → Fields → Type 0
IsFound codec m =
    All (λ name. codec.member name m ≡ get name m)
      ("_v" ∷ "_tid" ∷ "_sid" ∷ "_smpl" ∷ "_rto" ∷ "_meta" ∷ "payload" ∷ [])

abbrev or_else : Option Value → Option Value → Option Value
or_else none w = w
or_else (some v) w = some v

abbrev found : String → List (String × Option Value) → Option Value
found name [] = none
found name ((k, v) ∷ es) =
    let rest = found name es in elim (str_eq k name) [ true ↦ or_else v rest | false ↦ rest ]

get-object :
    (name : String) (es : List (String × Option Value)) → get name (object es) ≡ found name es
unfolding get
get-object name [] = refl
get-object name ((k, none) ∷ es) = elim (Bool-cases (str_eq k name)) [
  | inl e ↦ rw (found, e) (get-object name es)
  | inr e ↦ rw (found, e) (get-object name es)
]
get-object name ((k, some v) ∷ es) = elim (Bool-cases (str_eq k name)) [
  | inl e ↦ rw (found, get, e) refl
  | inr e ↦ rw (found, get, e) (get-object name es)
]

text_read : (s : String) → is_empty s ≡ false → read_text (or_else (omit_empty s) none) ≡ some s
text_read s h = rw (omit_empty, h) refl

read_texts-meta_fields : (meta : Metadata) → read_texts (meta_fields meta) ≡ some meta
read_texts-meta_fields [] = refl
read_texts-meta_fields ((k, v) ∷ meta) = rw (read_texts, read_texts-meta_fields meta) refl

read_meta-omit_nil : (meta : Metadata) → read_meta (or_else (omit_nil meta) none) ≡ some meta
read_meta-omit_nil [] = refl
read_meta-omit_nil (m ∷ meta) = read_texts-meta_fields (m ∷ meta)

module _ (codec : EnvelopeCodec) (tc : TraceContext) (payload : Bytes) (reply : Option ReplySpec)
    (meta : Metadata) (message : Bytes) (trace_valid : is_valid_hex_string tc.trace_id 32 ≡ true)
    (span_valid : is_valid_hex_string tc.span_id 16 ≡ true) (replies : IsPrinted codec reply)
    (prints : codec.print (obj (sent codec tc payload reply meta)) ≡ some message)
    (parses : codec.parse message ≡ some (obj (sent codec tc payload reply meta)))
    (finds : IsFound codec (sent codec tc payload reply meta))
    (queues : (queue : String)
      → codec.member "Queue" (field "Queue" (str queue) end) ≡ some (str queue))
    (bytes : codec.read_bytes (str (codec.base64 payload)) ≡ some payload) where
  wrapped : wrap_with_trace codec (some tc) (some payload) reply meta ≡ some message
  unfolding wrap_with_trace
  wrapped = go reply replies prints
    where
      go :
          (reply : Option ReplySpec)
          → IsPrinted codec reply
          → codec.print (obj (sent codec tc payload reply meta)) ≡ some message
          → wrap_with_trace codec (some tc) (some payload) reply meta ≡ some message
      go none r m = rw m refl
      go (some r') r m = rw (wrap_with_trace, with_reply, r.1) (rw m refl)

  replied :
      (reply : Option ReplySpec)
      → reply_of codec (read_raw (or_else (reply_value reply) none)) ≡ reply
  replied none = refl
  replied (some r) = rw (queues r.queue) refl

  abbrev entries : List (String × Option Value)
  entries = members codec (envelope (some tc) (some payload) (reply_value reply) meta)

  at_tag :
      (name : String)
      → codec.member name (object entries) ≡ get name (object entries)
      → codec.member name (object entries) ≡ found name entries
  at_tag name h = h ∙ get-object name entries

  unmarshalled :
      unmarshal codec (some (obj (object entries)))
      ≡ some (envelope (some tc) (some payload) (read_raw (or_else (reply_value reply) none)) meta)
  unmarshalled =
      rw
        (
          unmarshal,
          is_envelope,
          envelope_of,
          at_tag "_v" finds.0,
          at_tag "_tid" finds.1.0,
          at_tag "_sid" finds.1.1.0,
          at_tag "_smpl" finds.1.1.1.0,
          at_tag "_rto" finds.1.1.1.1.0,
          at_tag "_meta" finds.1.1.1.1.1.0,
          at_tag "payload" finds.1.1.1.1.1.1.0,
        )
        (rw
          (
            text_read tc.trace_id (valid-is_empty tc.trace_id 31 trace_valid),
            text_read tc.span_id (valid-is_empty tc.span_id 15 span_valid),
            read_meta-omit_nil meta,
            bytes,
          )
          refl)

  abbrev sender : TraceContext
  sender = record tc { parent_span_id = ""; instance_id = "" }

  unwrapped : unwrap_envelope codec (some message) ≡ record {
    payload = some payload;
    trace_meta = metadata_from_trace_context (some sender);
    reply = reply;
    business_meta = meta;
  }
  unfolding unwrap_envelope
  unwrapped =
      rw (parses, unmarshalled, valid-is_empty tc.trace_id 31 trace_valid, replied reply) refl

  -- What a handler is given of a published task with a payload, where the publisher has a trace:
  -- the same type, payload, reply queue and metadata, and a span of the publisher's trace whose
  -- parent is the publisher's span. This is if encoding/json prints the reply and the object that the
  -- envelope is, reads the text of that object back, finds its members by their names, and reads
  -- the base64 text of the payload back.
  pub handle-publish :
      (task_type queue : String) (priority : ℤ) (instance_id : String) (span_bytes : List ℕ)
      (client : Client) (ctx : Option TraceContext)
      → (publish codec client (some tc) (record {
        task_type = task_type;
        payload = some payload;
        queue = queue;
        reply = reply;
        priority = priority;
        metadata = meta;
      })
          ≡ with_prefix
              (client task_type (some message) (nsp_platform.TaskQueue.Broker.queue_option queue)))
        × (handle codec instance_id span_bytes ctx task_type queue (some message) ≡ (
          some (record {
            trace_id = tc.trace_id;
            span_id = hex_encode span_bytes;
            parent_span_id = tc.span_id;
            instance_id = instance_id;
            sampled = tc.sampled;
          }),
          record {
            task_type = task_type;
            payload = some payload;
            queue = queue;
            reply = reply;
            priority = pos 0;
            metadata = meta;
          },
        ))
  unfolding publish handle inject_trace_from_metadata
  handle-publish task_type queue priority instance_id span_bytes client ctx = (
    rw wrapped refl,
    rw unwrapped
        (rw (metadata-restored sender [] trace_valid span_valid instance_id span_bytes) refl),
  )
