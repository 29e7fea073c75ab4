-- ===== src/TaskQueue/Envelope.antt =====
-- taskqueue/asynqbroker/trace_envelope.go: the envelope that carries the trace, the reply queue and
-- the metadata of a task with its payload. A nil slice of bytes is none.
use nsp_platform.Base.{
  ℕ, ◌==◌, String, Bool, true, false, not, ◌&&◌, Option, some, none, List, [], ◌∷◌, if◌then◌else◌,
}
use nsp_platform.Base.Int.{ℤ, pos}
use nsp_platform.Base.Text.{is_empty}
use nsp_platform.Json.{Value, null, bool, int, str, obj, Fields, end, field}
use nsp_platform.Trace.{TraceContext, metadata_from_trace_context, trace_from_metadata}
use nsp_platform.TaskQueue.{Metadata, ReplySpec}

abbrev pub Bytes : Type 0
Bytes = List ℕ

-- A raw message is the JSON value that it is the text of, and a number without a fraction is `int`.
pub record TaskEnvelope : Type 0 where
  pub version : ℤ
  pub trace_id : String
  pub span_id : String
  pub sampled : Bool
  pub reply_to : Option Value
  pub meta : Metadata
  pub payload : Option Bytes

-- What the code asks of encoding/json: the text of a value, the value of a text, the member that is
-- read into a field of the name, the base64 text that a slice of bytes is written as, and the bytes
-- that are read from a value; none is an error, or no member.
pub record EnvelopeCodec : Type 0 where
  pub print : Value → Option Bytes
  pub parse : Bytes → Option Value
  pub member : String → Fields → Option Value
  pub base64 : Bytes → String
  pub read_bytes : Value → Option Bytes

abbrev pub is_none {ℓ} : {A : Type ℓ} → Option A → Bool
is_none none = true
is_none (some a) = false

abbrev pub is_nil {ℓ} : {A : Type ℓ} → List A → Bool
is_nil [] = true
is_nil (x ∷ xs) = false

-- The envelope with the fields of the trace.
abbrev pub envelope : Option TraceContext → Option Bytes → Option Value → Metadata → TaskEnvelope
envelope none payload reply_to meta = record {
  version = pos 1;
  trace_id = "";
  span_id = "";
  sampled = false;
  reply_to = reply_to;
  meta = meta;
  payload = payload;
}
envelope (some tc) payload reply_to meta = record {
  version = pos 1;
  trace_id = tc.trace_id;
  span_id = tc.span_id;
  sampled = tc.sampled;
  reply_to = reply_to;
  meta = meta;
  payload = payload;
}

-- An object of the members that are there.
abbrev pub object : List (String × Option Value) → Fields
object [] = end
object ((k, none) ∷ es) = object es
object ((k, some v) ∷ es) = field k v (object es)

-- A text under `omitempty`.
abbrev pub omit_empty : String → Option Value
omit_empty s = if is_empty s then none else some (str s)

abbrev pub meta_fields : Metadata → Fields
meta_fields [] = end
meta_fields ((k, v) ∷ meta) = field k (str v) (meta_fields meta)

-- The metadata under `omitempty`.
abbrev pub omit_nil : Metadata → Option Value
omit_nil [] = none
omit_nil (m ∷ meta) = some (obj (meta_fields (m ∷ meta)))

-- The tags of ReplySpec, which are the names of its fields.
abbrev pub reply_fields : ReplySpec → Fields
reply_fields r = field "Queue" (str r.queue) end

-- What is read into a text, and into a map of texts.
abbrev pub read_text : Option Value → Option String
read_text none = some ""
read_text (some null) = some ""
read_text (some (str s)) = some s
read_text (some _) = none

abbrev pub and_then {ℓ κ} : {A : Type ℓ} {B : Type κ} → Option A → (A → Option B) → Option B
and_then none f = none
and_then (some a) f = f a

abbrev pub read_texts : Fields → Option Metadata
read_texts end = some []
read_texts (field k v m) =
    let rest = read_texts m in
    and_then (read_text (some v)) (λ s. and_then rest (λ meta. some ((k, s) ∷ meta)))

abbrev pub read_meta : Option Value → Option Metadata
read_meta none = some []
read_meta (some null) = some []
read_meta (some (obj m)) = read_texts m
read_meta (some _) = none

-- A pointer to a raw message is nil for null too.
abbrev pub read_raw : Option Value → Option Value
read_raw none = none
read_raw (some null) = none
read_raw (some v) = some v

-- The three tests of the probe; what cannot be read into its field is an error.
abbrev pub is_first : Option Value → Bool
is_first (some (int (pos n))) = n == 1
is_first _ = false

abbrev pub is_bool : Option Value → Bool
is_bool (some (bool b)) = true
is_bool _ = false

abbrev pub is_true : Option Value → Bool
is_true (some (bool b)) = b
is_true _ = false

-- What unwrapEnvelope returns.
pub record Unwrapped : Type 0 where
  pub payload : Option Bytes
  pub trace_meta : Option Metadata
  pub reply : Option ReplySpec
  pub business_meta : Metadata

-- A message that is no envelope.
abbrev pub legacy : Option Bytes → Unwrapped
legacy message = record { payload = message; trace_meta = none; reply = none; business_meta = [] }

abbrev pub bytes_of : Option Bytes → Bytes
bytes_of none = []
bytes_of (some b) = b

module _ (codec : EnvelopeCodec) where
  abbrev payload_value : Option Bytes → Value
  payload_value none = null
  payload_value (some b) = str (codec.base64 b)

  -- The members by the tags of taskEnvelope.
  abbrev pub members : TaskEnvelope → List (String × Option Value)
  members e =
      ("_v", some (int e.version))
      ∷ ("_tid", omit_empty e.trace_id)
      ∷ ("_sid", omit_empty e.span_id)
      ∷ ("_smpl", some (bool e.sampled))
      ∷ ("_rto", e.reply_to)
      ∷ ("_meta", omit_nil e.meta)
      ∷ ("payload", some (payload_value e.payload))
      ∷ []

  abbrev pub marshal : TaskEnvelope → Option Bytes
  marshal e = codec.print (obj (object (members e)))

  -- Version, Sampled and Payload of the probe are there, and the version is 1.
  abbrev pub is_envelope : Fields → Bool
  is_envelope m =
      is_first (codec.member "_v" m)
      && (is_bool (codec.member "_smpl" m) && not (is_none (read_raw (codec.member "payload" m))))

  -- The envelope of a message that the probe accepts.
  abbrev pub envelope_of : Fields → Option TaskEnvelope
  envelope_of m = and_then (read_text (codec.member "_tid" m)) (λ trace_id.
      and_then (read_text (codec.member "_sid" m)) (λ span_id.
        and_then (read_meta (codec.member "_meta" m)) (λ meta.
          and_then (and_then (codec.member "payload" m) codec.read_bytes) (λ payload. some (record {
            version = pos 1;
            trace_id = trace_id;
            span_id = span_id;
            sampled = is_true (codec.member "_smpl" m);
            reply_to = read_raw (codec.member "_rto" m);
            meta = meta;
            payload = some payload;
          })))))

  -- The probe and json.Unmarshal.
  abbrev pub unmarshal : Option Value → Option TaskEnvelope
  unmarshal (some (obj m)) = if is_envelope m then envelope_of m else none
  unmarshal _ = none

  abbrev pub or_payload : Option Bytes → Option Bytes → Option Bytes
  or_payload payload none = payload
  or_payload payload (some b) = some b

  abbrev pub marshal_with :
      Option TraceContext → Option Bytes → Metadata → Option Value → Option Bytes
  marshal_with tc payload meta reply_to =
      or_payload payload (marshal (envelope tc payload reply_to meta))

  abbrev pub with_reply :
      Option TraceContext → Option Bytes → Metadata → Option ReplySpec → Option Bytes
  with_reply tc payload meta none = marshal_with tc payload meta none
  with_reply tc payload meta (some r) = elim (codec.print (obj (reply_fields r))) [
    | none ↦ payload
    | some raw ↦ marshal_with tc payload meta (some (obj (reply_fields r)))
  ]

  -- `wrapWithTrace`.
  unfoldable pub wrap_with_trace :
      Option TraceContext → Option Bytes → Option ReplySpec → Metadata → Option Bytes
  wrap_with_trace tc payload reply meta =
      if is_none tc && (is_none reply && is_nil meta)
      then payload
      else with_reply tc payload meta reply

  -- The trace as metadata; the trace context has no parent and no instance.
  abbrev pub trace_meta_of : TaskEnvelope → Option Metadata
  trace_meta_of e =
      if is_empty e.trace_id
      then none
      else metadata_from_trace_context (
          some (record {
            trace_id = e.trace_id;
            span_id = e.span_id;
            parent_span_id = "";
            instance_id = "";
            sampled = e.sampled;
          }))

  abbrev pub reply_with : Option String → Option ReplySpec
  reply_with none = none
  reply_with (some queue) = some (record { queue = queue })

  abbrev pub reply_of : Option Value → Option ReplySpec
  reply_of (some (obj m)) = reply_with (read_text (codec.member "Queue" m))
  reply_of _ = none

  abbrev pub opened : Option Bytes → Option TaskEnvelope → Unwrapped
  opened message none = legacy message
  opened message (some e) = record {
    payload = e.payload;
    trace_meta = trace_meta_of e;
    reply = reply_of e.reply_to;
    business_meta = e.meta;
  }

  -- `unwrapEnvelope`; parsing no bytes is an error.
  unfoldable pub unwrap_envelope : Option Bytes → Unwrapped
  unwrap_envelope message = opened message (unmarshal (codec.parse (bytes_of message)))

-- `injectTraceFromMetadata`: the trace of the context that a handler is given.
abbrev pub or_context : Option TraceContext → Option TraceContext → Option TraceContext
or_context ctx none = ctx
or_context ctx (some tc) = some tc

unfoldable pub inject_trace_from_metadata :
    Option TraceContext → Option Metadata → String → List ℕ → Option TraceContext
unfolding trace_from_metadata
inject_trace_from_metadata ctx meta instance_id span_bytes =
    or_context ctx (trace_from_metadata meta instance_id span_bytes)
