-- ===== src/Trace.antt =====
-- trace/context.go and trace/propagator.go: the trace context and its injection into the headers of
-- an outbound request.
pub mod Laws
use Prim.Native.String.{len}
use nsp_platform.Base.{
  ℕ, ◌%◌, ◌==◌, ◌&&◌, not, String, Bool, true, false, List, [], ◌∷◌, Option, none, some, str_eq,
  if◌then◌else◌,
}
use nsp_platform.Base.Hex.{all_hex, hex_encode}
use nsp_platform.Base.Maps.{lookup, put}
use nsp_platform.Http.{get_header, or_empty}
use nsp_platform.Base.Text.{is_empty}
pub use nsp_platform.Http.{Headers}
unfoldable pub use nsp_platform.Http.{set_header}

pub record TraceContext : Type 0 where
  pub trace_id : String
  pub span_id : String
  pub parent_span_id : String
  pub instance_id : String
  pub sampled : Bool

abbrev set_unless_empty : String → String → Headers → Headers
set_unless_empty key value h = if is_empty value then h else set_header key value h

-- `Inject` into the headers of a request.
unfoldable pub inject : Option TraceContext → Headers → Headers
unfolding set_header
inject none h = h
inject (some tc) h =
    set_header "X-B3-Sampled" (if tc.sampled then "1" else "0")
      (set_unless_empty "X-B3-SpanId" tc.span_id (set_unless_empty "X-B3-TraceId" tc.trace_id h))

-- `InjectResponse` into the headers of a response.
unfoldable pub inject_response : Option TraceContext → Headers → Headers
unfolding set_header
inject_response none h = h
inject_response (some tc) h =
    if is_empty tc.trace_id
    then h
    else set_header "X-Request-Id" tc.trace_id (set_header "X-B3-TraceId" tc.trace_id h)

-- `isValidHexString`: that long, and hex.DecodeString takes it, which wants an even length.
unfoldable pub is_valid_hex_string : String → ℕ → Bool
unfolding all_hex
is_valid_hex_string s expected_len = len s == expected_len && (expected_len % 2 == 0 && all_hex s)

-- The trace identifier of a request: its own, that of a gateway, or a new one.
abbrev pub inherited_trace_id : String → String → String → String
inherited_trace_id own request_id generated =
    if not (is_empty own) && is_valid_hex_string own 32
    then own
    else if not (is_empty request_id) && is_valid_hex_string request_id 32
    then request_id
    else generated

-- The parent span, or none where it is malformed.
abbrev pub valid_span : String → String
valid_span s = if not (is_empty s) && is_valid_hex_string s 16 then s else ""

-- What NewTraceID and NewSpanId make of random bytes.
unfoldable pub new_id : List ℕ → String
new_id bytes = hex_encode bytes

-- `Extract`, given the random bytes of a new trace identifier and of the span.
unfoldable pub extract : Headers → String → List ℕ → List ℕ → TraceContext
unfolding get_header is_valid_hex_string new_id
extract h instance_id trace_bytes span_bytes = record {
  trace_id =
      inherited_trace_id (get_header "X-B3-TraceId" h) (get_header "X-Request-Id" h)
        (new_id trace_bytes);
  span_id = new_id span_bytes;
  parent_span_id = valid_span (get_header "X-B3-SpanId" h);
  instance_id = instance_id;
  sampled = not (str_eq (get_header "X-B3-Sampled" h) "0");
}

abbrev pub Metadata : Type 0
Metadata = List (String × String)

-- `MetadataFromTraceContext`, and nil for a context without a trace.
unfoldable pub metadata_from_trace_context : Option TraceContext → Option Metadata
metadata_from_trace_context none = none
metadata_from_trace_context (some tc) = some (
    ("trace_id", tc.trace_id)
    ∷ ("span_id", tc.span_id)
    ∷ ("sampled", if tc.sampled then "1" else "0")
    ∷ [])

-- `metadata[key]`, "" where it is missing.
abbrev pub value_at : String → Metadata → String
value_at key m = or_empty (lookup key m)

abbrev pub restored : Metadata → String → List ℕ → Option TraceContext
restored m instance_id span_bytes =
    if is_valid_hex_string (value_at "trace_id" m) 32
    then some (record {
      trace_id = value_at "trace_id" m;
      span_id = new_id span_bytes;
      parent_span_id = valid_span (value_at "span_id" m);
      instance_id = instance_id;
      sampled = not (str_eq (value_at "sampled" m) "0");
    })
    else none

-- `TraceFromMetadata`; a nil map has no entries.
unfoldable pub trace_from_metadata : Option Metadata → String → List ℕ → Option TraceContext
unfolding is_valid_hex_string new_id
trace_from_metadata none instance_id span_bytes = none
trace_from_metadata (some []) instance_id span_bytes = none
trace_from_metadata (some (e ∷ m)) instance_id span_bytes = restored (e ∷ m) instance_id span_bytes

-- `IsRoot`, `MustTraceFromContext` and `LogFields`.
abbrev pub is_root : TraceContext → Bool
is_root tc = is_empty tc.parent_span_id

abbrev pub must_trace_from_context : Option TraceContext → TraceContext
must_trace_from_context (some tc) = tc
must_trace_from_context none = record {
  trace_id = "";
  span_id = "";
  parent_span_id = "";
  instance_id = "";
  sampled = false;
}

abbrev pub log_fields : TraceContext → Metadata
log_fields tc =
    let fields =
      ("trace_id", tc.trace_id) ∷ ("span_id", tc.span_id) ∷ ("instance_id", tc.instance_id) ∷ [] in
    if is_empty tc.parent_span_id then fields else put "parent_span_id" tc.parent_span_id fields

-- `GetInstanceId`, given HOSTNAME and what os.Hostname answers.
abbrev pub get_instance_id : String → Option String → String
get_instance_id variable hostname =
    if is_empty variable then known (or_empty hostname) else variable
  where
    known : String → String
    known h = if is_empty h then "unknown" else h

-- `TracedClient.Do`: the headers that are sent.
unfoldable pub traced_do : Option TraceContext → Headers → Headers
unfolding inject
traced_do tc h = inject tc h

-- TraceMiddleware: the trace of the context, and the headers of the response.
unfoldable pub trace_middleware :
    String → List ℕ → List ℕ → Headers → Headers → TraceContext × Headers
unfolding extract inject_response
trace_middleware instance_id trace_bytes span_bytes request response =
    let tc = extract request instance_id trace_bytes span_bytes in
    (tc, inject_response (some tc) response)
