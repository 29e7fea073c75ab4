-- ===== src/Trace/Laws.antt =====
-- Propagation of a trace over one hop: by the headers of a request, and by the metadata of a
-- message (trace/propagator.go).
use nsp_platform.Base.{
  ℕ, suc, ◌==◌, not, String, Bool, true, false, List, some, str_eq, if◌then◌else◌, ◌≡◌, refl, ◌∙◌,
  arith,
}
use nsp_platform.Base.Text.{is_empty}
use nsp_platform.Base.Hex.{hex_encode}
use nsp_platform.Http.{
  Headers, get_header, set_header, canonical_key, get_header-set_header,
  get_header-set_header_other,
}
use nsp_platform.Trace.{
  TraceContext, inject, extract, is_valid_hex_string, inherited_trace_id, valid_span, new_id,
  metadata_from_trace_context, trace_from_metadata,
}

zero_differs : (n : ℕ) → (0 == suc n) ≡ false
zero_differs n = ground arith

pub valid-is_empty :
    (s : String) (n : ℕ) → is_valid_hex_string s (suc n) ≡ true → is_empty s ≡ false
unfolding is_valid_hex_string
valid-is_empty String.[] n h = cc (rw (zero_differs n) at h)
valid-is_empty (String.◌∷◌ c s) n h = refl

valid_span-kept : (s : String) → is_valid_hex_string s 16 ≡ true → valid_span s ≡ s
valid_span-kept s h = rw (valid-is_empty s 15 h, h) refl

inherited-own :
    (own request_id generated : String)
    → is_valid_hex_string own 32 ≡ true
    → inherited_trace_id own request_id generated ≡ own
inherited-own own request_id generated h = rw (valid-is_empty own 31 h, h) refl

sampled-text : (b : Bool) → not (str_eq (if b then "1" else "0") "0") ≡ b
sampled-text true = refl
sampled-text false = refl

module _ (tc : TraceContext) (h : Headers) (trace_valid : is_valid_hex_string tc.trace_id 32 ≡ true)
    (span_valid : is_valid_hex_string tc.span_id 16 ≡ true) where
  abbrev with_trace : Headers
  with_trace = set_header "X-B3-TraceId" tc.trace_id h

  injected :
      inject (some tc) h
      ≡ set_header "X-B3-Sampled"
          (if tc.sampled then "1" else "0")
          (set_header "X-B3-SpanId" tc.span_id with_trace)
  unfolding inject
  injected =
      rw (valid-is_empty tc.trace_id 31 trace_valid, valid-is_empty tc.span_id 15 span_valid) refl

  sent-trace_id : get_header "X-B3-TraceId" (inject (some tc) h) ≡ tc.trace_id
  unfolding canonical_key
  sent-trace_id = rw injected (
      get_header-set_header_other "X-B3-Sampled" "X-B3-TraceId" _ _ refl
      ∙ get_header-set_header_other "X-B3-SpanId" "X-B3-TraceId" _ _ refl
      ∙ get_header-set_header "X-B3-TraceId" _ _)

  sent-span_id : get_header "X-B3-SpanId" (inject (some tc) h) ≡ tc.span_id
  unfolding canonical_key
  sent-span_id = rw injected (
      get_header-set_header_other "X-B3-Sampled" "X-B3-SpanId" _ _ refl
      ∙ get_header-set_header "X-B3-SpanId" _ _)

  sent-sampled : get_header "X-B3-Sampled" (inject (some tc) h) ≡ (if tc.sampled then "1" else "0")
  sent-sampled = rw injected (get_header-set_header "X-B3-Sampled" _ _)

  -- What a service extracts from the headers that another has injected belongs to the same trace,
  -- has the sender's span as its parent, and is sampled like the sender's; its own span is new.
  pub extract-inject :
      (instance_id : String) (trace_bytes span_bytes : List ℕ)
      → extract (inject (some tc) h) instance_id trace_bytes span_bytes ≡ record {
        trace_id = tc.trace_id;
        span_id = hex_encode span_bytes;
        parent_span_id = tc.span_id;
        instance_id = instance_id;
        sampled = tc.sampled;
      }
  unfolding extract new_id
  extract-inject instance_id trace_bytes span_bytes =
      rw (sent-trace_id, sent-span_id, sent-sampled)
        (rw
          (
            inherited-own tc.trace_id (get_header "X-Request-Id" (inject (some tc) h))
                (hex_encode trace_bytes) trace_valid,
            valid_span-kept tc.span_id span_valid,
            sampled-text tc.sampled,
          )
          refl)

  -- The same for the metadata of a message.
  pub metadata-restored :
      (instance_id : String) (span_bytes : List ℕ)
      → trace_from_metadata (metadata_from_trace_context (some tc)) instance_id span_bytes
        ≡ some (record {
          trace_id = tc.trace_id;
          span_id = hex_encode span_bytes;
          parent_span_id = tc.span_id;
          instance_id = instance_id;
          sampled = tc.sampled;
        })
  unfolding trace_from_metadata metadata_from_trace_context new_id
  metadata-restored instance_id span_bytes =
      rw (trace_valid, valid_span-kept tc.span_id span_valid, sampled-text tc.sampled) refl
