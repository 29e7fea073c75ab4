-- ===== src/Tests/Traces.antt =====
-- A trace over one hop.
use nsp_platform.Base.{◌≡◌, refl, false, [], ◌∷◌, some}
use nsp_platform.Base.Hex.{all_hex, hex_encode, nibble}
use nsp_platform.Trace.{
  TraceContext, inject, extract, is_valid_hex_string, metadata_from_trace_context,
  trace_from_metadata,
}
use nsp_platform.Trace.Laws.{extract-inject, metadata-restored}

abbrev pub gateway : TraceContext
gateway = record {
  trace_id = "4bf92f3577b34da6a3ce929d0e0e4736";
  span_id = "00f067aa0ba902b7";
  parent_span_id = "";
  instance_id = "gateway-1";
  sampled = false;
}

abbrev order : TraceContext
order = record {
  trace_id = "4bf92f3577b34da6a3ce929d0e0e4736";
  span_id = "07ff";
  parent_span_id = "00f067aa0ba902b7";
  instance_id = "order-1";
  sampled = false;
}

extract-inject_example :
    extract (inject (some gateway) (("X-Request-Id", "r1") ∷ [])) "order-1" [] (7 ∷ 255 ∷ [])
    ≡ order
unfolding is_valid_hex_string all_hex hex_encode nibble
extract-inject_example =
    extract-inject gateway (("X-Request-Id", "r1") ∷ []) refl refl "order-1" [] (7 ∷ 255 ∷ [])

metadata-restored_example :
    trace_from_metadata (metadata_from_trace_context (some gateway)) "order-1" (7 ∷ 255 ∷ [])
    ≡ some order
unfolding is_valid_hex_string all_hex hex_encode nibble
metadata-restored_example = metadata-restored gateway [] refl refl "order-1" (7 ∷ 255 ∷ [])
