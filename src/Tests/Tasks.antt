-- ===== src/Tests/Tasks.antt =====
-- A published task and its handler, and configurations out of bounds.
use nsp_platform.Base.{◌≡◌, refl, false, none, some, [], ◌∷◌}
use nsp_platform.Base.Int.{pos, negsuc}
use nsp_platform.Base.Hex.{all_hex, hex_encode, nibble}
use nsp_platform.Json.{Fields, obj, get}
use nsp_platform.Trace.{is_valid_hex_string}
use nsp_platform.TaskQueue.{ReplySpec, ListOptions, normalize}
use nsp_platform.TaskQueue.Envelope.{Bytes, EnvelopeCodec}
use nsp_platform.TaskQueue.Broker.{Client, accepted, publish, handle, normalize_task_check_interval}
use nsp_platform.TaskQueue.Laws.{sent, handle-publish}
use nsp_platform.TaskQueue.Bounds.{
  IsClamped, IsPage, IsInterval, normalize-IsClamped, normalize_task_check_interval-IsInterval,
}
use nsp_platform.Tests.Traces.{gateway}

abbrev reply : ReplySpec
reply = record { queue = "results" }

abbrev payload : Bytes
payload = 123 ∷ 125 ∷ []

abbrev codec_without_parser : EnvelopeCodec
codec_without_parser = record {
  print = λ v. some (1 ∷ []);
  parse = λ b. none;
  member = get;
  base64 = λ b. "e30=";
  read_bytes = λ v. some payload;
}

abbrev object_sent : Fields
object_sent = sent codec_without_parser gateway payload (some reply) (("tenant", "t1") ∷ [])

-- JSON that knows one text.
abbrev codec : EnvelopeCodec
codec = record codec_without_parser { parse = λ b. some (obj object_sent) }

abbrev client : Client
client kind message queue = accepted (record { broker_task_id = "t-1"; queue = "tasks" })

handle-publish_example :
    (publish codec client (some gateway) (record {
      task_type = "create_vrf";
      payload = some payload;
      queue = "tasks";
      reply = some reply;
      priority = pos 9;
      metadata = ("tenant", "t1") ∷ [];
    })
      ≡ accepted (record { broker_task_id = "t-1"; queue = "tasks" }))
    × (handle codec "worker-1" (7 ∷ []) none "create_vrf" "tasks" (some (1 ∷ [])) ≡ (
      some (record {
        trace_id = "4bf92f3577b34da6a3ce929d0e0e4736";
        span_id = "07";
        parent_span_id = "00f067aa0ba902b7";
        instance_id = "worker-1";
        sampled = false;
      }),
      record {
        task_type = "create_vrf";
        payload = some payload;
        queue = "tasks";
        reply = some reply;
        priority = pos 0;
        metadata = ("tenant", "t1") ∷ [];
      },
    ))
unfolding is_valid_hex_string all_hex hex_encode nibble get
handle-publish_example =
    handle-publish codec gateway payload (some reply) (("tenant", "t1") ∷ []) (1 ∷ []) refl refl
      ((1 ∷ []), refl) refl refl (refl, (refl, (refl, (refl, (refl, (refl, (refl, tt)))))))
      (λ queue. refl) refl "create_vrf" "tasks" (pos 9) "worker-1" (7 ∷ []) client none

abbrev unbounded : ListOptions
unbounded = record { page = negsuc 3; page_size = pos 500 }

normalize-IsClamped_example :
    IsPage unbounded.page (normalize unbounded).page
    × IsClamped 30 100 unbounded.page_size (normalize unbounded).page_size
    × (normalize (normalize unbounded) ≡ normalize unbounded)
normalize-IsClamped_example = normalize-IsClamped unbounded

normalize_task_check_interval-IsInterval_example :
    IsInterval (pos 5) (normalize_task_check_interval (pos 5))
    × (normalize_task_check_interval (pos (normalize_task_check_interval (pos 5)).0)
        ≡ ((normalize_task_check_interval (pos 5)).0, false))
normalize_task_check_interval-IsInterval_example = normalize_task_check_interval-IsInterval (pos 5)
