-- ===== src/Tests/Intake.antt =====
-- An event that comes twice by HTTP, with a frame by TCP in between.
use mathlib.Core.List.{reverse-append}
use realtime_ingestion.Base.{
  ℕ, ◌+◌, ◌≤◌, ◌≡◌, inr, refl, ap, Bool, true, false, some, [], ◌∷◌, ◌++◌, Bytes, reverse,
  replicate, arith,
}
use realtime_ingestion.Text.{
  Text, codes, text_eq, as_bytes, utf8_char, byte_len, trim, trim_start, trim_end, is_whitespace,
  is_ascii_alphanumeric,
}
use realtime_ingestion.Models.{QueueMessage}
use realtime_ingestion.External.{ok, alive, entry}
use realtime_ingestion.Dedup.{is_new}
use realtime_ingestion.Producer.{publish}
use realtime_ingestion.Parser.{field, parse_frame, payload_fields}
use realtime_ingestion.Receiver.{
  is_id_byte, validate_event, enqueue, after_dedup, handle_event, to_message, published,
}
use realtime_ingestion.Tcp.Process.{deliver, process_message, process_frame}
use realtime_ingestion.Intake.{id_of, PublishLaws, count}
use realtime_ingestion.Intake.Reads.{SocketLaws}
use realtime_ingestion.Intake.Frame.{Delivered, process_frame-Delivered}
use realtime_ingestion.Intake.Work.{LimiterLaws, Work, idle, request, read, Work-once}
use realtime_ingestion.Http.{api_key_middleware, rate_limit_middleware, post_event, routes}
use realtime_ingestion.Http.Key.{constant_time_eq, fold_diff}
use realtime_ingestion.Tcp.Frame.{
  extract_frame, take_llll, take_fixed, payload_length, wrap_response,
}
use realtime_ingestion.Tcp.Response.{response_type, build_response, copy_from_slice}
use realtime_ingestion.Tcp.Connection.{
  opened, received, on_read, on_data, drain, serve, reply, send,
}
use realtime_ingestion.Tests.Config.{loaded}
use realtime_ingestion.Tests.Http.{axum, governor, handler, built, with_key}
use realtime_ingestion.Tests.Codec.{Fields, json, json-JsonLaws}
use realtime_ingestion.Tests.World.{World, start, set_nx, redis-RedisLaws, state, socket}
use realtime_ingestion.Tests.Receiver.{event}

abbrev frame : Bytes
frame = codes "MERCHANT0200TRAN00000001" ++ replicate 146 32

set_nx-queue : (k : Text) (ttl : ℕ) (w : World) (b : Bool) → (set_nx k ttl w b).1.queue ≡ w.queue
set_nx-queue k ttl w true = refl
set_nx-queue k ttl w false = refl

id-kept :
    (m : QueueMessage Fields) (b : Bytes)
    → json.to_vec m ≡ ok b
    → id_of (json.from_slice b) ≡ some m.id
id-kept m b e = ap id_of (json-JsonLaws.from_slice-to_vec m m.payload b refl e)

abbrev sends : PublishLaws state redis-RedisLaws
sends = record {
  sent = λ w. reverse w.queue;
  set_nx_ex = λ k ttl w. ap reverse (set_nx-queue k ttl w (alive (w.marks k) w.time));
  basic_publish = λ exchange key kind mode body w. inr (reverse-append w.queue (body ∷ []));
  publish_quiet =
      λ exchange key kind mode body w. record { later = omega arith; marks = λ k. refl };
  confirmation = λ tag w. refl;
  confirm_quiet = λ tag w. record { later = omega arith; marks = λ k. refl };
  to_vec = id-kept;
}

abbrev outlet : SocketLaws state redis-RedisLaws sends socket
outlet = record {
  write_quiet = λ b w. record { later = omega arith; marks = λ k. refl };
  write_sent = λ b w. refl;
}

abbrev limits : LimiterLaws state redis-RedisLaws sends socket axum governor
limits = record {
  check_quiet = λ q ip w. record { later = omega arith; marks = λ k. refl };
  check_sent = λ q ip w. refl;
}

-- The event by HTTP, the frame by TCP, and the event again.
abbrev first : World
first = (handler with_key start).1

abbrev second : World
second = (on_read (serve state socket) 4096 (received frame) (opened first)).1.world

abbrev last : World
last = (handler with_key second).1

calls : Work state redis-RedisLaws sends socket axum governor outlet limits 4096 handler start last
calls = request with_key (read (opened first) (received frame) refl (request with_key idle))

last_time : last.time ≡ 1_000
unfolding rate_limit_middleware routes api_key_middleware constant_time_eq fold_diff post_event
    handle_event validate_event is_id_byte is_ascii_alphanumeric after_dedup enqueue to_message
    published is_new publish process_frame process_message deliver parse_frame field text_eq
    as_bytes utf8_char byte_len trim trim_start trim_end is_whitespace on_read on_data drain serve
    reply send extract_frame take_llll take_fixed payload_length wrap_response build_response
    response_type copy_from_slice payload_fields entry
last_time = refl

Work-once_example :
    count state redis-RedisLaws sends event.id last
    ≤ count state redis-RedisLaws sends event.id start + 1
Work-once_example =
    Work-once state redis-RedisLaws sends socket axum governor outlet limits 4096 loaded handler
      event.id built calls (omega (arith, last_time))

process_frame-Delivered_example :
    Delivered state redis-RedisLaws sends frame start (process_frame state frame start).1
process_frame-Delivered_example =
    process_frame-Delivered state redis-RedisLaws sends frame start (omega arith)
