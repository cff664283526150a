-- ===== src/Tests/Http.antt =====
-- Requests with and without the key, against a limiter that counts.
use realtime_ingestion.Base.{
  ℕ, ◌+◌, ◌≡◌, ◌↔◌, refl, ap, true, false, Option, none, some, ltb, Bytes, inr,
}
use realtime_ingestion.Text.{codes, text_eq, as_bytes, utf8_char, byte_len, is_ascii_alphanumeric}
use realtime_ingestion.Models.{IncomingEvent}
use realtime_ingestion.Dedup.{is_new}
use realtime_ingestion.Producer.{publish}
use realtime_ingestion.Receiver.{
  respond, accepted, is_id_byte, validate_event, to_message, published, enqueue, after_dedup,
  handle_event,
}
use realtime_ingestion.Http.{
  Reply, Route, Axum, Governor, Handler, non_zero, new_rate_limiter, api_key_middleware,
  rate_limit_middleware, post_event, routes, app,
}
use realtime_ingestion.Http.Key.{constant_time_eq, fold_diff}
use realtime_ingestion.Http.Key.Laws.{constant_time_eq_iff}
use realtime_ingestion.Http.Layers.{quota, checked, given}
use realtime_ingestion.Http.Access.{Admitted, turned_away, app-Admitted, app-turned_away}
use realtime_ingestion.Tests.Codec.{Fields}
use realtime_ingestion.Tests.World.{World, start, state}
use realtime_ingestion.Tests.Config.{loaded}
use realtime_ingestion.Tests.Receiver as Events

pub record Request : Type 0 where
  key : Option Bytes
  ip : Option ℕ
  to : Route
  content : Option (IncomingEvent Fields)

-- A header holds its text; every other answer is a code.
abbrev pub axum : Axum Request ℕ Fields
axum = record {
  header = λ r name. r.key;
  to_str = λ b. some b;
  peer = λ r. r.ip;
  route = λ r. r.to;
  json_body = λ limit r. r.content;
  rejection = λ limit r. 422;
  method_not_allowed = λ r. 405;
  not_found = λ r. 404;
}

abbrev pub governor : Governor World
governor = record {
  check_key = λ q ip w. (ltb w.requests q.burst, record w { requests = w.requests + 1 });
}

abbrev pub handler : Handler World Request ℕ
handler =
    rate_limit_middleware axum governor (quota loaded)
      (routes axum state loaded.api_key loaded.http_max_body_bytes)

pub built : app axum state governor loaded ≡ some handler
unfolding app new_rate_limiter non_zero
built = refl

abbrev pub with_key : Request
with_key = record {
  key = some (codes "k3y");
  ip = none;
  to = Route.events;
  content = some Events.event;
}

abbrev with_other_key : Request
with_other_key = record {
  key = some (codes "key");
  ip = none;
  to = Route.events_other_method;
  content = none;
}

answer_of : handler with_key start ≡ (
  some (Reply.event (respond accepted (codes "accepted") (codes "event evt-1 queued"))),
  (handler with_key start).1,
)
unfolding rate_limit_middleware routes api_key_middleware constant_time_eq fold_diff post_event
    handle_event validate_event after_dedup enqueue published publish is_new to_message as_bytes
    utf8_char byte_len is_id_byte is_ascii_alphanumeric text_eq
answer_of = refl

constant_time_eq_iff_example :
    (constant_time_eq (codes "k3y") (codes "key") ≡ true) ↔ (codes "k3y" ≡ codes "key")
constant_time_eq_iff_example = constant_time_eq_iff (codes "k3y") (codes "key")

app-Admitted_example :
    Admitted axum governor state loaded with_key start
      (respond accepted (codes "accepted") (codes "event evt-1 queued"))
      (handler with_key start).1
app-Admitted_example =
    app-Admitted axum governor state loaded handler built with_key start
      (respond accepted (codes "accepted") (codes "event evt-1 queued")) (handler with_key start).1
      refl answer_of

other_key : as_bytes (given axum with_other_key) ≡ as_bytes loaded.api_key → ⊥
unfolding as_bytes utf8_char text_eq
other_key h =
    let differs : true ≡ false = ap (λ b. text_eq b (codes "key")) h in absurd (cc differs)

app-turned_away_example :
    handler with_other_key start ≡ turned_away (checked axum governor loaded with_other_key start)
app-turned_away_example =
    app-turned_away axum governor state loaded handler built with_other_key start (inr refl)
      other_key
