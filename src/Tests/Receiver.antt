-- ===== src/Tests/Receiver.antt =====
-- The handler of `POST /events` and the duplicate filter at concrete inputs.
use realtime_ingestion.Base.{◌≡◌, ◌↔◌, refl, true, false, none, [], ◌∷◌, arith}
use realtime_ingestion.Text.{codes, text_eq, as_bytes, utf8_char, byte_len, is_ascii_alphanumeric}
use realtime_ingestion.Models.{IncomingEvent}
use realtime_ingestion.External.{ok, err, bad_event_id}
use realtime_ingestion.Dedup.{is_new}
use realtime_ingestion.Dedup.Window.{
  Calls, Calls.done, Calls.call, Calls.wait, NoneNew, is_new_once,
}
use realtime_ingestion.Receiver.{accepted, conflict, is_id_byte, validate_event, handle_event}
use realtime_ingestion.Receiver.Validation.{IsValid, validate_event-IsValid}
use realtime_ingestion.Receiver.Handler.{
  code_of, Queued, handle_event-accepted_iff, handle_event_retry,
}
use realtime_ingestion.Tests.Codec.{Fields}
use realtime_ingestion.Tests.World.{World, start, redis, redis-RedisLaws, state}

abbrev pub event : IncomingEvent Fields
event = record { id = codes "evt-1"; event_type = codes "card"; payload = []; timestamp = none }

event-IsValid : IsValid event
unfolding validate_event is_id_byte is_ascii_alphanumeric as_bytes utf8_char byte_len
event-IsValid = (validate_event-IsValid event).0 refl

abbrev first : World
first = (is_new redis state.dedup event.id start).1

abbrev later : World
later = record first { time = 2_000 }

first_new : is_new redis state.dedup event.id start ≡ (ok true, first)
unfolding is_new byte_len as_bytes utf8_char
first_new = refl

between : Calls redis redis-RedisLaws state.dedup first [] later
unfolding is_new byte_len as_bytes utf8_char
between = wait (omega arith) (λ k here. refl) done

second_known : is_new redis state.dedup event.id later ≡ (ok false, later)
unfolding is_new byte_len as_bytes utf8_char text_eq
second_known = refl

retried :
    Calls redis redis-RedisLaws state.dedup first
      (([], err (bad_event_id 0)) ∷ (event.id, ok false) ∷ [])
      later
unfolding is_new byte_len as_bytes utf8_char text_eq
retried =
    wait {w' = later} (omega arith) (λ k here. refl)
      (call [] (err (bad_event_id 0)) refl (call event.id (ok false) second_known done))

validate_event-IsValid_example : (validate_event event ≡ none) ↔ IsValid event
validate_event-IsValid_example = validate_event-IsValid event

handle_event-accepted_iff_example :
    (code_of (handle_event state event start) ≡ accepted)
    ↔ (IsValid event × Queued state event start (handle_event state event start).1)
handle_event-accepted_iff_example = handle_event-accepted_iff state event start

handle_event_retry_example :
    (code_of (handle_event state event later) ≡ conflict)
    × ((handle_event state event later).1 ≡ later)
unfolding is_new byte_len as_bytes utf8_char
handle_event_retry_example =
    handle_event_retry state redis-RedisLaws event start false event-IsValid first_new between
      second_known (omega arith)

is_new_once_example :
    NoneNew redis redis-RedisLaws state.dedup event.id
      (([], err (bad_event_id 0)) ∷ (event.id, ok false) ∷ [])
unfolding is_new byte_len as_bytes utf8_char
is_new_once_example =
    is_new_once redis redis-RedisLaws state.dedup event.id start first_new retried (omega arith)
