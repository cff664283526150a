-- ===== src/Receiver.antt =====
-- src/receiver.rs: the validation of an event and the handler of `POST /events`. A response is a
-- status code and a body; `none` is the panic of a system clock before 1970.
pub mod Validation
pub mod Handler
use realtime_ingestion.Base.{
  ℕ, Bool, true, false, ◌||◌, not, Option, none, some, [], ◌++◌, ltb, ◌==◌, if◌then◌else◌, all,
  is_empty, unwrap_or,
}
use realtime_ingestion.Text.{Text, codes, byte_len, as_bytes, is_ascii_alphanumeric}
use realtime_ingestion.Models.{IncomingEvent, QueueMessage, ApiResponse}
use realtime_ingestion.External.{Result, ok, err, JsonLib, EucKr, Clock, Redis, Amqp}
use realtime_ingestion.Dedup.{DedupChecker, is_new}
use realtime_ingestion.Producer.{Producer, publish}
use realtime_ingestion.Parser.{as_i64}

-- The shared state, with the services behind its fields and the libraries that the handlers call.
pub record AppState (W C Json : Type 0) : Type 0 where
  pub dedup : DedupChecker
  pub producer : Producer
  pub redis : Redis W
  pub amqp : Amqp W C
  pub json : JsonLib Json
  pub clock : Clock W
  pub euc_kr : EucKr

pub record Response : Type 0 where
  pub code : ℕ
  pub body : ApiResponse

-- `StatusCode`
abbrev pub accepted : ℕ
accepted = 202

abbrev pub conflict : ℕ
conflict = 409

abbrev pub unprocessable_entity : ℕ
unprocessable_entity = 422

abbrev pub internal_server_error : ℕ
internal_server_error = 500

abbrev pub service_unavailable : ℕ
service_unavailable = 503

abbrev pub respond : ℕ → Text → Text → Response
respond code status message = record {
  code = code;
  body = record { status = status; message = message };
}

-- A byte of an event's id.
unfoldable pub is_id_byte : ℕ → Bool
unfolding is_ascii_alphanumeric
is_id_byte b = is_ascii_alphanumeric b || b == b'-' || b == b'_'

module _ {Json : Type 0} where
  unfoldable pub validate_event : IncomingEvent Json → Option Response
  unfolding is_id_byte
  validate_event event =
      if is_empty event.id || ltb 128 (byte_len event.id)
      then some (respond unprocessable_entity (codes "error") (codes "id must be 1–128 characters"))
      else if not (all is_id_byte (as_bytes event.id))
      then some (
          respond unprocessable_entity (codes "error")
            (codes "id contains invalid characters (allowed: a-z A-Z 0-9 - _)"))
      else if is_empty event.event_type || ltb 64 (byte_len event.event_type)
      then some (
          respond unprocessable_entity (codes "error") (codes "event_type must be 1–64 characters"))
      else none

  -- Step 2: the message for the queue, received at `now_ms`.
  unfoldable pub to_message : IncomingEvent Json → ℕ → QueueMessage Json
  to_message event now_ms = record {
    id = event.id;
    event_type = event.event_type;
    payload = event.payload;
    timestamp = unwrap_or event.timestamp now_ms;
    received_at = now_ms;
    table_key = none;
  }

  -- Step 3: the response to the result of publishing.
  unfoldable pub published : IncomingEvent Json → Result (Unit {0}) → Response
  published event (err e) =
      respond internal_server_error (codes "error") (codes "failed to enqueue event")
  published event (ok u) =
      respond accepted (codes "accepted") (codes "event " ++ (event.id ++ codes " queued"))

module _ {W C Json : Type 0} (state : AppState W C Json) where
  -- Steps 2 and 3, of a new event.
  unfoldable pub enqueue : IncomingEvent Json → Option ℕ → W → Option Response × W
  enqueue event none w = (none, w)
  enqueue event (some now) w =
      let (r, w') =
        publish state.amqp state.json state.producer (to_message event (as_i64 now)) w in
      (some (published event r), w')

  -- What follows the duplicate check.
  unfoldable pub after_dedup : IncomingEvent Json → Result Bool × W → Option Response × W
  after_dedup event (err e, w) =
      (some (respond service_unavailable (codes "error") (codes "dedup service unavailable")), w)
  after_dedup event (ok false, w) = (
    some (
        respond conflict (codes "duplicate")
          (codes "event " ++ (event.id ++ codes " already processed"))),
    w,
  )
  after_dedup event (ok true, w) = enqueue event (state.clock.since_epoch w) w

  unfoldable pub handle_event : IncomingEvent Json → W → Option Response × W
  handle_event event w = elim (validate_event event) [
    | some e ↦ (some e, w)
    | none ↦ after_dedup event (is_new state.redis state.dedup event.id w)
  ]
