-- ===== src/Tests/Postgres.antt =====
-- The PostgreSQL consumer at concrete inputs, with a calendar of one hour a time. A delivery is its
-- body.
use realtime_ingestion.Base.{
  ℕ, ◌*◌, ◌≡◌, ◌≢◌, ◌<◌, refl, none, some, List, [], ◌∷◌, Bytes, All, ltb, if◌then◌else◌, arith,
  ◌++◌,
}
use mathlib.Core.List.Permᴰ
use realtime_ingestion.Text.{
  Text, codes, trim, trim_start, trim_end, is_whitespace, byte_len, as_bytes, utf8_char, slice,
  split_at, parse_unsigned, digits_to, text_eq,
}
use realtime_ingestion.Models.{QueueMessage}
use realtime_ingestion.External.{err, amqp_error, entry}
use realtime_ingestion.Consumer.{Channel, HashOrder, Event, delivered, tick}
use realtime_ingestion.Consumer.Broker.{BrokerLaws}
use realtime_ingestion.Postgres.Row.{
  DailyRow, Chrono, hour_of, at_hour, parse_datetime_unix, daily_row, dated, to_daily_row,
}
use realtime_ingestion.Postgres.Row.Bucket.{HoldsOne, to_daily_row-HoldsOne}
use realtime_ingestion.Postgres.Totals.{AggKey}
use realtime_ingestion.Postgres.Batch.{PgPool, Batch, run}
use realtime_ingestion.Postgres.Batch.Settle.{SettleLaws}
use realtime_ingestion.Tests.Codec.{Fields, encode, json, read_back}
use realtime_ingestion.Postgres.Row.Returns.{HasAsciiTime}
use realtime_ingestion.Postgres.Batch.Quiet.{IsQuiet, AllSettled, run-settles_all}

abbrev pub chrono : Chrono Text ℕ ℕ
chrono = record {
  parse_from_str = λ t format. some t;
  from_hms_opt = λ h m s. if ltb h 24 then some h else none;
  east_opt = λ seconds. some seconds;
  earliest = λ offset date hour. some (hour * 3600);
}

abbrev pub message : QueueMessage Fields
message = record {
  id = codes "1";
  event_type = codes "card_tx_0200";
  payload =
      (codes "amount", codes "0000001000")
      ∷ (codes "msg_type", codes "0200")
      ∷ (codes "approval_date", codes "20240131")
      ∷ (codes "approval_time", codes "235959")
      ∷ [];
  timestamp = 0;
  received_at = 0;
  table_key = some (codes "1234567890");
}

abbrev row : DailyRow
row = daily_row chrono json message (codes "1234567890") 82_800

message_row : to_daily_row chrono json message ≡ some (some row)
unfolding to_daily_row dated parse_datetime_unix at_hour hour_of slice split_at parse_unsigned
    digits_to trim trim_start trim_end is_whitespace byte_len as_bytes utf8_char entry text_eq
message_row = refl

to_daily_row-HoldsOne_example :
    (message.table_key ≡ some row.kicc_bid) × (row.kicc_bid ≢ []) × HoldsOne chrono json message row
to_daily_row-HoldsOne_example = to_daily_row-HoldsOne chrono json message row message_row

-- The world is the settled deliveries, and the database is down.
abbrev pub channel : Channel (List Bytes) Bytes
channel = record { payload = λ d. d; ack = λ d w. d ∷ w; nack = λ d w. d ∷ w; notify = λ t w. w }

abbrev pub pool : PgPool (List Bytes)
pool = record { execute = λ rows w. (err amqp_error, w); error_code = λ e. codes "query_error" }

abbrev pub order : HashOrder (AggKey × DailyRow)
order = record { into_iter = λ xs. xs; each_once = λ xs. Permᴰ.refl xs }

abbrev pub broker : BrokerLaws channel
broker = record { settled = λ w. w; ack = λ d w. refl; nack = λ d w. refl; notify = λ t w. refl }

abbrev pub laws : SettleLaws channel pool
laws = record { broker = broker; execute = λ rows w. refl }

time-IsAscii : All (λ c. c < 128) (codes "235959")
time-IsAscii = ground arith

abbrev empty : Batch (List Bytes) Bytes Fields
empty = record { deliveries = []; messages = []; world = [] }

abbrev pub quiet : List (Event Bytes)
quiet = delivered (encode message) ∷ tick ∷ delivered (encode message) ∷ []

message-HasAsciiTime : HasAsciiTime chrono json message
unfolding entry text_eq
message-HasAsciiTime = time-IsAscii

quiet-IsQuiet : All (IsQuiet json chrono channel) quiet
quiet-IsQuiet =
    let readable = read_back (HasAsciiTime chrono json) message message-HasAsciiTime in
    (readable, (tt, (readable, tt)))

run-settles_all_example :
    AllSettled json chrono channel pool order laws
      (encode message ∷ encode message ∷ [])
      empty
      (run json chrono channel pool order 2 (quiet ++ tick ∷ []) empty)
run-settles_all_example =
    run-settles_all json chrono channel pool order laws 2 quiet empty (omega arith)
      (record { paired = refl; short = omega arith; readable = tt }) quiet-IsQuiet
