-- ===== src/Tests/Consumer.antt =====
-- The MySQL consumer at concrete inputs. A delivery is its body.
use realtime_ingestion.Base.{
  ◌<◌, ℕ, ◌*◌, ◌<◌, ◌≤◌, ◌≡◌, ◌↔◌, refl, some, List, [], ◌∷◌, Bytes, All, length, arith, ◌++◌,
}
use mathlib.Core.List.Permᴰ
use realtime_ingestion.Text.{Text, codes, trim, text_eq}
use realtime_ingestion.Models.{QueueMessage}
use realtime_ingestion.External.{Result, ok, err, amqp_error, entry}
use realtime_ingestion.Consumer.{Channel, prefetch_count, HashOrder, Event, delivered, tick, closed}
use realtime_ingestion.Consumer.Broker.{BrokerLaws}
use realtime_ingestion.Consumer.Amount.{prefetch_count_covers}
use realtime_ingestion.Mysql.Row.{KiccRow, resolve_table}
use realtime_ingestion.Mysql.Row.Table.{IsTableKey, resolve_table_iff}
use realtime_ingestion.Mysql.Batch.{MySqlPool, Batch, run}
use realtime_ingestion.Mysql.Batch.Settle.{SettleLaws}
use realtime_ingestion.Mysql.Batch.Loop.{Ran, run-Ran}
use realtime_ingestion.Tests.Codec.{Fields, encode, json, read_back}
use realtime_ingestion.Mysql.Row.Returns.{HasAsciiTimes}
use realtime_ingestion.Mysql.Batch.Quiet.{IsQuiet, AllSettled, run-AllSettled}

-- The world is the settled deliveries; the database refuses one table,
-- `kicc_b`.
abbrev pub channel : Channel (List Bytes) Bytes
channel = record { payload = λ d. d; ack = λ d w. d ∷ w; nack = λ d w. d ∷ w; notify = λ t w. w }

abbrev pub insert_into : Text → ℕ → Result ℕ
insert_into (_ ∷ _ ∷ _ ∷ _ ∷ _ ∷ _ ∷ []) n = err amqp_error
insert_into _ n = ok n

abbrev pub pool : MySqlPool (List Bytes)
pool = record {
  execute = λ table rows w. (insert_into table (length rows), w);
  error_code = λ e. codes "query_error";
}

abbrev pub order : HashOrder (Text × List (Bytes × KiccRow))
order = record { into_iter = λ xs. xs; each_once = λ xs. Permᴰ.refl xs }

abbrev pub broker : BrokerLaws channel
broker = record { settled = λ w. w; ack = λ d w. refl; nack = λ d w. refl; notify = λ t w. refl }

abbrev pub laws : SettleLaws channel pool
laws = record { broker = broker; execute = λ t rows w. refl }

abbrev pub message : Text → QueueMessage Fields
message key = record {
  id = codes "1";
  event_type = codes "card_tx_0200";
  payload = (codes "amount", codes "0000001000") ∷ [];
  timestamp = 0;
  received_at = 0;
  table_key = some key;
}

abbrev pub events : List (Event Bytes)
events =
    delivered (encode (message (codes "123")))
    ∷ delivered (encode (message (codes "bad-key")))
    ∷ delivered []
    ∷ tick
    ∷ closed
    ∷ []

abbrev empty : Batch (List Bytes) Bytes
empty = record { deliveries = []; rows = []; world = [] }

run-Ran_example :
    Ran json channel pool order laws 2 events empty (run json channel pool order 2 events empty)
run-Ran_example =
    run-Ran json channel pool order laws 2 events empty (omega arith)
      (record { paired = refl; short = omega arith })

abbrev row : Text → KiccRow
row table = record {
  table = table;
  kicc_bid = [];
  kicc_tid = [];
  kicc_mid = [];
  kicc_psn = [];
  kicc_nick = [];
  kicc_trantype = [];
  kicc_cardnumber = [];
  kicc_amount = 0;
  kicc_rescode = [];
  kicc_trno = [];
  kicc_acquirer = [];
  kicc_approve = [];
  kicc_date = [];
  kicc_datetime = [];
}

abbrev two : List Bytes
two = codes "a" ∷ codes "b" ∷ []

abbrev two_rows : List KiccRow
two_rows = row (codes "kicc_b1") ∷ row (codes "kicc_b") ∷ []

resolve_table_iff_example : (resolve_table (some (codes " 123 ")) ≡ some (codes "kicc_b123")) ↔ (
    (k : Text) × (some (codes " 123 ") ≡ some k)
    × (codes "kicc_b123" ≡ codes "kicc_b" ++ trim k)
    × IsTableKey (trim k))
resolve_table_iff_example = resolve_table_iff (some (codes " 123 ")) (codes "kicc_b123")

date-ascii : All (λ c. c < 128) (codes "20240131")
date-ascii = ground arith

time-ascii : All (λ c. c < 128) (codes "235959")
time-ascii = ground arith

prefetch_count_covers_example :
    (40_000 < 32768 → 2 * 40_000 ≤ prefetch_count 40_000)
    × (32768 ≤ 40_000 → prefetch_count 40_000 < 40_000)
prefetch_count_covers_example = prefetch_count_covers 40_000 (omega arith)

abbrev pub quiet : List (Event Bytes)
quiet =
    delivered (encode (message (codes "123")))
    ∷ tick
    ∷ delivered (encode (message (codes "bad-key")))
    ∷ []

message-HasAsciiTimes : (key : Text) → HasAsciiTimes json (message key)
unfolding entry text_eq
message-HasAsciiTimes key = (tt, tt)

quiet-IsQuiet : All (IsQuiet json channel) quiet
quiet-IsQuiet = (
  read_back (HasAsciiTimes json) (message (codes "123")) (message-HasAsciiTimes (codes "123")),
  (
    tt,
    (
      read_back (HasAsciiTimes json) (message (codes "bad-key"))
          (message-HasAsciiTimes (codes "bad-key")),
      tt,
    ),
  ),
)

run-AllSettled_example :
    AllSettled json channel pool order laws quiet empty
      (run json channel pool order 2 (quiet ++ tick ∷ []) empty)
run-AllSettled_example =
    run-AllSettled json channel pool order laws 2 quiet empty (omega arith)
      (record { paired = refl; short = omega arith }) quiet-IsQuiet
