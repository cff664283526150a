-- ===== src/Postgres/Row.antt =====
-- `DailyRow`, `parse_datetime_unix` and `to_daily_row` of src/consumer/postgres.rs. An `Option`
-- around a result is the panic of a byte index inside a character.
pub mod Returns
pub mod Bucket
pub mod Card
use realtime_ingestion.Base.{
  ℕ, ◌-◌, ◌*◌, ◌^◌, Bool, ◌&&◌, not, Option, none, some, leb, ◌==◌, if◌then◌else◌, is_empty, ◌>>=◌,
  [],
}
use realtime_ingestion.Text.{Text, codes, trim, byte_len, slice, text_eq, parse_unsigned}
use realtime_ingestion.Models.{QueueMessage}
use realtime_ingestion.External.{JsonLib}
use realtime_ingestion.Consumer.{str_or, parse_amount}

-- An `i64` and an `i32` are the numbers of their two's complement patterns.
pub record DailyRow : Type 0 where
  pub ts_unix : ℕ
  pub kicc_bid : Text
  pub kicc_mid : Text
  pub kicc_psn : Text
  pub card_amount : ℕ
  pub card_count : ℕ
  pub cash_amount : ℕ
  pub cash_count : ℕ
  pub cancel_amount : ℕ
  pub cancel_count : ℕ
  pub other_amount : ℕ
  pub other_count : ℕ

-- What the code takes from chrono: `NaiveDate::parse_from_str`, `NaiveTime::from_hms_opt`,
-- `FixedOffset::east_opt`, and `from_local_datetime(..).earliest()` with its `timestamp`.
pub record Chrono (Date Time Offset : Type 0) : Type 0 where
  pub parse_from_str : Text → Text → Option Date
  pub from_hms_opt : ℕ → ℕ → ℕ → Option Time
  pub east_opt : ℕ → Option Offset
  pub earliest : Offset → Date → Time → Option ℕ

-- `t[..2].parse()`, or 0 for less than two bytes.
unfoldable pub hour_of : Text → Option (Option ℕ)
hour_of t =
    if leb 2 (byte_len t)
    then (slice t 0 2 >>= λ digits. some (parse_unsigned (2 ^ 32 - 1) digits))
    else some (some 0)

module _ {Date Time Offset : Type 0} (chrono : Chrono Date Time Offset) where
  -- Behind the hour.
  unfoldable pub at_hour : Date → Option (Option ℕ) → Option (Option ℕ)
  at_hour date none = none
  at_hour date (some none) = some none
  at_hour date (some (some hour)) = some (do
    time ← chrono.from_hms_opt hour 0 0
    kst ← chrono.east_opt (9 * 3600)
    chrono.earliest kst date time)

  unfoldable pub parse_datetime_unix : Text → Text → Option (Option ℕ)
  parse_datetime_unix approval_date approval_time =
      elim (chrono.parse_from_str (trim approval_date) (codes "%Y%m%d")) [
        | none ↦ some none
        | some date ↦ at_hour date (hour_of (trim approval_time))
      ]

  module _ {Json : Type 0} (json : JsonLib Json) where
    abbrev text : Json → Text → Text
    text p key = trim (str_or json p key [])

    abbrev empty_row : QueueMessage Json → Text → ℕ → DailyRow
    empty_row msg bid ts_unix = record {
      ts_unix = ts_unix;
      kicc_bid = bid;
      kicc_mid = text msg.payload (codes "merchant_no");
      kicc_psn = text msg.payload (codes "terminal_no");
      card_amount = 0;
      card_count = 0;
      cash_amount = 0;
      cash_count = 0;
      cancel_amount = 0;
      cancel_count = 0;
      other_amount = 0;
      other_count = 0;
    }

    abbrev is_cancel : QueueMessage Json → Bool
    is_cancel msg =
        let cancel_flag = text msg.payload (codes "cancel_flag") in
        not (is_empty cancel_flag) && not (text_eq cancel_flag (codes "0"))

    -- The row behind its key fields: one of the buckets gets the amount.
    unfoldable pub daily_row : QueueMessage Json → Text → ℕ → DailyRow
    daily_row msg bid ts_unix =
        let amount = parse_amount (str_or json msg.payload (codes "amount") (codes "0")) in
        let row = empty_row msg bid ts_unix in
        if is_cancel msg
        then record row { cancel_amount = amount; cancel_count = 1 }
        else if text_eq (text msg.payload (codes "msg_type")) (codes "0200")
        then record row { card_amount = amount; card_count = 1 }
        else record row { other_amount = amount; other_count = 1 }

    unfoldable pub dated : QueueMessage Json → Text → Option (Option DailyRow)
    dated msg bid =
        let approval_date = text msg.payload (codes "approval_date") in
        if not (byte_len approval_date == 8) then some none else (do
          ts ← parse_datetime_unix approval_date (text msg.payload (codes "approval_time"))
          some (ts >>= λ ts_unix. some (daily_row msg bid ts_unix)))

    unfoldable pub to_daily_row : QueueMessage Json → Option (Option DailyRow)
    to_daily_row msg = elim msg.table_key [
      | none ↦ some none
      | some bid ↦ if is_empty bid then some none else dated msg bid
    ]
