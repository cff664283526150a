-- ===== src/Postgres/Row/Bucket.antt =====
-- What a row of src/consumer/postgres.rs adds to the totals.
use mathlib.Core.Bool.{false≢true}
use realtime_ingestion.Base.{
  sym, ap, ◌∙◌, subst, ◌&&◌, not, if◌then◌else◌, ℕ, ◌≡◌, ◌≢◌, refl, false, Option, none, some, [],
  ◌==◌, is_empty, inl, inr, Bool-cases, arith, ◌>>=◌,
}
use realtime_ingestion.Text.{Text, codes, trim, byte_len, text_eq}
use realtime_ingestion.Models.{QueueMessage}
use realtime_ingestion.External.{JsonLib}
use realtime_ingestion.Consumer.{str_or, parse_amount}
use realtime_ingestion.Postgres.Row.{
  DailyRow, Chrono, parse_datetime_unix, daily_row, dated, to_daily_row,
}
use realtime_ingestion.Postgres.Totals.{AggKey, key_of}
use realtime_ingestion.Postgres.Totals.Sums.{Column, value}

pub data Bucket : Type 0 where
  card cancel other : Bucket

-- The bucket of a payment, by its cancel flag and its type.
abbrev pub bucket : Text → Text → Bucket
bucket cancel_flag msg_type =
    if not (is_empty cancel_flag) && not (text_eq cancel_flag (codes "0"))
    then cancel
    else if text_eq msg_type (codes "0200")
    then card
    else other

-- What a payment brings to each column.
abbrev pub charge : Bucket → ℕ → Column → ℕ
charge card amount Column.card_amount = amount
charge card amount Column.card_count = 1
charge cancel amount Column.cancel_amount = amount
charge cancel amount Column.cancel_count = 1
charge other amount Column.other_amount = amount
charge other amount Column.other_count = 1
charge _ amount _ = 0

module _ {Date Time Offset Json : Type 0} (chrono : Chrono Date Time Offset)
    (json : JsonLib Json) where
  abbrev text : QueueMessage Json → Text → Text
  text m key = trim (str_or json m.payload key [])

  pub daily_row-charge :
      (m : QueueMessage Json) (bid : Text) (ts : ℕ) (c : Column)
      → value c (daily_row chrono json m bid ts)
        ≡ charge
            (bucket (text m (codes "cancel_flag")) (text m (codes "msg_type")))
            (parse_amount (str_or json m.payload (codes "amount") (codes "0")))
            c
  unfolding daily_row
  daily_row-charge m bid ts Column.card_amount = ground arith
  daily_row-charge m bid ts Column.card_count = ground arith
  daily_row-charge m bid ts Column.cash_amount = ground arith
  daily_row-charge m bid ts Column.cash_count = ground arith
  daily_row-charge m bid ts Column.cancel_amount = ground arith
  daily_row-charge m bid ts Column.cancel_count = ground arith
  daily_row-charge m bid ts Column.other_amount = ground arith
  daily_row-charge m bid ts Column.other_count = ground arith

  pub daily_row-key :
      (m : QueueMessage Json) (bid : Text) (ts : ℕ)
      → key_of (daily_row chrono json m bid ts) ≡ record {
        ts = ts;
        bid = bid;
        mid = text m (codes "merchant_no");
        psn = text m (codes "terminal_no");
      }
  unfolding daily_row
  daily_row-key m bid ts = ground arith

  at_time :
      (msg : QueueMessage Json) (bid : Text) (row : DailyRow) (o : Option (Option ℕ))
      → (o >>= λ ts. some (ts >>= λ ts_unix. some (daily_row chrono json msg bid ts_unix)))
        ≡ some (some row)
      → (ts : ℕ) × (o ≡ some (some ts)) × (row ≡ daily_row chrono json msg bid ts)
  at_time msg bid row none e = absurd (ground (arith, e))
  at_time msg bid row (some none) e = absurd (ground (arith, e))
  at_time msg bid row (some (some ts)) e = (ts, refl, ground (arith, e))

  -- The date and the time of a message, in seconds since 1970.
  abbrev pub time_of : QueueMessage Json → Option (Option ℕ)
  time_of msg =
      parse_datetime_unix chrono (trim (str_or json msg.payload (codes "approval_date") []))
        (trim (str_or json msg.payload (codes "approval_time") []))

  dated-row :
      (msg : QueueMessage Json) (bid : Text) (row : DailyRow)
      → dated chrono json msg bid ≡ some (some row)
      → (ts : ℕ) × (time_of msg ≡ some (some ts)) × (row ≡ daily_row chrono json msg bid ts)
  unfolding dated
  dated-row msg bid row e =
      elim (Bool-cases
        (byte_len (trim (str_or json msg.payload (codes "approval_date") [])) == 8)) [
          | inl eight ↦ at_time msg bid row (time_of msg) (rw eight at e)
          | inr not_eight ↦ absurd (ground (arith, rw not_eight at e))
        ]

  -- A row comes from a table key, and a date and a time.
  pub keyed-row :
      (msg : QueueMessage Json) (key : Option Text) (row : DailyRow)
      → msg.table_key ≡ key
      → to_daily_row chrono json msg ≡ some (some row)
      → (bid : Text) × (ts : ℕ) × (key ≡ some bid)
        × (is_empty bid ≡ false)
        × (time_of msg ≡ some (some ts))
        × (row ≡ daily_row chrono json msg bid ts)
  unfolding to_daily_row
  keyed-row msg none row k e = absurd (ground (arith, rw (k, to_daily_row) at e))
  keyed-row msg (some bid) row k e = elim (Bool-cases (is_empty bid)) [
    | inl empty ↦ absurd (ground (arith, rw (k, empty, to_daily_row) at e))
    | inr filled ↦
        let (ts, t, r) = dated-row msg bid row (rw (k, filled, to_daily_row) at e) in
        (bid, ts, refl, filled, t, r)
  ]

  -- The time, the merchant and the terminal are those of the message, and its columns have what the message brings.
  abbrev pub HoldsOne : QueueMessage Json → DailyRow → Type 0
  HoldsOne msg row =
      (time_of msg ≡ some (some row.ts_unix))
      × (row.kicc_mid ≡ text msg (codes "merchant_no"))
      × (row.kicc_psn ≡ text msg (codes "terminal_no"))
      × ((c : Column)
          → value c row
            ≡ charge (bucket (text msg (codes "cancel_flag")) (text msg (codes "msg_type")))
                (parse_amount (str_or json msg.payload (codes "amount") (codes "0"))) c)

  daily_row-HoldsOne :
      (msg : QueueMessage Json) (bid : Text) (ts : ℕ)
      → time_of msg ≡ some (some ts)
      → HoldsOne msg (daily_row chrono json msg bid ts)
        × ((daily_row chrono json msg bid ts).kicc_bid ≡ bid)
  unfolding daily_row
  daily_row-HoldsOne msg bid ts t =
      let key = daily_row-key msg bid ts in
      (
        (
          t ∙ ap (λ (k : AggKey). some (some k.ts)) (sym key),
          ap (λ (k : AggKey). k.mid) key,
          ap (λ (k : AggKey). k.psn) key,
          daily_row-charge msg bid ts,
        ),
        ap (λ (k : AggKey). k.bid) key,
      )

  -- A row comes only from a message with a table key that is not empty, which it carries. Its time
  -- is the hour of the approval's date and time, its merchant and its terminal are those of the
  -- message, and its columns have the amount of the message and a count of one in the bucket of the
  -- message's cancel flag and type, and nothing elsewhere.
  pub to_daily_row-HoldsOne :
      (msg : QueueMessage Json) (row : DailyRow)
      → to_daily_row chrono json msg ≡ some (some row)
      → (msg.table_key ≡ some row.kicc_bid) × (row.kicc_bid ≢ []) × HoldsOne msg row
  to_daily_row-HoldsOne msg row e =
      let (bid, ts, k, filled, t, r) = keyed-row msg msg.table_key row refl e in
      let (one, own) = daily_row-HoldsOne msg bid ts t in
      subst
        (λ (d : DailyRow). (msg.table_key ≡ some d.kicc_bid) × (d.kicc_bid ≢ []) × HoldsOne msg d)
        (sym r)
        (
          k ∙ ap some (sym own),
          λ empty. absurd (false≢true (sym filled ∙ ap is_empty (sym own ∙ empty))),
          one,
        )
