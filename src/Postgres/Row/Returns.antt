-- ===== src/Postgres/Row/Returns.antt =====
-- When `to_daily_row` of src/consumer/postgres.rs does not panic.
use realtime_ingestion.Base.{
  Returns, ℕ, ◌≤◌, ◌≡◌, refl, ap, ◌∙◌, true, Option, none, some, [], leb, ◌==◌, is_empty, length,
  inl, inr, Bool-cases, Option-cases, arith,
}
use realtime_ingestion.Text.{Text, codes, trim, byte_len}
use realtime_ingestion.Text.Ascii.{IsAscii, trim-IsAscii}
use realtime_ingestion.Text.Laws.{byte_len-as_bytes, as_bytes_ascii, slice_ascii}
use realtime_ingestion.Models.{QueueMessage}
use realtime_ingestion.External.{JsonLib}
use realtime_ingestion.Consumer.{str_or}
use realtime_ingestion.Postgres.Row.{
  Chrono, hour_of, at_hour, parse_datetime_unix, dated, to_daily_row,
}

two : (t : Text) → IsAscii t → leb 2 (byte_len t) ≡ true → 2 ≤ length t
two t h long = ground (arith, byte_len-as_bytes t ∙ ap length (as_bytes_ascii t h))

hour_of-Returns : (t : Text) → IsAscii t → Returns (hour_of t)
unfolding hour_of
hour_of-Returns t h = elim (Bool-cases (leb 2 (byte_len t))) [
  | inl long ↦ rw (long, slice_ascii t 0 2 h (omega arith) (two t h long)) (_, refl)
  | inr short ↦ rw short (some 0, refl)
]

module _ {Date Time Offset Json : Type 0} (chrono : Chrono Date Time Offset)
    (json : JsonLib Json) where
  -- The approval time of a message is ASCII.
  abbrev pub HasAsciiTime : QueueMessage Json → Type 0
  HasAsciiTime msg = IsAscii (str_or json msg.payload (codes "approval_time") [])

  at_hour-Returns :
      (date : Date) (o : Option (Option ℕ)) → Returns o → Returns (at_hour chrono date o)
  unfolding at_hour
  at_hour-Returns date none (h, e) = absurd (ground arith)
  at_hour-Returns date (some none) r = (none, refl)
  at_hour-Returns date (some (some hour)) r = (_, refl)

  parse_datetime_unix-Returns :
      (date time : Text) → IsAscii time → Returns (parse_datetime_unix chrono date time)
  unfolding parse_datetime_unix
  parse_datetime_unix-Returns date time h =
      elim (Option-cases (chrono.parse_from_str (trim date) (codes "%Y%m%d"))) [
        | inl bad ↦ rw (bad, parse_datetime_unix) (none, refl)
        | inr (d, good) ↦
            rw (good, parse_datetime_unix)
              (at_hour-Returns d (hour_of (trim time))
                (hour_of-Returns (trim time) (trim-IsAscii time h)))
      ]

  dated-Returns :
      (msg : QueueMessage Json) (bid : Text)
      → HasAsciiTime msg
      → Returns (dated chrono json msg bid)
  unfolding dated
  dated-Returns msg bid h =
      let date = trim (str_or json msg.payload (codes "approval_date") []) in
      let time = trim (str_or json msg.payload (codes "approval_time") []) in
      let parsed = parse_datetime_unix-Returns date time (trim-IsAscii _ h) in
      elim (Bool-cases (byte_len date == 8)) [
        | inl eight ↦ rw (eight, parsed.1) (_, refl)
        | inr other ↦ rw other (none, refl)
      ]

  pub to_daily_row-Returns :
      (msg : QueueMessage Json) → HasAsciiTime msg → Returns (to_daily_row chrono json msg)
  unfolding to_daily_row
  to_daily_row-Returns msg h = elim (Option-cases msg.table_key) [
    | inl absent ↦ rw (absent, to_daily_row) (none, refl)
    | inr (bid, there) ↦ elim (Bool-cases (is_empty bid)) [
      | inl empty ↦ rw (there, empty, to_daily_row) (none, refl)
      | inr filled ↦ rw (there, filled, to_daily_row) (dated-Returns msg bid h)
    ]
  ]
