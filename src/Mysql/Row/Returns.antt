-- ===== src/Mysql/Row/Returns.antt =====
-- When `to_kicc_row` of src/consumer/mysql.rs does not panic.
use realtime_ingestion.Base.{
  ◌≡◌, refl, ap, ◌∙◌, ◌&&◌, none, [], ◌==◌, Returns, length, inl, inr, Bool-cases, Option-cases,
  arith,
}
use realtime_ingestion.Text.{Text, codes, byte_len}
use realtime_ingestion.Text.Ascii.{IsAscii, trim-IsAscii}
use realtime_ingestion.Text.Laws.{byte_len-as_bytes, as_bytes_ascii}
use realtime_ingestion.Models.{QueueMessage}
use realtime_ingestion.External.{JsonLib}
use realtime_ingestion.Consumer.{str_or}
use realtime_ingestion.Mysql.Row.{format_datetime, resolve_table, to_kicc_row}
use realtime_ingestion.Mysql.Row.Table.{dashed, format_datetime_ascii}

format_datetime-Returns :
    (date time : Text) → IsAscii date → IsAscii time → Returns (format_datetime date time)
format_datetime-Returns date time d t =
    elim (Bool-cases (byte_len date == 8 && byte_len time == 6)) [
      | inl both ↦ (
        dashed date time,
        format_datetime_ascii date time d t (ground (arith, ascii_len date d))
            (ground (arith, ascii_len time t)),
      )
      | inr other ↦ ([], unfold format_datetime in rw other refl)
    ]
  where
    ascii_len : (s : Text) → IsAscii s → byte_len s ≡ length s
    ascii_len s h = byte_len-as_bytes s ∙ ap length (as_bytes_ascii s h)

module _ {Json : Type 0} (json : JsonLib Json) where
  -- The approval date and time of a message are ASCII.
  abbrev pub HasAsciiTimes : QueueMessage Json → Type 0
  HasAsciiTimes msg =
      IsAscii (str_or json msg.payload (codes "approval_date") [])
      × IsAscii (str_or json msg.payload (codes "approval_time") [])

  pub to_kicc_row-Returns :
      (msg : QueueMessage Json) → HasAsciiTimes msg → Returns (to_kicc_row json msg)
  unfolding to_kicc_row
  to_kicc_row-Returns msg (d, t) = elim (Option-cases (resolve_table msg.table_key)) [
    | inl unroutable ↦ rw (unroutable, to_kicc_row) (none, refl)
    | inr (table, there) ↦
        let (datetime, made) = format_datetime-Returns _ _ (trim-IsAscii _ d) (trim-IsAscii _ t) in
        rw (there, to_kicc_row, made) (_, refl)
  ]
