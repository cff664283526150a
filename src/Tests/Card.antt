-- ===== src/Tests/Card.antt =====
-- The row of a card payment in the daily totals and that for MySQL, from its bytes.
use realtime_ingestion.Base.{
  ℕ, ◌≡◌, ◌≤◌, true, false, all, is_empty, refl, some, ◌++◌, Bytes, replicate,
}
use realtime_ingestion.Text.{
  codes, is_ascii_alphanumeric, trim, trim_start, trim_end, is_whitespace, byte_len, as_bytes,
  utf8_char, slice, split_at, parse_unsigned, digits_to, text_eq,
}
use realtime_ingestion.Models.{QueueMessage}
use realtime_ingestion.External.{ok, EucKr, Clock, entry}
use realtime_ingestion.Consumer.{parse_amount}
use realtime_ingestion.Parser.{field, payload_fields, parse_frame}
use realtime_ingestion.Mysql.Row.{KiccRow, format_datetime, resolve_table, kicc_row, to_kicc_row}
use realtime_ingestion.Mysql.Row.Card.{card_row, to_kicc_row-parse_frame}
use realtime_ingestion.Postgres.Row.{
  DailyRow, hour_of, at_hour, parse_datetime_unix, daily_row, dated, to_daily_row,
}
use realtime_ingestion.Postgres.Row.Card.{daily_row-parse_frame}
use realtime_ingestion.Postgres.Row.Bucket.{bucket, charge}
use realtime_ingestion.Postgres.Totals.{key_of}
use realtime_ingestion.Postgres.Totals.Sums.{Column, value}
use realtime_ingestion.Tests.Codec.{Fields, json, json-JsonLaws, encode}
use realtime_ingestion.Tests.Postgres.{chrono}

abbrev euc_kr : EucKr
euc_kr = record { decode = λ b. b; decode_ascii = λ b h. refl }

abbrev clock : Clock ℕ
clock = record { since_epoch = λ w. some w }

abbrev blanks : ℕ → Bytes
blanks n = replicate n 32

abbrev frame : Bytes
frame =
    codes
      "MERCHANT0200TRAN0000000100TERM00100000000100012345678901234561234567890202401312359592024"
    ++ codes "01311001"
    ++ blanks 14
    ++ codes "001"
    ++ blanks 14
    ++ codes "MERCHANTNO000112345678900"

abbrev message : QueueMessage Fields
message = record {
  id = field euc_kr frame 12 12;
  event_type = codes "card_tx_" ++ field euc_kr frame 8 4;
  payload = payload_fields euc_kr frame;
  timestamp = 7;
  received_at = 7;
  table_key = some (field euc_kr frame 142 10);
}

parsed : parse_frame euc_kr clock json frame 7 ≡ ok message
unfolding parse_frame
parsed = refl

abbrev row : DailyRow
row = daily_row chrono json message (field euc_kr frame 142 10) 82_800

message_row : to_daily_row chrono json message ≡ some (some row)
unfolding to_daily_row dated parse_datetime_unix at_hour hour_of slice split_at parse_unsigned
    digits_to trim trim_start trim_end is_whitespace byte_len as_bytes utf8_char entry text_eq field
    payload_fields
message_row = refl

daily_row-parse_frame_example :
    (json.from_slice (encode message) ≡ ok message)
    × (parse_datetime_unix chrono (trim (field euc_kr frame 71 8)) (trim (field euc_kr frame 79 6))
        ≡ some (some row.ts_unix))
    × (key_of row ≡ record {
      ts = row.ts_unix;
      bid = field euc_kr frame 142 10;
      mid = trim (field euc_kr frame 128 14);
      psn = trim (field euc_kr frame 26 7);
    })
    × ((c : Column)
        → value c row
          ≡ charge
              (bucket (trim (field euc_kr frame 152 1)) (trim (field euc_kr frame 8 4)))
              (parse_amount (field euc_kr frame 35 10))
              c)
daily_row-parse_frame_example =
    daily_row-parse_frame chrono euc_kr clock json json-JsonLaws frame (encode message) 7 message
      row parsed refl message_row

abbrev kicc : KiccRow
kicc = kicc_row json message (codes "kicc_b1234567890") (codes "2024-01-31 23:59:59")

message_kicc : to_kicc_row json message ≡ some (some kicc)
unfolding to_kicc_row resolve_table format_datetime is_ascii_alphanumeric trim trim_start trim_end
    is_whitespace slice split_at byte_len as_bytes utf8_char entry text_eq field payload_fields
message_kicc = refl

to_kicc_row-parse_frame_example :
    (json.from_slice (encode message) ≡ ok message)
    × (kicc ≡ card_row euc_kr frame kicc.table kicc.kicc_datetime)
    × (kicc.table ≡ codes "kicc_b" ++ trim (field euc_kr frame 142 10))
    × (all is_ascii_alphanumeric (trim (field euc_kr frame 142 10)) ≡ true)
    × (is_empty (trim (field euc_kr frame 142 10)) ≡ false)
    × (byte_len (trim (field euc_kr frame 142 10)) ≤ 20)
    × (format_datetime (trim (field euc_kr frame 71 8)) (trim (field euc_kr frame 79 6))
        ≡ some kicc.kicc_datetime)
to_kicc_row-parse_frame_example =
    to_kicc_row-parse_frame euc_kr clock json json-JsonLaws frame (encode message) 7 message kicc
      parsed refl message_kicc
