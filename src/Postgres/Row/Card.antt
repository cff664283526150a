-- ===== src/Postgres/Row/Card.antt =====
-- From the bytes of a card payment, src/parser.rs, to the row of src/consumer/postgres.rs.
use realtime_ingestion.Base.{ℕ, ◌≡◌, refl, sym, ap, ap₂, ◌∙◌, unwrap_or, some, [], Bytes}
use realtime_ingestion.Text.{Text, codes, trim, text_eq}
use realtime_ingestion.Models.{QueueMessage}
use realtime_ingestion.External.{ok, JsonLib, JsonLaws, entry, EucKr, Clock}
use realtime_ingestion.Parser.{field, payload_fields, parse_frame}
use realtime_ingestion.Consumer.{parse_amount}
use realtime_ingestion.Consumer.Card.{parsed, read}
use realtime_ingestion.Postgres.Row.{DailyRow, Chrono, parse_datetime_unix, to_daily_row}
use realtime_ingestion.Postgres.Row.Bucket.{
  bucket, charge, daily_row-charge, daily_row-key, keyed-row,
}
use realtime_ingestion.Postgres.Totals.{AggKey, key_of}
use realtime_ingestion.Postgres.Totals.Sums.{Column, value}

module _ {Date Time Offset W Json : Type 0} (chrono : Chrono Date Time Offset) (euc_kr : EucKr)
    (clock : Clock W) (json : JsonLib Json) (laws : JsonLaws json) where
  same_key :
      {ts ts' : ℕ} {bid bid' mid mid' psn psn' : Text}
      → ts ≡ ts'
      → bid ≡ bid'
      → mid ≡ mid'
      → psn ≡ psn'
      → ◌≡◌ {A = AggKey}
          (record { ts = ts; bid = bid; mid = mid; psn = psn })
          (record { ts = ts'; bid = bid'; mid = mid'; psn = psn' })
  same_key t b m p = λ i. record { ts = t i; bid = b i; mid = m i; psn = p i }

  same_charge :
      (c : Column) {flag flag' kind kind' amount amount' : Text}
      → flag ≡ flag'
      → kind ≡ kind'
      → amount ≡ amount'
      → charge (bucket (trim flag) (trim kind)) (parse_amount amount) c
        ≡ charge (bucket (trim flag') (trim kind')) (parse_amount amount') c
  same_charge c f k a = λ i. charge (bucket (trim (f i)) (trim (k i))) (parse_amount (a i)) c

  -- The row of the message of a parsed frame, which is the message that is read from its body: its
  -- key is the business number, the merchant and the terminal that stand at their offsets in the
  -- frame, and the hour of the approval's date and time; and its columns have the amount and a count
  -- of one in the bucket of the frame's cancel flag and type, and nothing elsewhere.
  pub daily_row-parse_frame :
      (frame body : Bytes) (w : W) (m : QueueMessage Json) (row : DailyRow)
      → parse_frame euc_kr clock json frame w ≡ ok m
      → json.to_vec m ≡ ok body
      → to_daily_row chrono json m ≡ some (some row)
      → (json.from_slice body ≡ ok m)
        × (parse_datetime_unix chrono
              (trim (field euc_kr frame 71 8))
              (trim (field euc_kr frame 79 6))
            ≡ some (some row.ts_unix))
        × (key_of row ≡ record {
          ts = row.ts_unix;
          bid = field euc_kr frame 142 10;
          mid = trim (field euc_kr frame 128 14);
          psn = trim (field euc_kr frame 26 7);
        })
        × ((c : Column)
            → value c row
              ≡ charge
                  (bucket (trim (field euc_kr frame 152 1)) (trim (field euc_kr frame 8 4)))
                  (parse_amount (field euc_kr frame 35 10))
                  c)
  unfolding payload_fields entry text_eq
  daily_row-parse_frame frame body w m row e written r =
      let (p, k) = parsed euc_kr clock json laws frame w m e in
      let (bid, ts, key, filled, t, own) = keyed-row chrono json m m.table_key row refl r in
      let at = λ (name default v : Text) (q : entry name (payload_fields euc_kr frame) ≡ some v).
        read euc_kr clock json laws frame name default v m.payload p q in
      let date = at (codes "approval_date") [] (field euc_kr frame 71 8) refl in
      let time = at (codes "approval_time") [] (field euc_kr frame 79 6) refl in
      let mid = at (codes "merchant_no") [] (field euc_kr frame 128 14) refl in
      let psn = at (codes "terminal_no") [] (field euc_kr frame 26 7) refl in
      let flag = at (codes "cancel_flag") [] (field euc_kr frame 152 1) refl in
      let kind = at (codes "msg_type") [] (field euc_kr frame 8 4) refl in
      let amount = at (codes "amount") (codes "0") (field euc_kr frame 35 10) refl in
      let business : bid ≡ field euc_kr frame 142 10 = ap (λ o. unwrap_or o []) (sym key ∙ k) in
      let full = ap key_of own ∙ daily_row-key chrono json m bid ts in
      let hour : row.ts_unix ≡ ts = ap (λ (a : AggKey). a.ts) full in
      (
        laws.from_slice-to_vec m (payload_fields euc_kr frame) body p written,
        ap₂ (λ (d t : Text). parse_datetime_unix chrono (trim d) (trim t)) (sym date) (sym time)
            ∙ t
            ∙ ap (λ (n : ℕ). some (some n)) (sym hour),
        full ∙ same_key (sym hour) business (ap trim mid) (ap trim psn),
        λ c.
            ap (value c) own
            ∙ daily_row-charge chrono json m bid ts c
            ∙ same_charge c flag kind amount,
      )
