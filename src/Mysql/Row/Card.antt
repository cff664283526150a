-- ===== src/Mysql/Row/Card.antt =====
-- From the bytes of a card payment, src/parser.rs, to the row of src/consumer/mysql.rs.
use realtime_ingestion.Base.{
  ℕ, ◌≡◌, ◌≤◌, refl, sym, ap, ap₂, ◌∙◌, subst, true, false, Option, none, some, [], ◌++◌, Bytes,
  take, all, is_empty, inl, inr, Option-cases,
}
use realtime_ingestion.Text.{Text, codes, trim, text_eq, byte_len, is_ascii_alphanumeric}
use realtime_ingestion.Models.{QueueMessage}
use realtime_ingestion.External.{ok, JsonLib, JsonLaws, entry, EucKr, Clock}
use realtime_ingestion.Security.Mask.{mask_card_no}
use realtime_ingestion.Parser.{field, payload_fields, parse_frame}
use realtime_ingestion.Consumer.{str_or, parse_amount}
use realtime_ingestion.Consumer.Card.{parsed, read}
use realtime_ingestion.Mysql.Row.{KiccRow, format_datetime, resolve_table, kicc_row, to_kicc_row}
use realtime_ingestion.Mysql.Row.Table.{resolve_table_key}

-- The row that the bytes of a payment ask for, by the offsets of its fields.
abbrev pub card_row : EucKr → Bytes → Text → Text → KiccRow
card_row euc_kr frame table datetime =
    let at : ℕ → ℕ → Text = λ from len. trim (field euc_kr frame from len) in
    record {
      table = table;
      kicc_bid = field euc_kr frame 142 10;
      kicc_tid = at 12 12;
      kicc_mid = take 8 (at 128 14);
      kicc_psn = at 26 7;
      kicc_nick = at 97 14;
      kicc_trantype = take 1 (at 152 1);
      kicc_cardnumber = take 10 (trim (mask_card_no (field euc_kr frame 45 16)));
      kicc_amount = parse_amount (field euc_kr frame 35 10);
      kicc_rescode = at 24 2;
      kicc_trno = at 12 12;
      kicc_acquirer = at 114 14;
      kicc_approve = at 61 10;
      kicc_date = at 71 8 ++ at 79 6;
      kicc_datetime = datetime;
    }

module _ {Json : Type 0} (json : JsonLib Json) where
  abbrev date_of : QueueMessage Json → Option Text
  date_of m =
      format_datetime (trim (str_or json m.payload (codes "approval_date") []))
        (trim (str_or json m.payload (codes "approval_time") []))

  to_kicc_row-none :
      (m : QueueMessage Json) → resolve_table m.table_key ≡ none → to_kicc_row json m ≡ some none
  unfolding to_kicc_row
  to_kicc_row-none m h = rw (h, to_kicc_row) refl

  to_kicc_row-panics :
      (m : QueueMessage Json) (table : Text)
      → resolve_table m.table_key ≡ some table
      → date_of m ≡ none
      → to_kicc_row json m ≡ none
  unfolding to_kicc_row
  to_kicc_row-panics m table h d = rw (h, to_kicc_row, d) refl

  to_kicc_row-made :
      (m : QueueMessage Json) (table datetime : Text)
      → resolve_table m.table_key ≡ some table
      → date_of m ≡ some datetime
      → to_kicc_row json m ≡ some (some (kicc_row json m table datetime))
  unfolding to_kicc_row
  to_kicc_row-made m table datetime h d = rw (h, to_kicc_row, d) refl

  row_or : KiccRow → Option (Option KiccRow) → KiccRow
  row_or row (some (some r)) = r
  row_or row _ = row

  -- A row has a table and a date, and is the row of the message for them.
  to_kicc_row-some :
      (m : QueueMessage Json) (row : KiccRow)
      → to_kicc_row json m ≡ some (some row)
      → (resolve_table m.table_key ≡ some row.table)
        × (date_of m ≡ some row.kicc_datetime)
        × (row ≡ kicc_row json m row.table row.kicc_datetime)
  unfolding kicc_row row_or
  to_kicc_row-some m row h = elim (Option-cases (resolve_table m.table_key)) [
    | inl unroutable ↦ absurd (cc (sym (to_kicc_row-none m unroutable) ∙ h))
    | inr (table, there) ↦ elim (Option-cases (date_of m)) [
      | inl panics ↦ absurd (cc (sym (to_kicc_row-panics m table there panics) ∙ h))
      | inr (datetime, made) ↦
          subst
            (λ r.
              (resolve_table m.table_key ≡ some r.table)
              × (date_of m ≡ some r.kicc_datetime)
              × (r ≡ kicc_row json m r.table r.kicc_datetime))
            (ap (row_or row) (sym (to_kicc_row-made m table datetime there made) ∙ h))
            (there, made, refl)
    ]
  ]

module _ {W Json : Type 0} (euc_kr : EucKr) (clock : Clock W) (json : JsonLib Json)
    (laws : JsonLaws json) where
  kicc_row-parse_frame :
      (frame : Bytes) (w : W) (m : QueueMessage Json) (table datetime : Text)
      → parse_frame euc_kr clock json frame w ≡ ok m
      → kicc_row json m table datetime ≡ card_row euc_kr frame table datetime
  unfolding kicc_row payload_fields entry text_eq
  kicc_row-parse_frame frame w m table datetime e =
      let (p, k) = parsed euc_kr clock json laws frame w m e in
      rw
        (
          k,
          read euc_kr clock json laws frame (codes "tran_unique_nbr") [] _ m.payload p refl,
          read euc_kr clock json laws frame (codes "merchant_no") [] _ m.payload p refl,
          read euc_kr clock json laws frame (codes "terminal_no") [] _ m.payload p refl,
          read euc_kr clock json laws frame (codes "issuer_name") [] _ m.payload p refl,
          read euc_kr clock json laws frame (codes "cancel_flag") [] _ m.payload p refl,
          read euc_kr clock json laws frame (codes "card_no") [] _ m.payload p refl,
          read euc_kr clock json laws frame (codes "amount") (codes "0") _ m.payload p refl,
          read euc_kr clock json laws frame (codes "response_code") [] _ m.payload p refl,
          read euc_kr clock json laws frame (codes "acquirer_name") [] _ m.payload p refl,
          read euc_kr clock json laws frame (codes "approval_no") [] _ m.payload p refl,
          read euc_kr clock json laws frame (codes "approval_date") [] _ m.payload p refl,
          read euc_kr clock json laws frame (codes "approval_time") [] _ m.payload p refl,
        )
        refl

  -- The row of the message of a parsed frame, which is the message that is read from its body, is
  -- in every column the row that the offsets of the frame ask for. Its table is `kicc_b` and the
  -- business number, trimmed, which is one to twenty ASCII letters or digits; and its date is that
  -- of the approval.
  pub to_kicc_row-parse_frame :
      (frame body : Bytes) (w : W) (m : QueueMessage Json) (row : KiccRow)
      → parse_frame euc_kr clock json frame w ≡ ok m
      → json.to_vec m ≡ ok body
      → to_kicc_row json m ≡ some (some row)
      → (json.from_slice body ≡ ok m)
        × (row ≡ card_row euc_kr frame row.table row.kicc_datetime)
        × (row.table ≡ codes "kicc_b" ++ trim (field euc_kr frame 142 10))
        × (all is_ascii_alphanumeric (trim (field euc_kr frame 142 10)) ≡ true)
        × (is_empty (trim (field euc_kr frame 142 10)) ≡ false)
        × (byte_len (trim (field euc_kr frame 142 10)) ≤ 20)
        × (format_datetime (trim (field euc_kr frame 71 8)) (trim (field euc_kr frame 79 6))
            ≡ some row.kicc_datetime)
  unfolding payload_fields entry text_eq
  to_kicc_row-parse_frame frame body w m row e written h =
      let (p, k) = parsed euc_kr clock json laws frame w m e in
      let (there, made, same) = to_kicc_row-some json m row h in
      let (table, letters, filled, short) =
        resolve_table_key (field euc_kr frame 142 10) row.table
          (ap resolve_table (sym k) ∙ there) in
      (
        laws.from_slice-to_vec m (payload_fields euc_kr frame) body p written,
        same ∙ kicc_row-parse_frame frame w m row.table row.kicc_datetime e,
        table,
        letters,
        filled,
        short,
        ap₂ (λ date time. format_datetime (trim date) (trim time))
              (sym
                (read euc_kr clock json laws frame (codes "approval_date") [] _ m.payload p refl))
              (sym
                (read euc_kr clock json laws frame (codes "approval_time") [] _ m.payload p refl))
            ∙ made,
      )
