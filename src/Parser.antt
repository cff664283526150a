-- ===== src/Parser.antt =====
-- `field` and `parse_frame` of src/parser.rs.
use realtime_ingestion.Base.{
  ℕ, ◌+◌, ◌-◌, ◌%◌, ◌^◌, some, List, [], ◌∷◌, ◌++◌, Bytes, ltb, leb, if◌then◌else◌, length, take,
  drop, min, unwrap_or,
}
use realtime_ingestion.Text.{Text, codes, trim}
use realtime_ingestion.Models.{QueueMessage}
use realtime_ingestion.External.{Result, ok, err, short_payload, JsonLib, EucKr, Clock}
use realtime_ingestion.Security.Mask.{mask_card_no, mask_business_no}

abbrev pub min_payload : ℕ
min_payload = 153

-- `x as i64` of a number of milliseconds.
abbrev pub as_i64 : ℕ → ℕ
as_i64 n = n % 2 ^ 64

module _ (euc_kr : EucKr) where
  unfoldable pub field : Bytes → ℕ → ℕ → Text
  field payload offset len =
      let end = min (offset + len) (length payload) in
      if leb (length payload) offset
      then []
      else trim (euc_kr.decode (take (end - offset) (drop offset payload)))

  -- The object that becomes the payload of the message, in the order of the source.
  unfoldable pub payload_fields : Bytes → List (Text × Text)
  payload_fields p =
      (codes "merchant_type", field p 0 8)
      ∷ (codes "msg_type", field p 8 4)
      ∷ (codes "tran_unique_nbr", field p 12 12)
      ∷ (codes "response_code", field p 24 2)
      ∷ (codes "terminal_no", field p 26 7)
      ∷ (codes "installment", field p 33 2)
      ∷ (codes "amount", field p 35 10)
      ∷ (codes "card_no", mask_card_no (field p 45 16))
      ∷ (codes "approval_no", field p 61 10)
      ∷ (codes "approval_date", field p 71 8)
      ∷ (codes "approval_time", field p 79 6)
      ∷ (codes "orig_date", field p 85 8)
      ∷ (codes "card_type", field p 93 1)
      ∷ (codes "issuer_code", field p 94 3)
      ∷ (codes "issuer_name", field p 97 14)
      ∷ (codes "acquirer_code", field p 111 3)
      ∷ (codes "acquirer_name", field p 114 14)
      ∷ (codes "merchant_no", field p 128 14)
      ∷ (codes "business_no", mask_business_no (field p 142 10))
      ∷ (codes "cancel_flag", field p 152 1)
      ∷ []

  module _ {W Json : Type 0} (clock : Clock W) (json : JsonLib Json) where
    unfoldable pub parse_frame : Bytes → W → Result (QueueMessage Json)
    parse_frame frame w =
        let now_ms = as_i64 (unwrap_or (clock.since_epoch w) 0) in
        if ltb (length frame) min_payload
        then err (short_payload (length frame))
        else ok (record {
          id = field frame 12 12;
          event_type = codes "card_tx_" ++ field frame 8 4;
          payload = json.object (payload_fields frame);
          timestamp = now_ms;
          received_at = now_ms;
          table_key = some (field frame 142 10);
        })
