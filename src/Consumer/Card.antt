-- ===== src/Consumer/Card.antt =====
-- The message of a card payment, which src/parser.rs makes, as the consumers read its fields.
use realtime_ingestion.Base.{◌≡◌, ap, ◌∙◌, some, Bytes, unwrap_or, arith}
use realtime_ingestion.Text.{Text}
use realtime_ingestion.Models.{QueueMessage}
use realtime_ingestion.External.{ok, JsonLib, JsonLaws, entry, EucKr, Clock}
use realtime_ingestion.Parser.{field, payload_fields, parse_frame}
use realtime_ingestion.Consumer.{str_or}

module _ {W Json : Type 0} (euc_kr : EucKr) (clock : Clock W) (json : JsonLib Json)
    (laws : JsonLaws json) where
  pub parsed :
      (frame : Bytes) (w : W) (m : QueueMessage Json)
      → parse_frame euc_kr clock json frame w ≡ ok m
      → (m.payload ≡ json.object (payload_fields euc_kr frame))
        × (m.table_key ≡ some (field euc_kr frame 142 10))
  unfolding parse_frame
  parsed frame w m e = ground arith

  pub read :
      (frame : Bytes) (key default v : Text) (p : Json)
      → p ≡ json.object (payload_fields euc_kr frame)
      → entry key (payload_fields euc_kr frame) ≡ some v
      → str_or json p key default ≡ v
  read frame key default v p e q =
      ap (λ o. unwrap_or o default)
        (ap (λ x. json.str_at x key) e ∙ laws.str_at-object (payload_fields euc_kr frame) key ∙ q)
