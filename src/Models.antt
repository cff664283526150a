-- ===== src/Models.antt =====
-- src/models.rs, with the text fields of `serde_json::Value` that the program reads and writes.
-- `Json` is that type, which serde_json defines.
use realtime_ingestion.Base.{ℕ, Option}
use realtime_ingestion.Text.{Text}

-- The body of `POST /events`. A timestamp is an `i64`, as its two's complement pattern.
pub record IncomingEvent (Json : Type 0) : Type 0 where
  pub id : Text
  pub event_type : Text
  pub payload : Json
  pub timestamp : Option ℕ

-- The message in the RabbitMQ queue.
pub record QueueMessage (Json : Type 0) : Type 0 where
  pub id : Text
  pub event_type : Text
  pub payload : Json
  pub timestamp : ℕ
  pub received_at : ℕ
  pub table_key : Option Text

-- The body of a response.
pub record ApiResponse : Type 0 where
  pub status : Text
  pub message : Text
