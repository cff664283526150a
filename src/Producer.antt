-- ===== src/Producer.antt =====
-- `Producer` of src/producer.rs. The AMQP channel is the world.
pub mod Connect
use realtime_ingestion.Base.{ℕ, []}
use realtime_ingestion.Text.{Text, codes}
use realtime_ingestion.Models.{QueueMessage}
use realtime_ingestion.External.{Io, pure, lift, ◌>>=◌, JsonLib, Amqp}

pub record Producer : Type 0 where
  pub exchange : Text

-- `with_delivery_mode(2)`: the broker keeps the message on disk.
abbrev pub persistent : ℕ
persistent = 2

module _ {W C Json : Type 0} (amqp : Amqp W C) (json : JsonLib Json) where
  unfoldable pub publish : Producer → QueueMessage Json → Io W (Unit {0})
  publish producer msg = do
    body ← lift (json.to_vec msg)
    confirm ← amqp.basic_publish producer.exchange [] (codes "application/json") persistent body
    confirmation ← amqp.confirmation confirm
    pure tt
