-- ===== src/Intake.antt =====
-- The two ways in, `handle_event` of src/receiver.rs and `process_frame` of src/tcp_listener.rs, on
-- the services that they share: histories of their calls, and the messages that were sent.
pub mod Sends
pub mod Effects
pub mod Once
pub mod Reads
pub mod Work
pub mod Frame
use realtime_ingestion.Base.{
  sum_of, ℕ, ◌≤◌, ◌≡◌, ◌⊎◌, Option, none, some, List, [], ◌∷◌, Bytes, if◌then◌else◌,
}
use realtime_ingestion.Text.{Text, text_eq}
use realtime_ingestion.Models.{IncomingEvent, QueueMessage}
use realtime_ingestion.External.{Result, ok, err, RedisLaws}
use realtime_ingestion.Receiver.{AppState, handle_event}
use realtime_ingestion.Tcp.Process.{process_frame}

-- The id of a message that is read from a body.
abbrev pub id_of : {Json : Type 0} → Result (QueueMessage Json) → Option Text
id_of (ok m) = some m.id
id_of (err e) = none

abbrev pub is_id : Text → Option Text → ℕ
is_id i none = 0
is_id i (some j) = if text_eq j i then 1 else 0

module _ {W C Json : Type 0} (state : AppState W C Json) (redis : RedisLaws state.redis) where
  -- Time may pass, and each mark stays.
  pub record Quiet (w w' : W) : Type 0 where
    pub later : redis.now w ≤ redis.now w'
    pub marks : (k : Text) → redis.expiry w' k ≡ redis.expiry w k

  -- What the services do to one another: `sent` is what was published and may be in the queue.
  -- `basic_publish` sends its body or fails to; its confirmation and Redis send nothing; AMQP sets
  -- no mark. A body keeps the id of its message.
  pub record PublishLaws : Type 0 where
    pub sent : W → List Bytes
    pub set_nx_ex : (k : Text) (ttl : ℕ) (w : W) → sent (state.redis.set_nx_ex k ttl w).1 ≡ sent w
    pub basic_publish :
        (exchange key kind : Text) (mode : ℕ) (body : Bytes) (w : W)
        → (sent (state.amqp.basic_publish exchange key kind mode body w).1 ≡ sent w)
          ⊎ (sent (state.amqp.basic_publish exchange key kind mode body w).1 ≡ body ∷ sent w)
    pub publish_quiet :
        (exchange key kind : Text) (mode : ℕ) (body : Bytes) (w : W)
        → Quiet w (state.amqp.basic_publish exchange key kind mode body w).1
    pub confirmation : (tag : ℕ) (w : W) → sent (state.amqp.confirmation tag w).1 ≡ sent w
    pub confirm_quiet : (tag : ℕ) (w : W) → Quiet w (state.amqp.confirmation tag w).1
    pub to_vec :
        (m : QueueMessage Json) (b : Bytes)
        → state.json.to_vec m ≡ ok b
        → id_of (state.json.from_slice b) ≡ some m.id

  module _ (laws : PublishLaws) where
    -- How many messages of an event were sent.
    abbrev pub count : Text → W → ℕ
    count i w = sum_of (λ b. is_id i (id_of (state.json.from_slice b))) (laws.sent w)

    -- Events and frames, in any order, with time that passes between them.
    pub data Served : W → W → Type 0 where
      done : {w : W} → Served w w
      on_event :
          {w v : W} (event : IncomingEvent Json)
          → Served (handle_event state event w).1 v
          → Served w v
      on_frame : {w v : W} (frame : Bytes) → Served (process_frame state frame w).1 v → Served w v
      wait : {w w' v : W} → Quiet w w' → laws.sent w' ≡ laws.sent w → Served w' v → Served w v
