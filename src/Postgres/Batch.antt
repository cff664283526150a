-- ===== src/Postgres/Batch.antt =====
-- `flush` and `run` of src/consumer/postgres.rs. A batch is the two vectors of the loop and the
-- world.
pub mod Settle
pub mod Quiet
pub mod Loop
pub mod Books
pub mod Journal
use realtime_ingestion.Base.{
  ℕ, not, Option, none, some, List, [], ◌∷◌, ◌++◌, map, leb, if◌then◌else◌, length, is_empty,
}
use realtime_ingestion.Text.{Text, codes, to_string}
use realtime_ingestion.Models.{QueueMessage}
use realtime_ingestion.External.{Error, Result, ok, err, Io, JsonLib}
use realtime_ingestion.Consumer.{
  Channel, for_each, HashOrder, Event, closed, channel_error, tick, delivered, Stop, finished,
  failed, panicked,
}
use realtime_ingestion.Postgres.Row.{DailyRow, Chrono, to_daily_row}
use realtime_ingestion.Postgres.Totals.{AggKey, Agg, add_row}

-- The `INSERT .. ON CONFLICT DO UPDATE` of the rows, and the code of an error in a notification.
pub record PgPool (W : Type 0) : Type 0 where
  pub execute : List DailyRow → Io W ℕ
  pub error_code : Error → Text

pub record Batch (W D Json : Type 0) : Type 0 where
  pub deliveries : List D
  pub messages : List (QueueMessage Json)
  pub world : W

-- The variables of the loop over the pairs.
pub record Gathered (W D : Type 0) : Type 0 where
  pub group_deliveries : List D
  pub agg : Agg
  pub world : W

abbrev pub and_then :
    {S T : Type 0} → (S → Option Stop × T) → Option Stop × S → (S → T) → Option Stop × T
and_then again (some s, x) leave = (some s, leave x)
and_then again (none, x) leave = again x

module _ {W D Json Date Time Offset : Type 0} (json : JsonLib Json)
    (chrono : Chrono Date Time Offset) (channel : Channel W D) (pool : PgPool W)
    (order : HashOrder (AggKey × DailyRow)) where
  -- One pair; a row that makes a panic stops the loop.
  unfoldable pub gather_row :
      D → Option (Option DailyRow) → Gathered W D → Option Stop × Gathered W D
  gather_row d none g = (some panicked, g)
  gather_row d (some none) g = (none, record g { world = channel.ack d g.world })
  gather_row d (some (some row)) g =
      (none, record g { group_deliveries = g.group_deliveries ++ d ∷ []; agg = add_row row g.agg })

  -- `for (delivery, msg) in pairs`, which `zip` makes.
  unfoldable pub gather :
      List D → List (QueueMessage Json) → Gathered W D → Option Stop × Gathered W D
  gather (d ∷ ds) (msg ∷ msgs) g =
      and_then (gather ds msgs) (gather_row d (to_daily_row chrono json msg) g) (λ x. x)
  gather _ _ g = (none, g)

  -- Behind the statement.
  unfoldable pub settle : List D → Result ℕ × W → W
  settle ds (ok n, w) = for_each channel.ack ds w
  settle ds (err e, w) =
      let text =
        (0x26a0 ∷ 0xfe0f ∷ codes " <b>[PostgreSQL 소비자]</b> UPSERT 실패 (")
        ++ (to_string (length ds) ++ (codes "건) — " ++ pool.error_code e)) in
      for_each channel.nack ds (channel.notify text w)

  unfoldable pub upsert : Gathered W D → W
  upsert g =
      if is_empty g.group_deliveries
      then g.world
      else settle g.group_deliveries
          (pool.execute (map (λ (e : AggKey × DailyRow). e.1) (order.into_iter g.agg)) g.world)

  unfoldable pub flush : List D → List (QueueMessage Json) → W → Option Stop × W
  flush deliveries messages w =
      let start : Gathered W D = record { group_deliveries = []; agg = []; world = w } in
      and_then (λ g. (none, upsert g)) (gather deliveries messages start) (λ g. g.world)

  abbrev emptied : Option Stop × W → Option Stop × Batch W D Json
  emptied (s, w) = (s, record { deliveries = []; messages = []; world = w })

  unfoldable pub flushed : Batch W D Json → Option Stop × Batch W D Json
  flushed b = emptied (flush b.deliveries b.messages b.world)

  unfoldable pub flush_if_full : ℕ → Batch W D Json → Option Stop × Batch W D Json
  flush_if_full batch_size b = if leb batch_size (length b.messages) then flushed b else (none, b)

  unfoldable pub store : D → Result (QueueMessage Json) → Batch W D Json → Batch W D Json
  store d (err e) b = record b { world = channel.nack d b.world }
  store d (ok msg) b = record b {
    deliveries = b.deliveries ++ d ∷ [];
    messages = b.messages ++ msg ∷ [];
  }

  unfoldable pub step : ℕ → Event D → Batch W D Json → Option Stop × Batch W D Json
  step batch_size closed b = (some finished, b)
  step batch_size channel_error b = (
    some failed,
    record b { world = channel.notify (codes "🔴 <b>[PostgreSQL 소비자]</b> 채널 오류 — 재시작 예정") b.world },
  )
  step batch_size tick b = if not (is_empty b.messages) then flushed b else (none, b)
  step batch_size (delivered d) b =
      flush_if_full batch_size (store d (json.from_slice (channel.payload d)) b)

  -- The loop, over the events that it sees.
  unfoldable pub run : ℕ → List (Event D) → Batch W D Json → Option Stop × Batch W D Json
  run batch_size [] b = (none, b)
  run batch_size (e ∷ es) b = and_then (run batch_size es) (step batch_size e b) (λ x. x)
