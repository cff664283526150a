-- ===== src/Mysql/Batch.antt =====
-- `flush` and `run` of src/consumer/mysql.rs. A batch is the two vectors of the loop and the world.
pub mod Group
pub mod Tables
pub mod Settle
pub mod Loop
pub mod Quiet
pub mod Books
pub mod Journal
use realtime_ingestion.Base.{
  ℕ, ◌≡◌, Bool, not, Option, none, some, List, [], ◌∷◌, ◌++◌, map, leb, if◌then◌else◌, length,
  is_empty,
}
use realtime_ingestion.Text.{Text, codes, text_eq, to_string}
use realtime_ingestion.Models.{QueueMessage}
use realtime_ingestion.External.{Error, Result, ok, err, Io, JsonLib}
use realtime_ingestion.Consumer.{
  Channel, for_each, HashOrder, Event, closed, channel_error, tick, delivered, Stop, finished,
  failed, panicked,
}
use realtime_ingestion.Mysql.Row.{KiccRow, to_kicc_row}

-- `INSERT INTO` a table through the pool, and the code of an error in a notification.
pub record MySqlPool (W : Type 0) : Type 0 where
  pub execute : Text → List KiccRow → Io W ℕ
  pub error_code : Error → Text

abbrev pub Groups : Type 0 → Type 0
Groups D = List (Text × List (D × KiccRow))

module _ {D : Type 0} where
  -- `zip`
  unfoldable pub zip : List D → List KiccRow → List (D × KiccRow)
  zip (d ∷ ds) (r ∷ rs) = (d, r) ∷ zip ds rs
  zip _ _ = []

  -- `groups.entry(table).or_default().push(pair)`
  unfoldable pub push_group : Text → D × KiccRow → Groups D → Groups D
  push_group table pair [] = (table, pair ∷ []) ∷ []
  push_group table pair ((t, group) ∷ groups) =
      if text_eq t table
      then (t, group ++ pair ∷ []) ∷ groups
      else (t, group) ∷ push_group table pair groups

  unfoldable pub group_rows : Groups D → List (D × KiccRow) → Groups D
  group_rows groups [] = groups
  group_rows groups ((d, r) ∷ pairs) = group_rows (push_group r.table (d, r) groups) pairs

pub record Batch (W D : Type 0) : Type 0 where
  pub deliveries : List D
  pub rows : List KiccRow
  pub world : W

module _ {W D Json : Type 0} (json : JsonLib Json) (channel : Channel W D) (pool : MySqlPool W)
    (order : HashOrder (Text × List (D × KiccRow))) where
  -- Behind the `INSERT` for a table.
  unfoldable pub settle : Text → List D → Result ℕ × W → W
  settle table ds (ok n, w) = for_each channel.ack ds w
  settle table ds (err e, w) =
      let text =
        (0x26a0 ∷ 0xfe0f ∷ codes " <b>[MySQL 소비자]</b> 배치 INSERT 실패 (")
        ++ (to_string (length ds)
            ++ (codes "건, " ++ (table ++ (codes ") — " ++ pool.error_code e)))) in
      for_each channel.nack ds (channel.notify text w)

  unfoldable pub flush_group : Text × List (D × KiccRow) → W → W
  flush_group (table, group) w =
      settle table (map (λ (p : D × KiccRow). p.0) group)
        (pool.execute table (map (λ (p : D × KiccRow). p.1) group) w)

  unfoldable pub flush : List D → List KiccRow → W → W
  flush deliveries rows w =
      for_each flush_group (order.into_iter (group_rows [] (zip deliveries rows))) w

  abbrev pub flushed : Batch W D → Batch W D
  flushed b = record { deliveries = []; rows = []; world = flush b.deliveries b.rows b.world }

  -- Behind a delivery: `if rows.len() >= batch_size`.
  unfoldable pub flush_if_full : ℕ → Batch W D → Batch W D
  flush_if_full batch_size b = if leb batch_size (length b.rows) then flushed b else b

  -- What becomes of a delivery; `none` is a panic.
  unfoldable pub store_row : D → Option (Option KiccRow) → Batch W D → Option (Batch W D)
  store_row d none b = none
  store_row d (some none) b = some (record b { world = channel.ack d b.world })
  store_row d (some (some row)) b =
      some (record b { deliveries = b.deliveries ++ d ∷ []; rows = b.rows ++ row ∷ [] })

  unfoldable pub store : D → Result (QueueMessage Json) → Batch W D → Option (Batch W D)
  store d (err e) b = some (record b { world = channel.nack d b.world })
  store d (ok msg) b = store_row d (to_kicc_row json msg) b

  unfoldable pub after_store : ℕ → Batch W D → Option (Batch W D) → Option Stop × Batch W D
  after_store batch_size b none = (some panicked, b)
  after_store batch_size b (some b') = (none, flush_if_full batch_size b')

  unfoldable pub step : ℕ → Event D → Batch W D → Option Stop × Batch W D
  step batch_size closed b = (some finished, b)
  step batch_size channel_error b = (
    some failed,
    record b { world = channel.notify (codes "🔴 <b>[MySQL 소비자]</b> 채널 오류 — 재시작 예정") b.world },
  )
  step batch_size tick b = (none, if not (is_empty b.rows) then flushed b else b)
  step batch_size (delivered d) b =
      after_store batch_size b (store d (json.from_slice (channel.payload d)) b)

  abbrev pub after_step :
      (Batch W D → Option Stop × Batch W D) → Option Stop × Batch W D → Option Stop × Batch W D
  after_step again (some s, b) = (some s, b)
  after_step again (none, b) = again b

  -- The loop, over the events that it sees.
  unfoldable pub run : ℕ → List (Event D) → Batch W D → Option Stop × Batch W D
  run batch_size [] b = (none, b)
  run batch_size (e ∷ es) b = after_step (run batch_size es) (step batch_size e b)
