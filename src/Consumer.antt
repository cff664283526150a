-- ===== src/Consumer.antt =====
-- What the two consumers share: src/consumer/mysql.rs and src/consumer/postgres.rs. `D` is a
-- delivery of the channel, which lapin defines.
pub mod Amount
pub mod Broker
pub mod Arrived
pub mod Program
pub mod Ledger
pub mod Card
use realtime_ingestion.Base.{
  ℕ, ◌*◌, ◌%◌, ◌^◌, ◌≡◌, Bool, true, false, Option, none, some, List, [], ◌∷◌, ◌++◌, Bytes, max,
  if◌then◌else◌, is_empty, unwrap_or, map, all,
}
use mathlib.Core.List.{Permᴰ}
use realtime_ingestion.Text.{Text, trim, trim_zeros, parse_i64}
use realtime_ingestion.External.{JsonLib}

-- `p[key].as_str().unwrap_or(default)`
abbrev pub str_or : {Json : Type 0} → JsonLib Json → Json → Text → Text → Text
str_or json p key default = unwrap_or (json.str_at p key) default

-- The result is the pattern of an `i64`.
unfoldable pub parse_amount : Text → ℕ
parse_amount s = let t = trim_zeros (trim s) in if is_empty t then 0 else unwrap_or (parse_i64 t) 0

-- `((batch_size * 2) as u16).max(50)`
unfoldable pub prefetch_count : ℕ → ℕ
prefetch_count batch_size = max (batch_size * 2 % 2 ^ 64 % 2 ^ 16) 50

-- The channel: what a delivery carries, `ack`, and `nack` without requeueing. Both results are
-- ignored by the program. `notify` is a Telegram message, if a notifier is configured.
pub record Channel (W D : Type 0) : Type 0 where
  pub payload : D → Bytes
  pub ack : D → W → W
  pub nack : D → W → W
  pub notify : Text → W → W

-- `for d in deliveries`
unfoldable pub for_each : {W D : Type 0} → (D → W → W) → List D → W → W
for_each step [] w = w
for_each step (d ∷ ds) w = for_each step ds (step d w)

-- The order in which a `HashMap` is iterated over: any, but each entry once.
pub record HashOrder (A : Type 0) : Type 0 where
  pub into_iter : List A → List A
  pub each_once : (xs : List A) → Permᴰ (into_iter xs) xs

-- What the `select!` sees: the end of the stream, an error of it, a delivery, or the timer.
pub data Event (D : Type 0) : Type 0 where
  closed channel_error tick : Event D
  delivered : D → Event D

-- How a loop ends.
pub data Stop : Type 0 where
  finished failed panicked : Stop
