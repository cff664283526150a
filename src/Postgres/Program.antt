-- ===== src/Postgres/Program.antt =====
-- `run` of src/consumer/postgres.rs from its start, and src/bin/consumer_postgres.rs.
pub mod Loaded
pub mod Restarts
pub mod Booked
use realtime_ingestion.Base.{ℕ, Option, none, some, List, []}
use realtime_ingestion.Text.{Text, codes}
use realtime_ingestion.External.{JsonLib}
use realtime_ingestion.Config.{Config}
use realtime_ingestion.Config.Load.{Env, IpParser, from_env}
use realtime_ingestion.Consumer.{Channel, HashOrder, Event, Stop}
use realtime_ingestion.Consumer.Program.{ConsumerSetup, Database, Settings, behind_pool}
use realtime_ingestion.Postgres.Row.{DailyRow, Chrono}
use realtime_ingestion.Postgres.Totals.{AggKey}
use realtime_ingestion.Postgres.Batch.{PgPool, run}

unfoldable pub postgres_settings : Config → Settings
postgres_settings cfg = record {
  prefix = codes "postgres-consumer-";
  amqp_url = cfg.rabbitmq_url;
  queue_name = cfg.postgres_queue;
  batch_size = cfg.pgsql_batch_size;
  batch_interval_secs = cfg.pgsql_batch_interval_secs;
}

module _ {W D Json Date Time Offset : Type 0} (json : JsonLib Json)
    (chrono : Chrono Date Time Offset) (channel : Channel W D) (pool : PgPool W)
    (order : HashOrder (AggKey × DailyRow)) where
  -- The loop of a run, which begins with empty vectors. Those that it leaves are dropped.
  unfoldable pub postgres_run : ℕ → List (Event D) → W → Option Stop × W
  unfolding run
  postgres_run batch_size es w =
      let (stop, b) =
        run json chrono channel pool order batch_size es
          (record { deliveries = []; messages = []; world = w }) in
      (stop, b.world)

  -- Behind `from_env`; no URL is a panic.
  unfoldable pub with_url :
      ConsumerSetup W
      → Database W
      → Config
      → List (List (Event D))
      → Option Text
      → W
      → Option (Option Stop × W)
  unfolding postgres_settings postgres_run behind_pool
  with_url setup database cfg runs none w = none
  with_url setup database cfg runs (some pg_url) w =
      some (behind_pool setup postgres_run (postgres_settings cfg) runs (database.pool pg_url w))

  -- The program, along what its runs see; `none` is a panic before the loop.
  unfoldable pub consumer_postgres :
      ConsumerSetup W
      → Database W
      → Env
      → IpParser
      → List (List (Event D))
      → W
      → Option (Option Stop × W)
  unfolding from_env with_url
  consumer_postgres setup database env parse_ip runs w = elim (from_env env parse_ip) [
    | none ↦ none
    | some cfg ↦ with_url setup database cfg runs cfg.postgres_url w
  ]
