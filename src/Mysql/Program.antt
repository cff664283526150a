-- ===== src/Mysql/Program.antt =====
-- `run` of src/consumer/mysql.rs from its start, and src/bin/consumer_mysql.rs.
pub mod Restarts
pub mod Booked
use realtime_ingestion.Base.{ℕ, Option, none, some, List, []}
use realtime_ingestion.Text.{Text, codes}
use realtime_ingestion.External.{JsonLib}
use realtime_ingestion.Config.{Config}
use realtime_ingestion.Config.Load.{Env, IpParser, from_env}
use realtime_ingestion.Consumer.{Channel, HashOrder, Event, Stop}
use realtime_ingestion.Consumer.Program.{ConsumerSetup, Database, Settings, behind_pool}
use realtime_ingestion.Mysql.Row.{KiccRow}
use realtime_ingestion.Mysql.Batch.{MySqlPool, run}

unfoldable pub mysql_settings : Config → Settings
mysql_settings cfg = record {
  prefix = codes "mysql-consumer-";
  amqp_url = cfg.rabbitmq_url;
  queue_name = cfg.mysql_queue;
  batch_size = cfg.mysql_batch_size;
  batch_interval_secs = cfg.mysql_batch_interval_secs;
}

module _ {W D Json : Type 0} (json : JsonLib Json) (channel : Channel W D) (pool : MySqlPool W)
    (order : HashOrder (Text × List (D × KiccRow))) where
  -- The loop of a run, which begins with empty vectors. Those that it leaves are dropped.
  unfoldable pub mysql_run : ℕ → List (Event D) → W → Option Stop × W
  unfolding run
  mysql_run batch_size es w =
      let (stop, b) =
        run json channel pool order batch_size es
          (record { deliveries = []; rows = []; world = w }) in
      (stop, b.world)

  -- The program, along what its runs see; `none` is the panic of `from_env`.
  unfoldable pub consumer_mysql :
      ConsumerSetup W
      → Database W
      → Env
      → IpParser
      → List (List (Event D))
      → W
      → Option (Option Stop × W)
  unfolding from_env mysql_settings mysql_run behind_pool
  consumer_mysql setup database env parse_ip runs w = elim (from_env env parse_ip) [
    | none ↦ none
    | some cfg ↦
        some (behind_pool setup mysql_run (mysql_settings cfg) runs (database.pool cfg.mysql_url w))
  ]
