-- ===== src/Mysql/Program/Restarts.antt =====
-- What becomes of the deliveries in src/bin/consumer_mysql.rs, over its restarts.
use realtime_ingestion.Base.{
  ℕ, ◌<◌, ◌≡◌, refl, sym, ap, ◌∙◌, subst, Option, some, List, [], unwrap_or,
}
use realtime_ingestion.Text.{Text}
use realtime_ingestion.External.{JsonLib}
use realtime_ingestion.Config.{Config}
use realtime_ingestion.Config.Load.{Env, IpParser, from_env}
use realtime_ingestion.Consumer.{Channel, HashOrder, Event, Stop}
use realtime_ingestion.Consumer.Program.{ConsumerSetup, Database, behind_pool}
use realtime_ingestion.Consumer.Program.Balance.{
  OpenLaws, RunBalanced, AllBalanced, behind_pool-AllBalanced,
}
use realtime_ingestion.Mysql.Row.{KiccRow}
use realtime_ingestion.Mysql.Batch.{MySqlPool}
use realtime_ingestion.Mysql.Batch.Settle.{SettleLaws}
use realtime_ingestion.Mysql.Batch.Loop.{run-Ran}
use realtime_ingestion.Mysql.Program.{mysql_settings, mysql_run, consumer_mysql}

module _ {W D Json : Type 0} (json : JsonLib Json) (channel : Channel W D) (pool : MySqlPool W)
    (order : HashOrder (Text × List (D × KiccRow))) (laws : SettleLaws channel pool) where
  mysql_run-RunBalanced :
      (n : ℕ) (es : List (Event D)) (w : W)
      → 0 < n
      → RunBalanced laws.broker.settled es w (mysql_run json channel pool order n es w).1
  unfolding mysql_run
  mysql_run-RunBalanced n es w h =
      let ran =
        run-Ran json channel pool order laws n es (record { deliveries = []; rows = []; world = w })
          h (record { paired = refl; short = h }) in
      record {
        took = ran.took;
        rest = ran.rest;
        split = ran.split;
        balanced = record { left = _; balance = ran.balance };
      }

  module _ (setup : ConsumerSetup W) (opens : OpenLaws laws.broker.settled setup)
      (database : Database W)
      (pool_same : (url : Text) (w : W)
        → laws.broker.settled (database.pool url w).1 ≡ laws.broker.settled w) where
    program :
        (env : Env) (parse_ip : IpParser) (cfg : Config) (runs : List (List (Event D))) (w : W)
        → from_env env parse_ip ≡ some cfg
        → consumer_mysql json channel pool order setup database env parse_ip runs w
          ≡ some (
              behind_pool setup
                (mysql_run json channel pool order)
                (mysql_settings cfg)
                runs
                (database.pool cfg.mysql_url w))
    unfolding consumer_mysql
    program env parse_ip cfg runs w loaded = rw (loaded, consumer_mysql) refl

    -- Over any number of restarts of the consumer, and wherever it stops or panics: each delivery
    -- that one of its runs took from the channel was settled once, or was settled by no one and is
    -- left to the broker, and no other delivery was settled. This holds for a batch size above 0,
    -- and calls at the start, statements and notifications that settle nothing.
    pub consumer_mysql-AllBalanced :
        (env : Env) (parse_ip : IpParser) (cfg : Config) (runs : List (List (Event D))) (w w' : W)
        (stop : Option Stop)
        → from_env env parse_ip ≡ some cfg
        → 0 < cfg.mysql_batch_size
        → consumer_mysql json channel pool order setup database env parse_ip runs w
          ≡ some (stop, w')
        → AllBalanced laws.broker.settled runs w w'
    consumer_mysql-AllBalanced env parse_ip cfg runs w w' stop loaded h e =
        subst (AllBalanced laws.broker.settled runs w)
          (ap (λ (o : Option (Option Stop × W)). (unwrap_or o (stop, w')).1)
            (sym (program env parse_ip cfg runs w loaded) ∙ e))
          (behind_pool-AllBalanced laws.broker.settled setup opens
            (mysql_run json channel pool order) (mysql_settings cfg)
            (λ es x.
              mysql_run-RunBalanced (mysql_settings cfg).batch_size es x
                (unfold mysql_settings in h))
            runs w (database.pool cfg.mysql_url w) (pool_same cfg.mysql_url w))
