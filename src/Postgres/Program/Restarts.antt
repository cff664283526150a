-- ===== src/Postgres/Program/Restarts.antt =====
-- What becomes of the deliveries in src/bin/consumer_postgres.rs, over its restarts.
use realtime_ingestion.Base.{ℕ, Option, some, List, [], ◌++◌, append_assoc, subst, ◌≡◌}
use realtime_ingestion.External.{JsonLib}
use realtime_ingestion.Consumer.{Channel, HashOrder, Event, Stop}
use realtime_ingestion.Text.{Text}
use realtime_ingestion.Config.Load.{Env, IpParser}
use realtime_ingestion.Consumer.Program.{ConsumerSetup, Database}
use realtime_ingestion.Consumer.Program.Balance.{
  OpenLaws, RunBalanced, AllBalanced, behind_pool-AllBalanced,
}
use realtime_ingestion.Postgres.Program.Loaded.{consumer_postgres-Ran}
use realtime_ingestion.Postgres.Program.{postgres_settings, postgres_run, consumer_postgres}
use realtime_ingestion.Postgres.Batch.{run, PgPool}
use realtime_ingestion.Postgres.Row.{DailyRow, Chrono}
use realtime_ingestion.Postgres.Totals.{AggKey}
use realtime_ingestion.Postgres.Batch.Settle.{SettleLaws}
use realtime_ingestion.Postgres.Batch.Loop.{run-RunMoves}

module _ {W D Json Date Time Offset : Type 0} (json : JsonLib Json)
    (chrono : Chrono Date Time Offset) (channel : Channel W D) (pool : PgPool W)
    (order : HashOrder (AggKey × DailyRow)) (laws : SettleLaws channel pool) where
  postgres_run-RunBalanced :
      (n : ℕ) (es : List (Event D)) (w : W)
      → RunBalanced
          (laws.broker.settled)
          es
          w
          (postgres_run json chrono channel pool order n es w).1
  unfolding postgres_run
  postgres_run-RunBalanced n es w =
      let m =
        run-RunMoves json chrono channel pool order laws n es
          (record { deliveries = []; messages = []; world = w }) in
      let b =
        (run json chrono channel pool order n es
          (record { deliveries = []; messages = []; world = w })).1 in
      record {
        took = m.took;
        rest = m.rest;
        split = m.split;
        balanced = record {
          left = m.moves.lost ++ b.deliveries;
          balance =
              rw (append_assoc m.moves.lost b.deliveries (laws.broker.settled b.world))
                m.moves.balance;
        };
      }

  module _ (setup : ConsumerSetup W) (opens : OpenLaws laws.broker.settled setup)
      (database : Database W)
      (pool_same : (url : Text) (w : W)
        → laws.broker.settled (database.pool url w).1 ≡ laws.broker.settled w) where
    -- Over any number of restarts of the consumer, wherever it stops, and whichever messages make a
    -- panic: each delivery that one of its runs took from the channel was settled once, or was
    -- settled by no one and is left to the broker, and no other delivery was settled. This holds for
    -- calls at the start, statements and notifications that settle nothing.
    pub consumer_postgres-AllBalanced :
        (env : Env) (parse_ip : IpParser) (runs : List (List (Event D))) (w w' : W)
        (stop : Option Stop)
        → consumer_postgres json chrono channel pool order setup database env parse_ip runs w
          ≡ some (stop, w')
        → AllBalanced laws.broker.settled runs w w'
    consumer_postgres-AllBalanced env parse_ip runs w w' stop e =
        let ran =
          consumer_postgres-Ran json chrono channel pool order setup database env parse_ip runs w w'
            stop e in
        subst (AllBalanced laws.broker.settled runs w) ran.ended (
          behind_pool-AllBalanced laws.broker.settled setup opens
            (postgres_run json chrono channel pool order) (postgres_settings ran.cfg)
            (postgres_run-RunBalanced (postgres_settings ran.cfg).batch_size) runs w
            (database.pool ran.url w) (pool_same ran.url w))
