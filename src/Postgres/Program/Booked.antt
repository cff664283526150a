-- ===== src/Postgres/Program/Booked.antt =====
-- What src/bin/consumer_postgres.rs adds to the daily totals over its restarts, against the
-- deliveries that it acknowledges.
use realtime_ingestion.Base.{ℕ, Option, some, List, subst, ◌≡◌}
use realtime_ingestion.External.{JsonLib}
use realtime_ingestion.Consumer.{Channel, HashOrder, Event, Stop}
use realtime_ingestion.Consumer.Ledger.{Booked, Booked-refl, Booked-trans, BookLaws}
use realtime_ingestion.Text.{Text}
use realtime_ingestion.Config.Load.{Env, IpParser}
use realtime_ingestion.Consumer.Program.{ConsumerSetup, Database}
use realtime_ingestion.Consumer.Program.Along.{OpensAlong, behind_pool-along}
use realtime_ingestion.Postgres.Program.Loaded.{consumer_postgres-Ran}
use realtime_ingestion.Postgres.Program.{postgres_settings, postgres_run, consumer_postgres}
use realtime_ingestion.Postgres.Batch.{PgPool}
use realtime_ingestion.Postgres.Row.{DailyRow, Chrono}
use realtime_ingestion.Postgres.Totals.{AggKey}
use realtime_ingestion.Postgres.Batch.Books.{TotalsLaws, totals}
use realtime_ingestion.Postgres.Batch.Journal.{run-Booked}

module _ {W D Json Date Time Offset : Type 0} (json : JsonLib Json)
    (chrono : Chrono Date Time Offset) (channel : Channel W D) (pool : PgPool W)
    (order : HashOrder (AggKey × DailyRow)) (acked : W → List D) (laws : TotalsLaws pool acked)
    (books : BookLaws (totals json chrono channel pool order acked laws) channel)
    (setup : ConsumerSetup W)
    (opens : OpensAlong (Booked (totals json chrono channel pool order acked laws)) setup)
    (database : Database W)
    (pool_opens : (url : Text) (w : W)
      → Booked (totals json chrono channel pool order acked laws) w (database.pool url w).1) where
  postgres_run-Booked :
      (n : ℕ) (es : List (Event D)) (w : W)
      → Booked
          (totals json chrono channel pool order acked laws)
          w
          (postgres_run json chrono channel pool order n es w).1
  unfolding postgres_run
  postgres_run-Booked n es w = run-Booked json chrono channel pool order acked laws books n es w

  -- Over any number of restarts of the consumer, wherever it stops, whichever messages make a panic,
  -- and whichever statements fail: the total of each column for a time, a business, a merchant and
  -- a terminal has grown, up to the width of the column, by the sum of what the deliveries bring
  -- that were acknowledged meanwhile. A delivery brings what the row of its message has for that
  -- key, and nothing without a row. This holds for a database where a statement that succeeds adds
  -- its rows to the totals, if no two have the same key, and one that fails changes no total.
  pub consumer_postgres-Booked :
      (env : Env) (parse_ip : IpParser) (runs : List (List (Event D))) (w w' : W)
      (stop : Option Stop)
      → consumer_postgres json chrono channel pool order setup database env parse_ip runs w
        ≡ some (stop, w')
      → Booked (totals json chrono channel pool order acked laws) w w'
  consumer_postgres-Booked env parse_ip runs w w' stop e =
      let ledger = totals json chrono channel pool order acked laws in
      let ran =
        consumer_postgres-Ran json chrono channel pool order setup database env parse_ip runs w w'
          stop e in
      subst (Booked ledger w) ran.ended (
        behind_pool-along (Booked ledger)
          (record { still = Booked-refl ledger; chain = Booked-trans ledger }) setup opens
          (postgres_run json chrono channel pool order) (postgres_settings ran.cfg)
          (postgres_run-Booked (postgres_settings ran.cfg).batch_size) runs w
          (database.pool ran.url w) (pool_opens ran.url w))
