-- ===== src/Mysql/Program/Booked.antt =====
-- What src/bin/consumer_mysql.rs inserts over its restarts, against the deliveries that it
-- acknowledges.
use realtime_ingestion.Base.{
  ℕ, Option, none, some, List, inl, inr, refl, sym, ap, ◌∙◌, subst, Option-cases, unwrap_or, ◌≡◌,
}
use realtime_ingestion.External.{JsonLib}
use realtime_ingestion.Consumer.{Channel, HashOrder, Event, Stop}
use realtime_ingestion.Consumer.Ledger.{Booked, Booked-refl, Booked-trans, BookLaws}
use realtime_ingestion.Text.{Text}
use realtime_ingestion.Config.{Config}
use realtime_ingestion.Config.Load.{Env, IpParser, from_env}
use realtime_ingestion.Consumer.Program.{ConsumerSetup, Database, behind_pool}
use realtime_ingestion.Consumer.Program.Along.{OpensAlong, behind_pool-along}
use realtime_ingestion.Mysql.Row.{KiccRow}
use realtime_ingestion.Mysql.Batch.{MySqlPool}
use realtime_ingestion.Mysql.Batch.Books.{TableLaws, tables}
use realtime_ingestion.Mysql.Batch.Journal.{run-Booked}
use realtime_ingestion.Mysql.Program.{mysql_settings, mysql_run, consumer_mysql}

module _ {W D Json : Type 0} (json : JsonLib Json) (channel : Channel W D) (pool : MySqlPool W)
    (order : HashOrder (Text × List (D × KiccRow))) (acked : W → List D)
    (laws : TableLaws pool acked)
    (books : BookLaws (tables json channel pool order acked laws) channel) (setup : ConsumerSetup W)
    (opens : OpensAlong (Booked (tables json channel pool order acked laws)) setup)
    (database : Database W)
    (pool_opens : (url : Text) (w : W)
      → Booked (tables json channel pool order acked laws) w (database.pool url w).1) where
  mysql_run-Booked :
      (n : ℕ) (es : List (Event D)) (w : W)
      → Booked
          (tables json channel pool order acked laws)
          w
          (mysql_run json channel pool order n es w).1
  unfolding mysql_run
  mysql_run-Booked n es w = run-Booked json channel pool order acked laws books n es w

  -- Over any number of restarts of the consumer, wherever it stops or panics, and whichever
  -- statements fail: for every table and every test on rows, the table has as many more rows that
  -- pass as there are deliveries that were acknowledged meanwhile and whose row is for the table
  -- and passes. This holds for a database where a statement that succeeds adds its rows to its
  -- table, and one that fails changes no table.
  pub consumer_mysql-Booked :
      (env : Env) (parse_ip : IpParser) (runs : List (List (Event D))) (w w' : W)
      (stop : Option Stop)
      → consumer_mysql json channel pool order setup database env parse_ip runs w ≡ some (stop, w')
      → Booked (tables json channel pool order acked laws) w w'
  unfolding consumer_mysql
  consumer_mysql-Booked env parse_ip runs w w' stop e =
      elim (Option-cases (from_env env parse_ip)) [
        | inl panics ↦ absurd (cc (sym (stopped panics) ∙ e))
        | inr (cfg, loaded) ↦
            let ledger = tables json channel pool order acked laws in
            subst (Booked ledger w)
              (ap (λ (o : Option (Option Stop × W)). (unwrap_or o (stop, w')).1)
                (sym (behind cfg loaded) ∙ e))
              (behind_pool-along (Booked ledger)
                (record { still = Booked-refl ledger; chain = Booked-trans ledger }) setup opens
                (mysql_run json channel pool order) (mysql_settings cfg)
                (mysql_run-Booked (mysql_settings cfg).batch_size) runs w
                (database.pool cfg.mysql_url w) (pool_opens cfg.mysql_url w))
      ]
    where
      stopped :
          from_env env parse_ip ≡ none
          → consumer_mysql json channel pool order setup database env parse_ip runs w ≡ none
      stopped q = rw (q, consumer_mysql) refl

      behind :
          (cfg : Config)
          → from_env env parse_ip ≡ some cfg
          → consumer_mysql json channel pool order setup database env parse_ip runs w
            ≡ some (
                behind_pool setup
                  (mysql_run json channel pool order)
                  (mysql_settings cfg)
                  runs
                  (database.pool cfg.mysql_url w))
      behind cfg q = rw (q, consumer_mysql) refl
