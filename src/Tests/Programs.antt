-- ===== src/Tests/Programs.antt =====
-- The programs of the consumers over two runs.
use realtime_ingestion.Base.{◌≡◌, refl, some, List, [], ◌∷◌, Bytes, arith, Option}
use realtime_ingestion.External.{ok}
use realtime_ingestion.Consumer.{Event, Stop}
use realtime_ingestion.Consumer.Program.{ConsumerSetup, Database, behind_pool}
use realtime_ingestion.Consumer.Program.Balance.{OpenLaws, AllBalanced}
use realtime_ingestion.Mysql.Program.{mysql_settings, mysql_run, consumer_mysql}
use realtime_ingestion.Mysql.Program.Restarts.{consumer_mysql-AllBalanced}
use realtime_ingestion.Tests.Codec.{json}
use realtime_ingestion.Tests.Config.{env, parse_ip, loaded, from_env-loaded}
use realtime_ingestion.Tests.Consumer.{channel, pool, order, laws, events, quiet}
use realtime_ingestion.Postgres.Program.{
  postgres_settings, postgres_run, with_url, consumer_postgres,
}
use realtime_ingestion.Postgres.Program.Restarts.{consumer_postgres-AllBalanced}
use realtime_ingestion.Tests.Postgres as Totals

-- The world is the settled deliveries.
abbrev setup : ConsumerSetup (List Bytes)
setup = record {
  connection = λ url w. (ok tt, w);
  create_channel = λ w. (ok tt, w);
  basic_qos = λ n w. (ok tt, w);
  basic_consume = λ queue tag w. (ok tt, w);
  as_nanos = λ w. some 7;
}

abbrev opens : OpenLaws (λ (w : List Bytes). w) setup
opens = record {
  connection = λ url w. refl;
  create_channel = λ w. refl;
  basic_qos = λ n w. refl;
  basic_consume = λ queue tag w. refl;
}

abbrev database : Database (List Bytes)
database = record { pool = λ url w. (ok tt, w) }

abbrev pub runs : List (List (Event Bytes))
runs = events ∷ quiet ∷ []

abbrev ended : Option Stop × List Bytes
ended =
    behind_pool setup (mysql_run json channel pool order) (mysql_settings loaded) runs (ok tt, [])

program_ends :
    consumer_mysql json channel pool order setup database env parse_ip runs []
    ≡ some (ended.0, ended.1)
unfolding consumer_mysql
program_ends = rw (from_env-loaded, consumer_mysql) refl

consumer_mysql-AllBalanced_example : AllBalanced (λ (w : List Bytes). w) runs [] ended.1
consumer_mysql-AllBalanced_example =
    consumer_mysql-AllBalanced json channel pool order laws setup opens database (λ url w. refl) env
      parse_ip loaded runs [] ended.1 ended.0 from_env-loaded (omega arith) program_ends

abbrev pub pg_runs : List (List (Event Bytes))
pg_runs = Totals.quiet ∷ Totals.quiet ∷ []

abbrev pg_ended : Option Stop × List Bytes
pg_ended =
    behind_pool setup (postgres_run json Totals.chrono Totals.channel Totals.pool Totals.order)
      (postgres_settings loaded) pg_runs (ok tt, [])

pg_program_ends :
    consumer_postgres json Totals.chrono Totals.channel Totals.pool Totals.order setup database env
      parse_ip pg_runs []
    ≡ some (pg_ended.0, pg_ended.1)
unfolding consumer_postgres with_url
pg_program_ends = rw (from_env-loaded, consumer_postgres) refl

consumer_postgres-AllBalanced_example : AllBalanced (λ (w : List Bytes). w) pg_runs [] pg_ended.1
consumer_postgres-AllBalanced_example =
    consumer_postgres-AllBalanced json Totals.chrono Totals.channel Totals.pool Totals.order
      Totals.laws setup opens database (λ url w. refl) env parse_ip pg_runs [] pg_ended.1 pg_ended.0
      pg_program_ends
