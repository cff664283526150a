-- ===== src/Tests/Books.antt =====
-- The books of the two consumers at concrete inputs. The world is the acknowledged deliveries and
-- what stands in the database; MySQL refuses one table, `kicc_b`.
use realtime_ingestion.Base.{
  sum_of, ℕ, ◌+◌, ◌%◌, ◌≡◌, refl, sym, ap, ◌∙◌, arith, some, List, [], ◌∷◌, Bytes, length, Option,
}
use realtime_ingestion.Text.{Text, codes}
use realtime_ingestion.External.{Result, ok, err, Error}
use realtime_ingestion.Consumer.{Channel, Stop}
use realtime_ingestion.Consumer.Ledger.{Ledger, Booked, Booked-refl, BookLaws}
use realtime_ingestion.Consumer.Program.{ConsumerSetup, Database, behind_pool}
use realtime_ingestion.Consumer.Program.Along.{OpensAlong}
use realtime_ingestion.Mysql.Row.{KiccRow}
use realtime_ingestion.Mysql.Batch.{MySqlPool}
use realtime_ingestion.Mysql.Batch.Books.{Query, hit, TableLaws, tables}
use realtime_ingestion.Mysql.Program.{mysql_settings, mysql_run, consumer_mysql}
use realtime_ingestion.Mysql.Program.Booked.{consumer_mysql-Booked}
use realtime_ingestion.Postgres.Row.{DailyRow}
use realtime_ingestion.Postgres.Totals.{AggKey}
use realtime_ingestion.Postgres.Totals.Sums.{Column, brought, modulus}
use realtime_ingestion.Postgres.Batch.{PgPool}
use realtime_ingestion.Postgres.Batch.Books.{TotalsLaws, totals}
use realtime_ingestion.Postgres.Program.{
  postgres_settings, postgres_run, with_url, consumer_postgres,
}
use realtime_ingestion.Postgres.Program.Booked.{consumer_postgres-Booked}
use realtime_ingestion.Tests.Codec.{json}
use realtime_ingestion.Tests.Config.{env, parse_ip, loaded, from_env-loaded}
use realtime_ingestion.Tests.Consumer.{insert_into, order}
use realtime_ingestion.Tests.Programs.{runs, pg_runs}
use realtime_ingestion.Tests.Postgres as Totals

-- `A` names the numbers that are read off the database.
record Store (A : Type 0) : Type 0 where
  acked : List Bytes
  numbers : A → ℕ

abbrev blank : {A : Type 0} → Store A
blank = record { acked = []; numbers = λ a. 0 }

abbrev channel : {A : Type 0} → Channel (Store A) Bytes
channel = record {
  payload = λ d. d;
  ack = λ d w. record w { acked = d ∷ w.acked };
  nack = λ d w. w;
  notify = λ t w. w;
}

abbrev setup : {A : Type 0} → ConsumerSetup (Store A)
setup = record {
  connection = λ url w. (ok tt, w);
  create_channel = λ w. (ok tt, w);
  basic_qos = λ n w. (ok tt, w);
  basic_consume = λ queue tag w. (ok tt, w);
  as_nanos = λ w. some 7;
}

abbrev database : {A : Type 0} → Database (Store A)
database = record { pool = λ url w. (ok tt, w) }

opens : {A : Type 0} (ledger : Ledger (Store A) Bytes) → OpensAlong (Booked ledger) setup
opens ledger = record {
  connection = λ url w. Booked-refl ledger w;
  create_channel = λ w. Booked-refl ledger w;
  basic_qos = λ n w. Booked-refl ledger w;
  basic_consume = λ queue tag w. Booked-refl ledger w;
}

-- MySQL.
abbrev written : Result ℕ → Text → List KiccRow → Store Query → Result ℕ × Store Query
written (ok n) t rows w = (ok n, record w { numbers = λ q. sum_of (hit q t) rows + w.numbers q })
written (err e) t rows w = (err e, w)

abbrev pool : MySqlPool (Store Query)
pool = record {
  execute = λ t rows w. written (insert_into t (length rows)) t rows w;
  error_code = λ e. codes "query_error";
}

written-ok :
    (r : Result ℕ) (t : Text) (rows : List KiccRow) (w w' : Store Query) (n : ℕ)
    → written r t rows w ≡ (ok n, w')
    → (q : Query) → w'.numbers q ≡ sum_of (hit q t) rows + w.numbers q
written-ok (ok m) t rows w w' n e q = sym (ap (λ (r : Result ℕ × Store Query). r.1.numbers q) e)
written-ok (err x) t rows w w' n e q = absurd (cc e)

written-err :
    (r : Result ℕ) (t : Text) (rows : List KiccRow) (w w' : Store Query) (x : Error)
    → written r t rows w ≡ (err x, w')
    → (q : Query) → w'.numbers q ≡ w.numbers q
written-err (ok m) t rows w w' x e q = absurd (cc e)
written-err (err y) t rows w w' x e q = sym (ap (λ (r : Result ℕ × Store Query). r.1.numbers q) e)

written-acked :
    (r : Result ℕ) (t : Text) (rows : List KiccRow) (w : Store Query)
    → (written r t rows w).1.acked ≡ w.acked
written-acked (ok m) t rows w = refl
written-acked (err x) t rows w = refl

abbrev laws : TableLaws pool (λ (w : Store Query). w.acked)
laws = record {
  count = λ q w. w.numbers q;
  inserted = λ t rows w w' n. written-ok (insert_into t (length rows)) t rows w w' n;
  failed = λ t rows w w' x. written-err (insert_into t (length rows)) t rows w w' x;
  execute = λ t rows w. written-acked (insert_into t (length rows)) t rows w;
}

abbrev inserted : Ledger (Store Query) Bytes
inserted = tables json channel pool order (λ (w : Store Query). w.acked) laws

abbrev inserted-books : BookLaws inserted channel
inserted-books = record {
  ack = λ d w. refl;
  ack_books = λ d w q. refl;
  nack = λ d w. record { acks = refl; books = λ q. refl };
  notify = λ t w. record { acks = refl; books = λ q. refl };
}

abbrev ended : Option Stop × Store Query
ended =
    behind_pool setup (mysql_run json channel pool order) (mysql_settings loaded) runs
      (ok tt, blank)

ends :
    consumer_mysql json channel pool order setup database env parse_ip runs blank
    ≡ some (ended.0, ended.1)
unfolding consumer_mysql
ends = rw (from_env-loaded, consumer_mysql) refl

consumer_mysql-Booked_example : Booked inserted blank ended.1
consumer_mysql-Booked_example =
    consumer_mysql-Booked json channel pool order (λ (w : Store Query). w.acked) laws inserted-books
      setup (opens inserted) database (λ url w. Booked-refl inserted w) env parse_ip runs blank
      ended.1 ended.0 ends

-- PostgreSQL, which takes every statement.
abbrev Total : Type 0
Total = AggKey × Column

abbrev pg_pool : PgPool (Store Total)
pg_pool = record {
  execute = λ rows w. (
    ok (length rows),
    record w { numbers = λ a. (brought a.1 a.0 rows + w.numbers a) % modulus a.1 },
  );
  error_code = λ e. codes "query_error";
}

mod_twice : (n : ℕ) (c : Column) → n % modulus c % modulus c ≡ n % modulus c
mod_twice n Column.card_amount = omega arith
mod_twice n Column.card_count = omega arith
mod_twice n Column.cash_amount = omega arith
mod_twice n Column.cash_count = omega arith
mod_twice n Column.cancel_amount = omega arith
mod_twice n Column.cancel_count = omega arith
mod_twice n Column.other_amount = omega arith
mod_twice n Column.other_count = omega arith

pg_failed :
    (rows : List DailyRow) (w w' : Store Total) (e : Error)
    → pg_pool.execute rows w ≡ (err e, w')
    → (a : Total) → w'.numbers a ≡ w.numbers a
pg_failed rows w w' e q a = absurd (cc q)

abbrev pg_laws : TotalsLaws pg_pool (λ (w : Store Total). w.acked)
pg_laws = record {
  total = λ a w. w.numbers a;
  inserted = λ rows w w' n e u a.
      ap (λ (r : Result ℕ × Store Total). r.1.numbers a % modulus a.1) (sym e)
      ∙ mod_twice (brought a.1 a.0 rows + w.numbers a) a.1;
  failed = pg_failed;
  execute = λ rows w. refl;
}

abbrev summed : Ledger (Store Total) Bytes
summed =
    totals json Totals.chrono channel pg_pool Totals.order (λ (w : Store Total). w.acked) pg_laws

abbrev summed-books : BookLaws summed channel
summed-books = record {
  ack = λ d w. refl;
  ack_books = λ d w q. refl;
  nack = λ d w. record { acks = refl; books = λ q. refl };
  notify = λ t w. record { acks = refl; books = λ q. refl };
}

abbrev pg_ended : Option Stop × Store Total
pg_ended =
    behind_pool setup (postgres_run json Totals.chrono channel pg_pool Totals.order)
      (postgres_settings loaded) pg_runs (ok tt, blank)

pg_ends :
    consumer_postgres json Totals.chrono channel pg_pool Totals.order setup database env parse_ip
      pg_runs blank
    ≡ some (pg_ended.0, pg_ended.1)
unfolding consumer_postgres with_url
pg_ends = rw (from_env-loaded, consumer_postgres) refl

consumer_postgres-Booked_example : Booked summed blank pg_ended.1
consumer_postgres-Booked_example =
    consumer_postgres-Booked json Totals.chrono channel pg_pool Totals.order
      (λ (w : Store Total). w.acked) pg_laws summed-books setup (opens summed) database
      (λ url w. Booked-refl summed w) env parse_ip pg_runs blank pg_ended.1 pg_ended.0 pg_ends
