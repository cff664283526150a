-- ===== src/Postgres/Program/Loaded.antt =====
-- src/bin/consumer_postgres.rs behind its configuration.
use realtime_ingestion.Base.{
  Option, none, some, List, inl, inr, refl, sym, ap, ◌∙◌, Option-cases, unwrap_or, ◌≡◌,
}
use realtime_ingestion.External.{JsonLib}
use realtime_ingestion.Consumer.{Channel, HashOrder, Event, Stop}
use realtime_ingestion.Text.{Text}
use realtime_ingestion.Config.{Config}
use realtime_ingestion.Config.Load.{Env, IpParser, from_env}
use realtime_ingestion.Consumer.Program.{ConsumerSetup, Database, behind_pool}
use realtime_ingestion.Postgres.Program.{
  postgres_settings, postgres_run, with_url, consumer_postgres,
}
use realtime_ingestion.Postgres.Batch.{PgPool}
use realtime_ingestion.Postgres.Row.{DailyRow, Chrono}
use realtime_ingestion.Postgres.Totals.{AggKey}

module _ {W D Json Date Time Offset : Type 0} (json : JsonLib Json)
    (chrono : Chrono Date Time Offset) (channel : Channel W D) (pool : PgPool W)
    (order : HashOrder (AggKey × DailyRow)) (setup : ConsumerSetup W) (database : Database W) where
  -- The runs of the program, whose worlds end in this one.
  pub record Ran (runs : List (List (Event D))) (w w' : W) : Type 0 where
    pub cfg : Config
    pub url : Text
    pub ended :
        (behind_pool setup
          (postgres_run json chrono channel pool order)
          (postgres_settings cfg)
          runs
          (database.pool url w)).1
        ≡ w'

  with_url-Ran :
      (cfg : Config) (runs : List (List (Event D))) (url : Option Text) (w w' : W)
      (stop : Option Stop)
      → with_url json chrono channel pool order setup database cfg runs url w ≡ some (stop, w')
      → Ran runs w w'
  unfolding with_url
  with_url-Ran cfg runs none w w' stop e = absurd (cc e)
  with_url-Ran cfg runs (some url) w w' stop e = record {
    cfg = cfg;
    url = url;
    ended = ap (λ (o : Option (Option Stop × W)). (unwrap_or o (stop, w')).1) e;
  }

  -- A program that does not panic at its start has its configuration and its URL.
  pub consumer_postgres-Ran :
      (env : Env) (parse_ip : IpParser) (runs : List (List (Event D))) (w w' : W)
      (stop : Option Stop)
      → consumer_postgres json chrono channel pool order setup database env parse_ip runs w
        ≡ some (stop, w')
      → Ran runs w w'
  unfolding consumer_postgres
  consumer_postgres-Ran env parse_ip runs w w' stop e =
      elim (Option-cases (from_env env parse_ip)) [
        | inl panics ↦ absurd (cc (sym (stopped panics) ∙ e))
        | inr (cfg, loaded) ↦
            with_url-Ran cfg runs cfg.postgres_url w w' stop (sym (behind cfg loaded) ∙ e)
      ]
    where
      stopped :
          from_env env parse_ip ≡ none
          → consumer_postgres json chrono channel pool order setup database env parse_ip runs w
            ≡ none
      stopped q = rw (q, consumer_postgres) refl

      behind :
          (cfg : Config)
          → from_env env parse_ip ≡ some cfg
          → consumer_postgres json chrono channel pool order setup database env parse_ip runs w
            ≡ with_url json chrono channel pool order setup database cfg runs cfg.postgres_url w
      behind cfg q = rw (q, consumer_postgres) refl
