-- ===== src/Consumer/Program.antt =====
-- The start of `run` in src/consumer/mysql.rs and src/consumer/postgres.rs, up to its loop, and the
-- loop of src/bin/consumer_mysql.rs and src/bin/consumer_postgres.rs over its runs.
pub mod Balance
pub mod Along
use realtime_ingestion.Base.{
  ℕ, Option, none, some, List, [], ◌∷◌, ◌++◌, ◌==◌, if◌then◌else◌, unwrap_or,
}
use realtime_ingestion.Text.{Text, to_string}
use realtime_ingestion.External.{Result, ok, err, Io, ◌>>=◌}
use realtime_ingestion.Consumer.{Event, Stop, finished, failed, panicked, prefetch_count}

-- The calls of lapin: the connection, its channel, the prefetch count, and the subscription to a
-- queue under a tag. The clock gives the nanoseconds since 1970, a number of at most twenty digits,
-- or `none` before.
pub record ConsumerSetup (W : Type 0) : Type 0 where
  pub connection : Text → Io W (Unit {0})
  pub create_channel : Io W (Unit {0})
  pub basic_qos : ℕ → Io W (Unit {0})
  pub basic_consume : Text → Text → Io W (Unit {0})
  pub as_nanos : W → Option ℕ

-- A database, opened by its URL.
pub record Database (W : Type 0) : Type 0 where
  pub pool : Text → Io W (Unit {0})

-- The settings of a run: its URL, its queue, the batch size and the interval.
pub record Settings : Type 0 where
  pub prefix : Text
  pub amqp_url : Text
  pub queue_name : Text
  pub batch_size : ℕ
  pub batch_interval_secs : ℕ

module _ {W : Type 0} (setup : ConsumerSetup W) where
  unfoldable pub subscribe : Text → Text → Io W (Unit {0})
  subscribe queue_name prefix w =
      setup.basic_consume queue_name (prefix ++ to_string (unwrap_or (setup.as_nanos w) 0)) w

  unfoldable pub open_consumer : Text → Text → Text → ℕ → Io W (Unit {0})
  unfolding subscribe prefetch_count
  open_consumer prefix amqp_url queue_name batch_size = do
    conn ← setup.connection amqp_url
    channel ← setup.create_channel
    qos ← setup.basic_qos (prefetch_count batch_size)
    subscribe queue_name prefix

  module _ {D : Type 0} (run : ℕ → List (Event D) → W → Option Stop × W) where
    -- Behind the subscription. `tokio::time::interval` panics on a period of zero. The vectors of
    -- the batch size are taken to fit in memory.
    unfoldable pub run_opened : Settings → List (Event D) → Result (Unit {0}) × W → Option Stop × W
    run_opened s es (err e, w) = (some failed, w)
    run_opened s es (ok u, w) =
        let r = run s.batch_size es w in
        if s.batch_interval_secs == 0 then (some panicked, w) else r

    unfoldable pub run_consumer : Settings → List (Event D) → W → Option Stop × W
    unfolding open_consumer run_opened
    run_consumer s es w =
        run_opened s es (open_consumer s.prefix s.amqp_url s.queue_name s.batch_size w)

    -- The next run, five seconds after one that has returned. A panic ends the program, and a run
    -- that has not stopped is the last.
    abbrev pub after_run : (W → Option Stop × W) → Option Stop × W → Option Stop × W
    after_run again (none, w) = (none, w)
    after_run again (some panicked, w) = (some panicked, w)
    after_run again (some finished, w) = again w
    after_run again (some failed, w) = again w

    unfoldable pub run_forever : Settings → List (List (Event D)) → W → Option Stop × W
    unfolding run_consumer
    run_forever s [] w = (none, w)
    run_forever s (es ∷ runs) w = after_run (run_forever s runs) (run_consumer s es w)

    -- The program behind its configuration, whose URL of the database may be missing.
    unfoldable pub behind_pool :
        Settings → List (List (Event D)) → Result (Unit {0}) × W → Option Stop × W
    unfolding run_forever
    behind_pool s runs (err e, w) = (some failed, w)
    behind_pool s runs (ok u, w) = run_forever s runs w
