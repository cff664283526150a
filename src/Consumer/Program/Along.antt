-- ===== src/Consumer/Program/Along.antt =====
-- What holds of each run of a consumer holds of src/bin/consumer_mysql.rs and
-- src/bin/consumer_postgres.rs, over all their runs: for a relation between worlds that composes.
use realtime_ingestion.Base.{ℕ, List, [], ◌∷◌, Bool-cases, Option, none, some, inl, inr, ◌==◌}
use realtime_ingestion.Text.{Text}
use realtime_ingestion.External.{Result, ok, err, Io, continue}
use realtime_ingestion.Consumer.{Stop, finished, failed, panicked, Event, prefetch_count}
use realtime_ingestion.Consumer.Program.{
  Settings, after_run, run_consumer, run_forever, run_opened, ConsumerSetup, subscribe,
  open_consumer, behind_pool,
}

module _ {W : Type 0} (R : W → W → Type 0) where
  -- The relation holds from each world to itself, and composes.
  pub record Composes : Type 0 where
    pub still : (w : W) → R w w
    pub chain : {u v w : W} → R u v → R v w → R u w

  -- It holds along each call at the start of a run.
  pub record OpensAlong (setup : ConsumerSetup W) : Type 0 where
    pub connection : (t : Text) (w : W) → R w (setup.connection t w).1
    pub create_channel : (w : W) → R w (setup.create_channel w).1
    pub basic_qos : (n : ℕ) (w : W) → R w (setup.basic_qos n w).1
    pub basic_consume : (q t : Text) (w : W) → R w (setup.basic_consume q t w).1

  module _ (rel : Composes) (setup : ConsumerSetup W) (opens : OpensAlong setup) where
    behind :
        {A B : Type 0} (w : W) (r : Result A × W) (f : A → Io W B)
        → R w r.1
        → ((a : A) (v : W) → R v (f a v).1)
        → R w (continue r f).1
    behind w (ok a, v) f h g = rel.chain h (g a v)
    behind w (err e, v) f h g = h

    open_consumer-along :
        (prefix amqp_url queue_name : Text) (n : ℕ) (w : W)
        → R w (open_consumer setup prefix amqp_url queue_name n w).1
    unfolding open_consumer subscribe
    open_consumer-along prefix amqp_url queue_name n w =
        behind w (setup.connection amqp_url w) _ (opens.connection amqp_url w) (λ a v.
          behind v (setup.create_channel v) _ (opens.create_channel v) (λ b u.
            behind u (setup.basic_qos (prefetch_count n) u) _ (opens.basic_qos _ u)
              (λ c x. opens.basic_consume queue_name _ x)))

    module _ {D : Type 0} (run : ℕ → List (Event D) → W → Option Stop × W) (s : Settings)
        (each : (es : List (Event D)) (w : W) → R w (run s.batch_size es w).1) where
      run_opened-along :
          (es : List (Event D)) (w : W) (r : Result (Unit {0}) × W)
          → R w r.1
          → R w (run_opened setup run s es r).1
      unfolding run_opened
      run_opened-along es w (err e, v) h = h
      run_opened-along es w (ok u, v) h = elim (Bool-cases (s.batch_interval_secs == 0)) [
        | inl zero_interval ↦ rw zero_interval h
        | inr positive ↦ rw positive (rel.chain h (each es v))
      ]

      run_consumer-along : (es : List (Event D)) (w : W) → R w (run_consumer setup run s es w).1
      unfolding run_consumer
      run_consumer-along es w =
          run_opened-along es w
            (open_consumer setup s.prefix s.amqp_url s.queue_name s.batch_size w)
            (open_consumer-along s.prefix s.amqp_url s.queue_name s.batch_size w)

      after_run-along :
          (w : W) (again : W → Option Stop × W) (r : Option Stop × W)
          → R w r.1
          → ((v : W) → R v (again v).1)
          → R w (after_run setup run again r).1
      after_run-along w again (none, v) h g = h
      after_run-along w again (some panicked, v) h g = h
      after_run-along w again (some finished, v) h g = rel.chain h (g v)
      after_run-along w again (some failed, v) h g = rel.chain h (g v)

      run_forever-along :
          (runs : List (List (Event D))) (w : W) → R w (run_forever setup run s runs w).1
      unfolding run_forever
      run_forever-along [] w = rel.still w
      run_forever-along (es ∷ runs) w =
          after_run-along w (run_forever setup run s runs) (run_consumer setup run s es w)
            (run_consumer-along es w) (run_forever-along runs)

      pub behind_pool-along :
          (runs : List (List (Event D))) (w : W) (r : Result (Unit {0}) × W)
          → R w r.1
          → R w (behind_pool setup run s runs r).1
      unfolding behind_pool
      behind_pool-along runs w (err e, v) h = h
      behind_pool-along runs w (ok u, v) h = rel.chain h (run_forever-along runs v)
