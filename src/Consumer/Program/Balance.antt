-- ===== src/Consumer/Program/Balance.antt =====
-- What becomes of the deliveries over the runs of a consumer: src/bin/consumer_mysql.rs and
-- src/bin/consumer_postgres.rs.
use realtime_ingestion.Base.{
  ℕ, ◌≡◌, refl, sym, ◌∙◌, subst, List, [], ◌∷◌, ◌++◌, append_assoc, Bool-cases, Option, none, some,
  inl, inr, ◌==◌,
}
use mathlib.Core.List.{Permᴰ}
use mathlib.Core.List.Permᴰ
use realtime_ingestion.Text.{Text}
use realtime_ingestion.External.{Result, ok, err, Io, continue}
use realtime_ingestion.Consumer.{Stop, finished, failed, panicked, Event, prefetch_count}
use realtime_ingestion.Consumer.Arrived.{arrived, exchange}
use realtime_ingestion.Consumer.Program.{
  Settings, after_run, run_consumer, run_forever, run_opened, ConsumerSetup, subscribe,
  open_consumer, behind_pool,
}

-- The deliveries of fronts of the first runs.
pub data Seen {D : Type 0} : List (List (Event D)) → List D → Type 0 where
  no_more : {runs : List (List (Event D))} → Seen runs []
  front :
      {runs : List (List (Event D))} {ds : List D} (took rest : List (Event D))
      → Seen runs ds
      → Seen ((took ++ rest) ∷ runs) (arrived took ++ ds)

module _ {W D : Type 0} (settled : W → List D) where
  -- From `w` to `w'` these deliveries were seen: each was settled once, or is left to the broker,
  -- which delivers it again; no other was settled.
  pub record Balanced (w : W) (seen : List D) (w' : W) : Type 0 where
    pub left : List D
    pub balance : Permᴰ (left ++ settled w') (seen ++ settled w)

  unchanged : (w w' : W) → settled w' ≡ settled w → Balanced w [] w'
  unchanged w w' e = record {
    left = [];
    balance = subst (λ ds. Permᴰ ds (settled w)) (sym e) (Permᴰ.refl (settled w));
  }

  shifted :
      (w v : W) {seen : List D} {w' : W}
      → settled v ≡ settled w
      → Balanced v seen w'
      → Balanced w seen w'
  shifted w v {seen} {w'} e b = record {
    left = b.left;
    balance = subst (λ ds. Permᴰ (b.left ++ settled w') (seen ++ ds)) e b.balance;
  }

  then-Balanced :
      (w v : W) {w' : W} (s t : List D) → Balanced w s v → Balanced v t w' → Balanced w (s ++ t) w'
  then-Balanced w v {w'} s t first second = record {
    left = first.left ++ second.left;
    balance =
        rw (append_assoc first.left second.left (settled w'), append_assoc s t (settled w))
          (Permᴰ.trans (Permᴰ.append_left first.left second.balance) (
            Permᴰ.trans (exchange first.left t (settled v))
              (Permᴰ.trans (Permᴰ.append_left t first.balance) (exchange t s (settled w)))));
  }

  -- The calls at the start of a run settle nothing.
  pub record OpenLaws (setup : ConsumerSetup W) : Type 0 where
    pub connection : (t : Text) (w : W) → settled (setup.connection t w).1 ≡ settled w
    pub create_channel : (w : W) → settled (setup.create_channel w).1 ≡ settled w
    pub basic_qos : (n : ℕ) (w : W) → settled (setup.basic_qos n w).1 ≡ settled w
    pub basic_consume : (q t : Text) (w : W) → settled (setup.basic_consume q t w).1 ≡ settled w

  then_same :
      {A B : Type 0} (r : Result A × W) (f : A → Io W B)
      → ((a : A) (v : W) → settled (f a v).1 ≡ settled v)
      → settled (continue r f).1 ≡ settled r.1
  then_same (ok a, v) f h = h a v
  then_same (err e, v) f h = refl

  module _ (setup : ConsumerSetup W) (laws : OpenLaws setup) where
    open_consumer-same :
        (prefix amqp_url queue_name : Text) (n : ℕ) (w : W)
        → settled (open_consumer setup prefix amqp_url queue_name n w).1 ≡ settled w
    unfolding open_consumer subscribe
    open_consumer-same prefix amqp_url queue_name n w =
        then_same (setup.connection amqp_url w) _ (λ a v.
          then_same (setup.create_channel v) _ (λ b u.
            then_same (setup.basic_qos (prefetch_count n) u) _
              (λ c x. laws.basic_consume queue_name _ x)
            ∙ laws.basic_qos (prefetch_count n) u)
          ∙ laws.create_channel v)
        ∙ laws.connection amqp_url w

  -- A run saw a front of its events.
  pub record RunBalanced (es : List (Event D)) (w w' : W) : Type 0 where
    pub took : List (Event D)
    pub rest : List (Event D)
    pub split : es ≡ took ++ rest
    pub balanced : Balanced w (arrived took) w'

  pub record AllBalanced (runs : List (List (Event D))) (w w' : W) : Type 0 where
    pub seen : List D
    pub fronts : Seen runs seen
    pub balanced : Balanced w seen w'

  saw_nothing : (es : List (Event D)) (w w' : W) → settled w' ≡ settled w → RunBalanced es w w'
  saw_nothing es w w' e = record { took = []; rest = es; split = refl; balanced = unchanged w w' e }

  nothing_seen :
      (runs : List (List (Event D))) (w w' : W) → settled w' ≡ settled w → AllBalanced runs w w'
  nothing_seen runs w w' e = record { seen = []; fronts = no_more; balanced = unchanged w w' e }

  shifted_all :
      (runs : List (List (Event D))) (w v : W) {w' : W}
      → settled v ≡ settled w
      → AllBalanced runs v w'
      → AllBalanced runs w w'
  shifted_all runs w v e b = record {
    seen = b.seen;
    fronts = b.fronts;
    balanced = shifted w v e b.balanced;
  }

  module _ (setup : ConsumerSetup W) (laws : OpenLaws setup)
      (run : ℕ → List (Event D) → W → Option Stop × W) (s : Settings)
      (balanced_run : (es : List (Event D)) (w : W)
        → RunBalanced es w (run s.batch_size es w).1) where
    run_opened-RunBalanced :
        (es : List (Event D)) (w : W) (r : Result (Unit {0}) × W)
        → settled r.1 ≡ settled w
        → RunBalanced es w (run_opened setup run s es r).1
    unfolding run_opened
    run_opened-RunBalanced es w (err e, v) h = saw_nothing es w v h
    run_opened-RunBalanced es w (ok u, v) h = elim (Bool-cases (s.batch_interval_secs == 0)) [
      | inl zero_interval ↦ rw zero_interval (saw_nothing es w v h)
      | inr positive ↦
          let b = balanced_run es v in
          rw positive (record {
            took = b.took;
            rest = b.rest;
            split = b.split;
            balanced = shifted w v h b.balanced;
          })
    ]

    run_consumer-RunBalanced :
        (es : List (Event D)) (w : W) → RunBalanced es w (run_consumer setup run s es w).1
    unfolding run_consumer
    run_consumer-RunBalanced es w =
        run_opened-RunBalanced es w
          (open_consumer setup s.prefix s.amqp_url s.queue_name s.batch_size w)
          (open_consumer-same setup laws s.prefix s.amqp_url s.queue_name s.batch_size w)

    joined :
        (es : List (Event D)) (runs : List (List (Event D))) (w v : W) {w' : W}
        → RunBalanced es w v
        → AllBalanced runs v w'
        → AllBalanced (es ∷ runs) w w'
    joined es runs w v one more = record {
      seen = arrived one.took ++ more.seen;
      fronts =
          subst (λ x. Seen (x ∷ runs) (arrived one.took ++ more.seen)) (sym one.split)
            (front one.took one.rest more.fronts);
      balanced = then-Balanced w v (arrived one.took) more.seen one.balanced more.balanced;
    }

    after_run-AllBalanced :
        (es : List (Event D)) (runs : List (List (Event D))) (w : W) (r : Option Stop × W)
        → RunBalanced es w r.1
        → ((v : W) → AllBalanced runs v (run_forever setup run s runs v).1)
        → AllBalanced (es ∷ runs) w (after_run setup run (run_forever setup run s runs) r).1
    after_run-AllBalanced es runs w (none, v) b again =
        joined es runs w v b (nothing_seen runs v v refl)
    after_run-AllBalanced es runs w (some panicked, v) b again =
        joined es runs w v b (nothing_seen runs v v refl)
    after_run-AllBalanced es runs w (some finished, v) b again = joined es runs w v b (again v)
    after_run-AllBalanced es runs w (some failed, v) b again = joined es runs w v b (again v)

    run_forever-AllBalanced :
        (runs : List (List (Event D))) (w : W)
        → AllBalanced runs w (run_forever setup run s runs w).1
    unfolding run_forever
    run_forever-AllBalanced [] w = nothing_seen [] w w refl
    run_forever-AllBalanced (es ∷ runs) w =
        after_run-AllBalanced es runs w (run_consumer setup run s es w)
          (run_consumer-RunBalanced es w) (run_forever-AllBalanced runs)

    pub behind_pool-AllBalanced :
        (runs : List (List (Event D))) (w : W) (r : Result (Unit {0}) × W)
        → settled r.1 ≡ settled w
        → AllBalanced runs w (behind_pool setup run s runs r).1
    unfolding behind_pool
    behind_pool-AllBalanced runs w (err e, v) h = nothing_seen runs w v h
    behind_pool-AllBalanced runs w (ok u, v) h =
        shifted_all runs w v h (run_forever-AllBalanced runs v)
