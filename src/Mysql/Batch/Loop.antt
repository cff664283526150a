-- ===== src/Mysql/Batch/Loop.antt =====
-- What becomes of the deliveries in the loop of src/consumer/mysql.rs.
use realtime_ingestion.Base.{
  ℕ, ◌<◌, ◌≡◌, refl, Option, none, some, List, [], ◌∷◌, ◌++◌, append_assoc, length, length-append,
  is_empty, leb, inl, inr, Bool-cases, ap, not_leb→lt, arith,
}
use mathlib.Core.List.{Permᴰ}
use mathlib.Core.List.Permᴰ
use realtime_ingestion.Text.{Text}
use realtime_ingestion.Models.{QueueMessage}
use realtime_ingestion.External.{Result, ok, err, JsonLib}
use realtime_ingestion.Consumer.{
  Channel, HashOrder, Event, closed, channel_error, tick, delivered, Stop,
}
use realtime_ingestion.Mysql.Row.{KiccRow, to_kicc_row}
use realtime_ingestion.Mysql.Batch.{
  MySqlPool, Batch, flushed, flush_if_full, store_row, store, after_store, step, after_step, run,
}
use realtime_ingestion.Mysql.Batch.Settle.{SettleLaws, flush-settled}
use realtime_ingestion.Consumer.Arrived.{arrived, arrived-cons, exchange}

-- The two vectors belong together, and are shorter than a full batch.
pub record IsFilling {W D : Type 0} (batch_size : ℕ) (b : Batch W D) : Type 0 where
  pub paired : length b.deliveries ≡ length b.rows
  pub short : length b.rows < batch_size

module _ {W D Json : Type 0} (json : JsonLib Json) (channel : Channel W D) (pool : MySqlPool W)
    (order : HashOrder (Text × List (D × KiccRow))) (laws : SettleLaws channel pool) where
  -- The deliveries that the batch holds, and those that are settled.
  abbrev pub known : Batch W D → List D
  known b = b.deliveries ++ laws.broker.settled b.world

  -- What an event does: it stops the loop and settles nothing, or its delivery becomes known.
  abbrev pub Stepped : ℕ → Event D → Batch W D → Option Stop × Batch W D → Type 0
  Stepped n e b (some s, b') = IsFilling n b' × Permᴰ (known b') (known b)
  Stepped n e b (none, b') = IsFilling n b' × Permᴰ (known b') (arrived (e ∷ []) ++ known b)

  pub flushed-known :
      (b : Batch W D)
      → length b.deliveries ≡ length b.rows
      → Permᴰ (known (flushed json channel pool order b)) (known b)
  flushed-known b e = flush-settled json channel pool order laws b.deliveries b.rows b.world e

  flushed-IsFilling :
      (n : ℕ) (b : Batch W D) → 0 < n → IsFilling n (flushed json channel pool order b)
  flushed-IsFilling n b h = record { paired = refl; short = h }

  flush_if_full-known :
      (n : ℕ) (b : Batch W D)
      → 0 < n
      → length b.deliveries ≡ length b.rows
      → IsFilling n (flush_if_full json channel pool order n b)
        × Permᴰ (known (flush_if_full json channel pool order n b)) (known b)
  unfolding flush_if_full
  flush_if_full-known n b h e = elim (Bool-cases (leb n (length b.rows))) [
    | inl full ↦ rw full (flushed-IsFilling n b h, flushed-known b e)
    | inr more ↦
        rw more
          (record { paired = e; short = not_leb→lt n (length b.rows) more }, Permᴰ.refl (known b))
  ]

  Stored : D → Batch W D → Option (Batch W D) → Type 0
  Stored d b none = Unit
  Stored d b (some b') = (length b'.deliveries ≡ length b'.rows) × Permᴰ (known b') (d ∷ known b)

  store_row-Stored :
      (n : ℕ) (d : D) (b : Batch W D) (r : Option (Option KiccRow))
      → IsFilling n b
      → Stored d b (store_row json channel pool order d r b)
  unfolding Stored store_row
  store_row-Stored n d b none i = tt
  store_row-Stored n d b (some none) i = (
    i.paired,
    rw (laws.broker.ack d b.world) (Permᴰ.middle d b.deliveries (laws.broker.settled b.world)),
  )
  store_row-Stored n d b (some (some row)) i = (
    omega (arith, i.paired, length-append b.deliveries (d ∷ []), length-append b.rows (row ∷ [])),
    rw (append_assoc b.deliveries (d ∷ []) (laws.broker.settled b.world))
        (Permᴰ.middle d b.deliveries (laws.broker.settled b.world)),
  )

  store-Stored :
      (n : ℕ) (d : D) (b : Batch W D) (r : Result (QueueMessage Json))
      → IsFilling n b
      → Stored d b (store json channel pool order d r b)
  unfolding Stored store
  store-Stored n d b (err e) i = (
    i.paired,
    rw (laws.broker.nack d b.world) (Permᴰ.middle d b.deliveries (laws.broker.settled b.world)),
  )
  store-Stored n d b (ok msg) i = unfold Stored in store_row-Stored n d b (to_kicc_row json msg) i

  after_store-Stepped :
      (n : ℕ) (d : D) (b : Batch W D) (r : Option (Batch W D))
      → 0 < n
      → IsFilling n b
      → Stored d b r
      → Stepped n (delivered d) b (after_store json channel pool order n b r)
  unfolding Stored after_store
  after_store-Stepped n d b none h i s = (i, Permᴰ.refl (known b))
  after_store-Stepped n d b (some b') h i (e, p) =
      let f = flush_if_full-known n b' h e in (f.0, Permᴰ.trans f.1 p)

  pub step-Stepped :
      (n : ℕ) (e : Event D) (b : Batch W D)
      → 0 < n
      → IsFilling n b
      → Stepped n e b (step json channel pool order n e b)
  unfolding step
  step-Stepped n closed b h i = (i, Permᴰ.refl (known b))
  step-Stepped n channel_error b h i = (
    record { paired = i.paired; short = i.short },
    rw (laws.broker.notify _ b.world) (Permᴰ.refl (known b)),
  )
  step-Stepped n tick b h i = elim (Bool-cases (is_empty b.rows)) [
    | inl empty ↦ rw empty (i, Permᴰ.refl (known b))
    | inr some_rows ↦ rw some_rows (flushed-IsFilling n b h, flushed-known b i.paired)
  ]
  step-Stepped n (delivered d) b h i =
      after_store-Stepped n d b _ h i (store-Stored n d b (json.from_slice (channel.payload d)) i)

  -- The loop took `took`, and left `rest`, which is nothing unless it stopped.
  pub record Ran (n : ℕ) (es : List (Event D)) (b : Batch W D) (r : Option Stop × Batch W D)
      : Type 0 where
    pub took : List (Event D)
    pub rest : List (Event D)
    pub split : es ≡ took ++ rest
    pub to_the_end : r.0 ≡ none → rest ≡ []
    pub filling : IsFilling n r.1
    pub balance : Permᴰ (known r.1) (arrived took ++ known b)

  taken :
      (n : ℕ) (e : Event D) (es : List (Event D)) (b b' : Batch W D) (r : Option Stop × Batch W D)
      → Permᴰ (known b') (arrived (e ∷ []) ++ known b)
      → Ran n es b' r
      → Ran n (e ∷ es) b r
  taken n e es b b' r p ran = record {
    took = e ∷ ran.took;
    rest = ran.rest;
    split = ap (◌∷◌ e) ran.split;
    to_the_end = ran.to_the_end;
    filling = ran.filling;
    balance = Permᴰ.trans ran.balance (
        Permᴰ.trans (Permᴰ.append_left (arrived ran.took) p) (
          rw (arrived-cons e ran.took (known b))
            (exchange (arrived ran.took) (arrived (e ∷ [])) (known b))));
  }

  after_step-Ran :
      (n : ℕ) (e : Event D) (es : List (Event D)) (b : Batch W D) (r : Option Stop × Batch W D)
      → Stepped n e b r
      → ((b' : Batch W D) → IsFilling n b' → Ran n es b' (run json channel pool order n es b'))
      → Ran n (e ∷ es) b (after_step json channel pool order (run json channel pool order n es) r)
  after_step-Ran n e es b (some s, b') (i, p) again = record {
    took = [];
    rest = e ∷ es;
    split = refl;
    to_the_end = λ h. cc;
    filling = i;
    balance = p;
  }
  after_step-Ran n e es b (none, b') (i, p) again =
      taken n e es b b' (run json channel pool order n es b') p (again b' i)

  -- Whatever the loop sees, and wherever it stops, it took a front of the events, all of them unless
  -- it stopped; the deliveries in the batch and the settled ones are, each as often, those that it
  -- took and those known before; and the batch is shorter than the batch size. This holds for a
  -- batch size above 0, a batch shorter than it at the start, and a broker whose record changes
  -- only by `ack` and `nack`.
  pub run-Ran :
      (n : ℕ) (es : List (Event D)) (b : Batch W D)
      → 0 < n
      → IsFilling n b
      → Ran n es b (run json channel pool order n es b)
  unfolding run
  run-Ran n [] b h i = record {
    took = [];
    rest = [];
    split = refl;
    to_the_end = λ e. refl;
    filling = i;
    balance = Permᴰ.refl (known b);
  }
  run-Ran n (e ∷ es) b h i =
      after_step-Ran n e es b (step json channel pool order n e b) (step-Stepped n e b h i)
        (λ b' i'. run-Ran n es b' h i')
