-- ===== src/Postgres/Batch/Journal.antt =====
-- The loop of src/consumer/postgres.rs keeps the books: the daily totals grow by what the
-- acknowledged deliveries bring.
use realtime_ingestion.Base.{
  ℕ, ◌≡◌, refl, Option, none, some, List, [], ◌∷◌, ◌++◌, is_empty, length, leb, inl, inr,
  Bool-cases,
}
use realtime_ingestion.Models.{QueueMessage}
use realtime_ingestion.External.{Result, ok, err, JsonLib}
use realtime_ingestion.Consumer.{
  Channel, HashOrder, Event, closed, channel_error, tick, delivered, Stop,
}
use realtime_ingestion.Consumer.Ledger.{Booked, Unmoved-Booked, Booked-refl, Booked-trans, BookLaws}
use realtime_ingestion.Postgres.Row.{DailyRow, Chrono}
use realtime_ingestion.Postgres.Totals.{AggKey}
use realtime_ingestion.Postgres.Batch.{
  PgPool, Batch, and_then, flushed, flush_if_full, store, step, run,
}
use realtime_ingestion.Postgres.Batch.Books.{TotalsLaws, totals, Paired, flush-Booked}

module _ {W D Json Date Time Offset : Type 0} (json : JsonLib Json)
    (chrono : Chrono Date Time Offset) (channel : Channel W D) (pool : PgPool W)
    (order : HashOrder (AggKey × DailyRow)) (acked : W → List D) (laws : TotalsLaws pool acked)
    (books : BookLaws (totals json chrono channel pool order acked laws) channel) where
  abbrev BookedTo : W → W → Type 0
  BookedTo w w' = Booked (totals json chrono channel pool order acked laws) w w'

  abbrev Pairs : List D → List (QueueMessage Json) → Type 0
  Pairs ds msgs = Paired json chrono channel pool order acked laws books ds msgs

  -- From the world `w`: the books are right, and the vectors belong together.
  record Kept (w : W) (b : Batch W D Json) : Type 0 where
    paired : Pairs b.deliveries b.messages
    booked : BookedTo w b.world

  Paired-snoc :
      (d : D) (msg : QueueMessage Json) (ds : List D) (msgs : List (QueueMessage Json))
      → json.from_slice (channel.payload d) ≡ ok msg
      → Pairs ds msgs
      → Pairs (ds ++ d ∷ []) (msgs ++ msg ∷ [])
  Paired-snoc d msg [] [] e p = (e, tt)
  Paired-snoc d msg [] (m ∷ msgs) e p = absurd p
  Paired-snoc d msg (x ∷ ds) [] e p = absurd p
  Paired-snoc d msg (x ∷ ds) (m ∷ msgs) e p = (p.0, Paired-snoc d msg ds msgs e p.1)

  flushed-Kept :
      (w : W) (b : Batch W D Json) → Kept w b → Kept w (flushed json chrono channel pool order b).1
  unfolding flushed
  flushed-Kept w b k = record {
    paired = tt;
    booked = Booked-trans (totals json chrono channel pool order acked laws) k.booked (
        flush-Booked json chrono channel pool order acked laws books b.deliveries b.messages b.world
          k.paired);
  }

  flush_if_full-Kept :
      (n : ℕ) (w : W) (b : Batch W D Json)
      → Kept w b
      → Kept w (flush_if_full json chrono channel pool order n b).1
  unfolding flush_if_full
  flush_if_full-Kept n w b k = elim (Bool-cases (leb n (length b.messages))) [
    | inl full ↦ rw full (flushed-Kept w b k)
    | inr more ↦ rw more k
  ]

  store-Kept :
      (d : D) (r : Result (QueueMessage Json)) (w : W) (b : Batch W D Json)
      → json.from_slice (channel.payload d) ≡ r
      → Kept w b
      → Kept w (store json chrono channel pool order d r b)
  unfolding store
  store-Kept d (err e) w b q k = record {
    paired = k.paired;
    booked =
        Booked-trans (totals json chrono channel pool order acked laws) k.booked (
          Unmoved-Booked (totals json chrono channel pool order acked laws) (books.nack d b.world));
  }
  store-Kept d (ok msg) w b q k = record {
    paired = Paired-snoc d msg b.deliveries b.messages q k.paired;
    booked = k.booked;
  }

  step-Kept :
      (n : ℕ) (e : Event D) (w : W) (b : Batch W D Json)
      → Kept w b
      → Kept w (step json chrono channel pool order n e b).1
  unfolding step
  step-Kept n closed w b k = k
  step-Kept n channel_error w b k = record {
    paired = k.paired;
    booked = Booked-trans (totals json chrono channel pool order acked laws) k.booked (
        Unmoved-Booked (totals json chrono channel pool order acked laws) (books.notify _ b.world));
  }
  step-Kept n tick w b k = elim (Bool-cases (is_empty b.messages)) [
    | inl empty ↦ rw empty k
    | inr filled ↦ rw filled (flushed-Kept w b k)
  ]
  step-Kept n (delivered d) w b k =
      flush_if_full-Kept n w _ (store-Kept d (json.from_slice (channel.payload d)) w b refl k)

  next-Kept :
      (w : W) (again : Batch W D Json → Option Stop × Batch W D Json)
      (r : Option Stop × Batch W D Json)
      → Kept w r.1
      → ((b : Batch W D Json) → Kept w b → Kept w (again b).1)
      → Kept w (and_then again r (λ x. x)).1
  next-Kept w again (some s, b) k h = k
  next-Kept w again (none, b) k h = h b k

  run-Kept :
      (n : ℕ) (es : List (Event D)) (w : W) (b : Batch W D Json)
      → Kept w b
      → Kept w (run json chrono channel pool order n es b).1
  unfolding run
  run-Kept n [] w b k = k
  run-Kept n (e ∷ es) w b k =
      next-Kept w (run json chrono channel pool order n es)
        (step json chrono channel pool order n e b) (step-Kept n e w b k)
        (λ x h. run-Kept n es w x h)

  -- A run that begins with empty vectors.
  pub run-Booked :
      (n : ℕ) (es : List (Event D)) (w : W)
      → BookedTo w
          (run json chrono channel pool order n es
            (record { deliveries = []; messages = []; world = w })).1.world
  run-Booked n es w =
      let k =
        run-Kept n es w (record { deliveries = []; messages = []; world = w })
          (record {
            paired = tt;
            booked = Booked-refl (totals json chrono channel pool order acked laws) w;
          }) in
      k.booked
