-- ===== src/Mysql/Batch/Journal.antt =====
-- The loop of src/consumer/mysql.rs keeps the books: the tables grow by the rows of the acknowledged
-- deliveries.
use realtime_ingestion.Base.{
  ℕ, ◌≡◌, refl, ap, Option, none, some, List, [], ◌∷◌, ◌++◌, is_empty, length, leb, inl, inr,
  Bool-cases,
}
use realtime_ingestion.Text.{Text}
use realtime_ingestion.Models.{QueueMessage}
use realtime_ingestion.External.{Result, ok, err, JsonLib}
use realtime_ingestion.Consumer.{
  Channel, HashOrder, Event, closed, channel_error, tick, delivered, Stop,
}
use realtime_ingestion.Consumer.Ledger.{
  Booked, Unmoved-Booked, Booked-refl, Booked-trans, BookLaws, ack_nothing,
}
use realtime_ingestion.Mysql.Row.{KiccRow, to_kicc_row}
use realtime_ingestion.Mysql.Batch.{
  MySqlPool, Batch, flushed, flush_if_full, store_row, store, after_store, step, after_step, run,
}
use realtime_ingestion.Mysql.Batch.Books.{
  TableLaws, tables, row_of, of_row, Query, Gives, Paired, flush-Booked,
}

module _ {W D Json : Type 0} (json : JsonLib Json) (channel : Channel W D) (pool : MySqlPool W)
    (order : HashOrder (Text × List (D × KiccRow))) (acked : W → List D)
    (laws : TableLaws pool acked)
    (books : BookLaws (tables json channel pool order acked laws) channel) where
  abbrev BookedTo : W → W → Type 0
  BookedTo w w' = Booked (tables json channel pool order acked laws) w w'

  abbrev then_booked : {u v w : W} → BookedTo u v → BookedTo v w → BookedTo u w
  then_booked s t = Booked-trans (tables json channel pool order acked laws) s t

  abbrev Pairs : List D → List KiccRow → Type 0
  Pairs ds rows = Paired json channel pool order acked laws ds rows

  -- From the world `w`: the books are right, and the vectors belong together.
  record Kept (w : W) (b : Batch W D) : Type 0 where
    paired : Pairs b.deliveries b.rows
    booked : BookedTo w b.world

  Paired-snoc :
      (d : D) (row : KiccRow) (ds : List D) (rows : List KiccRow)
      → Gives json channel pool order acked laws d row
      → Pairs ds rows
      → Pairs (ds ++ d ∷ []) (rows ++ row ∷ [])
  Paired-snoc d row [] [] e p = (e, tt)
  Paired-snoc d row [] (r ∷ rows) e p = absurd p
  Paired-snoc d row (x ∷ ds) [] e p = absurd p
  Paired-snoc d row (x ∷ ds) (r ∷ rows) e p = (p.0, Paired-snoc d row ds rows e p.1)

  flushed-Kept : (w : W) (b : Batch W D) → Kept w b → Kept w (flushed json channel pool order b)
  flushed-Kept w b k = record {
    paired = tt;
    booked = then_booked k.booked (
        flush-Booked json channel pool order acked laws books b.deliveries b.rows b.world k.paired);
  }

  flush_if_full-Kept :
      (n : ℕ) (w : W) (b : Batch W D)
      → Kept w b
      → Kept w (flush_if_full json channel pool order n b)
  unfolding flush_if_full
  flush_if_full-Kept n w b k = elim (Bool-cases (leb n (length b.rows))) [
    | inl full ↦ rw full (flushed-Kept w b k)
    | inr more ↦ rw more k
  ]

  -- Behind a delivery, if there was no panic.
  abbrev KeptIf : W → Option (Batch W D) → Type 0
  KeptIf w none = Unit
  KeptIf w (some b) = Kept w b

  store_row-Kept :
      (d : D) (r : Option (Option KiccRow)) (w : W) (b : Batch W D)
      → row_of json channel pool order acked laws (json.from_slice (channel.payload d)) ≡ r
      → Kept w b
      → KeptIf w (store_row json channel pool order d r b)
  unfolding store_row
  store_row-Kept d none w b e k = tt
  store_row-Kept d (some none) w b e k = record {
    paired = k.paired;
    booked = then_booked k.booked (
        ack_nothing (tables json channel pool order acked laws) channel books d b.world
          (λ (q : Query). ap (of_row json channel pool order acked laws q) e));
  }
  store_row-Kept d (some (some row)) w b e k = record {
    paired = Paired-snoc d row b.deliveries b.rows e k.paired;
    booked = k.booked;
  }

  store-Kept :
      (d : D) (r : Result (QueueMessage Json)) (w : W) (b : Batch W D)
      → json.from_slice (channel.payload d) ≡ r
      → Kept w b
      → KeptIf w (store json channel pool order d r b)
  unfolding store
  store-Kept d (err e) w b q k = record {
    paired = k.paired;
    booked =
        then_booked k.booked
          (Unmoved-Booked (tables json channel pool order acked laws) (books.nack d b.world));
  }
  store-Kept d (ok msg) w b q k =
      store_row-Kept d (to_kicc_row json msg) w b (ap (row_of json channel pool order acked laws) q)
        k

  after_store-Kept :
      (n : ℕ) (w : W) (b : Batch W D) (o : Option (Batch W D))
      → Kept w b
      → KeptIf w o
      → Kept w (after_store json channel pool order n b o).1
  unfolding after_store
  after_store-Kept n w b none k h = k
  after_store-Kept n w b (some b') k h = flush_if_full-Kept n w b' h

  step-Kept :
      (n : ℕ) (e : Event D) (w : W) (b : Batch W D)
      → Kept w b
      → Kept w (step json channel pool order n e b).1
  unfolding step
  step-Kept n closed w b k = k
  step-Kept n channel_error w b k = record {
    paired = k.paired;
    booked =
        then_booked k.booked
          (Unmoved-Booked (tables json channel pool order acked laws) (books.notify _ b.world));
  }
  step-Kept n tick w b k = elim (Bool-cases (is_empty b.rows)) [
    | inl empty ↦ rw empty k
    | inr filled ↦ rw filled (flushed-Kept w b k)
  ]
  step-Kept n (delivered d) w b k =
      after_store-Kept n w b _ k (store-Kept d (json.from_slice (channel.payload d)) w b refl k)

  after_step-Kept :
      (w : W) (again : Batch W D → Option Stop × Batch W D) (r : Option Stop × Batch W D)
      → Kept w r.1
      → ((b : Batch W D) → Kept w b → Kept w (again b).1)
      → Kept w (after_step json channel pool order again r).1
  after_step-Kept w again (some s, b) k h = k
  after_step-Kept w again (none, b) k h = h b k

  run-Kept :
      (n : ℕ) (es : List (Event D)) (w : W) (b : Batch W D)
      → Kept w b
      → Kept w (run json channel pool order n es b).1
  unfolding run
  run-Kept n [] w b k = k
  run-Kept n (e ∷ es) w b k =
      after_step-Kept w (run json channel pool order n es) (step json channel pool order n e b)
        (step-Kept n e w b k) (λ x h. run-Kept n es w x h)

  -- A run that begins with empty vectors.
  pub run-Booked :
      (n : ℕ) (es : List (Event D)) (w : W)
      → BookedTo w
          (run json channel pool order n es
            (record { deliveries = []; rows = []; world = w })).1.world
  run-Booked n es w =
      let k =
        run-Kept n es w (record { deliveries = []; rows = []; world = w })
          (record {
            paired = tt;
            booked = Booked-refl (tables json channel pool order acked laws) w;
          }) in
      k.booked
