-- ===== src/Postgres/Batch/Loop.antt =====
-- What becomes of the deliveries in the loop of src/consumer/postgres.rs, when a message may make a
-- panic.
use realtime_ingestion.Base.{
  ℕ, Option, none, some, List, [], ◌∷◌, ◌++◌, append_assoc, is_empty, length, leb, inl, inr,
  Bool-cases, refl, sym, ap, subst, ◌≡◌,
}
use mathlib.Core.List.Permᴰ
use realtime_ingestion.Models.{QueueMessage}
use realtime_ingestion.External.{Result, ok, err, JsonLib}
use realtime_ingestion.Consumer.{
  Channel, HashOrder, Event, closed, channel_error, tick, delivered, Stop,
}
use realtime_ingestion.Consumer.Arrived.{
  arrived, Moves, all_lost, none_lost, then_more, then_none, arrived-parts,
}
use realtime_ingestion.Postgres.Batch.{
  run, PgPool, Batch, Gathered, and_then, gather_row, gather, upsert, flush, flushed, flush_if_full,
  store, step,
}
use realtime_ingestion.Postgres.Row.{DailyRow, Chrono, to_daily_row}
use realtime_ingestion.Postgres.Totals.{AggKey}
use realtime_ingestion.Postgres.Batch.Settle.{SettleLaws, upsert-settled}

module _ {W D Json Date Time Offset : Type 0} (json : JsonLib Json)
    (chrono : Chrono Date Time Offset) (channel : Channel W D) (pool : PgPool W)
    (order : HashOrder (AggKey × DailyRow)) (laws : SettleLaws channel pool) where
  abbrev pub settled : W → List D
  settled w = laws.broker.settled w

  abbrev gathered : Gathered W D → List D
  gathered g = g.group_deliveries ++ settled g.world

  gather_row-Moves :
      (d : D) (r : Option (Option DailyRow)) (g : Gathered W D)
      → Moves (gathered g) (d ∷ []) (gathered (gather_row json chrono channel pool order d r g).1)
  unfolding gather_row
  gather_row-Moves d none g = all_lost (gathered g) (d ∷ [])
  gather_row-Moves d (some none) g =
      none_lost (gathered g) (d ∷ []) _
        (rw (laws.broker.ack d g.world) (Permᴰ.middle d g.group_deliveries (settled g.world)))
  gather_row-Moves d (some (some row)) g = none_lost (gathered g) (d ∷ []) _ (
      rw (append_assoc g.group_deliveries (d ∷ []) (settled g.world))
        (Permᴰ.middle d g.group_deliveries (settled g.world)))

  and_then-Moves :
      {S : Type 0} (known : S → List D) (k s t : List D) (again : S → Option Stop × S)
      (r : Option Stop × S)
      → Moves k s (known r.1)
      → ((x : S) → Moves (known x) t (known (again x).1))
      → Moves k (s ++ t) (known (and_then again r (λ x. x)).1)
  and_then-Moves known k s t again (some stop, x) first next =
      then_more s t first (all_lost (known x) t)
  and_then-Moves known k s t again (none, x) first next = then_more s t first (next x)

  gather-Moves :
      (ds : List D) (msgs : List (QueueMessage Json)) (g : Gathered W D)
      → Moves (gathered g) ds (gathered (gather json chrono channel pool order ds msgs g).1)
  unfolding gather
  gather-Moves [] msgs g = all_lost (gathered g) []
  gather-Moves (d ∷ ds) [] g = all_lost (gathered g) (d ∷ ds)
  gather-Moves (d ∷ ds) (msg ∷ msgs) g =
      and_then-Moves gathered (gathered g) (d ∷ []) ds
        (gather json chrono channel pool order ds msgs)
        (gather_row json chrono channel pool order d (to_daily_row chrono json msg) g)
        (gather_row-Moves d (to_daily_row chrono json msg) g) (λ x. gather-Moves ds msgs x)

  upserted :
      (k ds : List D) (r : Option Stop × Gathered W D)
      → Moves k ds (gathered r.1)
      → Moves k ds (
          settled
            (and_then (λ g. (none, upsert json chrono channel pool order g)) r (λ g. g.world)).1)
  upserted k ds (some stop, g) m =
      then_none ds m (record { lost = g.group_deliveries; balance = Permᴰ.refl (gathered g) })
  upserted k ds (none, g) m =
      then_none ds m
        (none_lost (gathered g) [] _ (upsert-settled json chrono channel pool order laws g))

  abbrev pub known : Batch W D Json → List D
  known b = b.deliveries ++ settled b.world

  flushed-Moves :
      (b : Batch W D Json) → Moves (known b) [] (known (flushed json chrono channel pool order b).1)
  unfolding flushed flush
  flushed-Moves b =
      let start : Gathered W D = record { group_deliveries = []; agg = []; world = b.world } in
      let m =
        upserted (settled b.world) b.deliveries
          (gather json chrono channel pool order b.deliveries b.messages start)
          (gather-Moves b.deliveries b.messages start) in
      record { lost = m.lost; balance = m.balance }

  flush_if_full-Moves :
      (n : ℕ) (b : Batch W D Json)
      → Moves (known b) [] (known (flush_if_full json chrono channel pool order n b).1)
  unfolding flush_if_full
  flush_if_full-Moves n b = elim (Bool-cases (leb n (length b.messages))) [
    | inl full ↦ rw full (flushed-Moves b)
    | inr more ↦ rw more (all_lost (known b) [])
  ]

  store-Moves :
      (d : D) (r : Result (QueueMessage Json)) (b : Batch W D Json)
      → Moves (known b) (d ∷ []) (known (store json chrono channel pool order d r b))
  unfolding store
  store-Moves d (err e) b =
      none_lost (known b) (d ∷ []) _
        (rw (laws.broker.nack d b.world) (Permᴰ.middle d b.deliveries (settled b.world)))
  store-Moves d (ok msg) b = none_lost (known b) (d ∷ []) _ (
      rw (append_assoc b.deliveries (d ∷ []) (settled b.world))
        (Permᴰ.middle d b.deliveries (settled b.world)))

  step-Moves :
      (n : ℕ) (e : Event D) (b : Batch W D Json)
      → Moves (known b) (arrived (e ∷ [])) (known (step json chrono channel pool order n e b).1)
  unfolding step
  step-Moves n closed b = all_lost (known b) []
  step-Moves n channel_error b =
      none_lost (known b) [] _ (rw (laws.broker.notify _ b.world) (Permᴰ.refl (known b)))
  step-Moves n tick b = elim (Bool-cases (is_empty b.messages)) [
    | inl empty ↦ rw empty (all_lost (known b) [])
    | inr filled ↦ rw filled (flushed-Moves b)
  ]
  step-Moves n (delivered d) b =
      then_none (d ∷ []) (store-Moves d (json.from_slice (channel.payload d)) b) (
        flush_if_full-Moves n
          (store json chrono channel pool order d (json.from_slice (channel.payload d)) b))

  -- A run saw a front of its events.
  pub record RunMoves (es : List (Event D)) (b b' : Batch W D Json) : Type 0 where
    pub took : List (Event D)
    pub rest : List (Event D)
    pub split : es ≡ took ++ rest
    pub moves : Moves (known b) (arrived took) (known b')

  after_step-RunMoves :
      (e : Event D) (es : List (Event D)) (b : Batch W D Json)
      (again : Batch W D Json → Option Stop × Batch W D Json) (r : Option Stop × Batch W D Json)
      → Moves (known b) (arrived (e ∷ [])) (known r.1)
      → ((b' : Batch W D Json) → RunMoves es b' (again b').1)
      → RunMoves (e ∷ es) b (and_then again r (λ x. x)).1
  after_step-RunMoves e es b again (some stop, b') m next = record {
    took = e ∷ [];
    rest = es;
    split = refl;
    moves = m;
  }
  after_step-RunMoves e es b again (none, b') m next =
      let n = next b' in
      record {
        took = e ∷ n.took;
        rest = n.rest;
        split = ap (◌∷◌ e) n.split;
        moves =
            subst (λ ds. Moves (known b) ds (known (again b').1)) (sym (arrived-parts e n.took))
              (then_more (arrived (e ∷ [])) (arrived n.took) m n.moves);
      }

  pub run-RunMoves :
      (n : ℕ) (es : List (Event D)) (b : Batch W D Json)
      → RunMoves es b (run json chrono channel pool order n es b).1
  unfolding run
  run-RunMoves n [] b = record { took = []; rest = []; split = refl; moves = all_lost (known b) [] }
  run-RunMoves n (e ∷ es) b =
      after_step-RunMoves e es b (run json chrono channel pool order n es)
        (step json chrono channel pool order n e b) (step-Moves n e b) (run-RunMoves n es)
