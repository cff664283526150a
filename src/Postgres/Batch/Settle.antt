-- ===== src/Postgres/Batch/Settle.antt =====
-- Which deliveries `flush` of src/consumer/postgres.rs acknowledges or rejects.
use realtime_ingestion.Base.{
  nil_of_empty, Returns, ℕ, ◌≡◌, sym, subst, refl, Option, none, some, List, [], ◌∷◌, ◌++◌,
  append_assoc, map, length, is_empty, All, arith, inl, inr, Bool-cases,
}
use mathlib.Core.List.{Permᴰ}
use mathlib.Core.List.Permᴰ
use realtime_ingestion.Models.{QueueMessage}
use realtime_ingestion.External.{Result, ok, err, JsonLib}
use realtime_ingestion.Consumer.{Channel, HashOrder, Stop}
use realtime_ingestion.Consumer.Broker.{BrokerLaws, After, accepted, rejected}
use realtime_ingestion.Postgres.Row.{DailyRow, Chrono, to_daily_row}
use realtime_ingestion.Postgres.Row.Returns.{HasAsciiTime, to_daily_row-Returns}
use realtime_ingestion.Postgres.Totals.{AggKey}
use realtime_ingestion.Postgres.Batch.{
  PgPool, Gathered, and_then, gather_row, gather, settle, upsert, flush,
}

-- A statement settles nothing.
pub record SettleLaws {W D : Type 0} (channel : Channel W D) (pool : PgPool W) : Type 0 where
  pub broker : BrokerLaws channel
  pub execute :
      (rows : List DailyRow) (w : W) → broker.settled (pool.execute rows w).1 ≡ broker.settled w

module _ {W D Json Date Time Offset : Type 0} (json : JsonLib Json)
    (chrono : Chrono Date Time Offset) (channel : Channel W D) (pool : PgPool W)
    (order : HashOrder (AggKey × DailyRow)) (laws : SettleLaws channel pool) where
  abbrev settled : W → List D
  settled w = laws.broker.settled w

  abbrev known : Gathered W D → List D
  known g = g.group_deliveries ++ settled g.world

  -- No panic, and these deliveries became known.
  abbrev Took : List D → Gathered W D → Option Stop × Gathered W D → Type 0
  Took ds g (some s, g') = ⊥
  Took ds g (none, g') = Permᴰ (known g') (ds ++ known g)

  gather_row-Took :
      (d : D) (r : Option (Option DailyRow)) (g : Gathered W D)
      → Returns r
      → Took (d ∷ []) g (gather_row json chrono channel pool order d r g)
  unfolding gather_row
  gather_row-Took d none g (o, e) = absurd (ground (arith, e))
  gather_row-Took d (some none) g r =
      rw (laws.broker.ack d g.world) (Permᴰ.middle d g.group_deliveries (settled g.world))
  gather_row-Took d (some (some row)) g r =
      rw (append_assoc g.group_deliveries (d ∷ []) (settled g.world))
        (Permᴰ.middle d g.group_deliveries (settled g.world))

  and_then-Took :
      (d : D) (ds : List D) (g : Gathered W D) (again : Gathered W D → Option Stop × Gathered W D)
      (r : Option Stop × Gathered W D)
      → Took (d ∷ []) g r
      → ((g' : Gathered W D) → Took ds g' (again g'))
      → Took (d ∷ ds) g (and_then again r (λ x. x))
  and_then-Took d ds g again (some s, g') t h = t
  and_then-Took d ds g again (none, g') t h = joined (again g') (h g')
    where
      joined : (q : Option Stop × Gathered W D) → Took ds g' q → Took (d ∷ ds) g q
      joined (some s, x) u = u
      joined (none, x) u =
          Permᴰ.trans u (Permᴰ.trans (Permᴰ.append_left ds t) (Permᴰ.middle d ds (known g)))

  gather-Took :
      (ds : List D) (msgs : List (QueueMessage Json)) (g : Gathered W D)
      → length ds ≡ length msgs
      → All (HasAsciiTime chrono json) msgs
      → Took ds g (gather json chrono channel pool order ds msgs g)
  unfolding gather
  gather-Took [] msgs g e a = Permᴰ.refl (known g)
  gather-Took (d ∷ ds) [] g e a = absurd (omega arith)
  gather-Took (d ∷ ds) (msg ∷ msgs) g e a =
      and_then-Took d ds g (gather json chrono channel pool order ds msgs) _
        (gather_row-Took d (to_daily_row chrono json msg) g
          (to_daily_row-Returns chrono json msg a.0))
        (λ g'. gather-Took ds msgs g' (omega arith) a.1)

  settle-settled :
      (ds : List D) (r : Result ℕ × W)
      → After channel laws.broker r.1 ds (settle json chrono channel pool order ds r)
  unfolding settle
  settle-settled ds (ok n, w) = accepted channel laws.broker ds w
  settle-settled ds (err e, w) = rejected channel laws.broker _ ds w

  pub upsert-settled :
      (g : Gathered W D) → Permᴰ (settled (upsert json chrono channel pool order g)) (known g)
  unfolding upsert
  upsert-settled g = elim (Bool-cases (is_empty g.group_deliveries)) [
    | inl empty ↦ rw empty (
        subst (λ ds. Permᴰ (settled g.world) (ds ++ settled g.world))
          (sym (nil_of_empty g.group_deliveries empty)) (Permᴰ.refl (settled g.world)))
    | inr filled ↦
        let rows = map (λ (e : AggKey × DailyRow). e.1) (order.into_iter g.agg) in
        rw (filled, ← laws.execute rows g.world)
          (settle-settled g.group_deliveries (pool.execute rows g.world))
  ]

  finished :
      (ds : List D) (g : Gathered W D) (q : Option Stop × Gathered W D)
      → Took ds g q
      → let r = and_then (λ x. (none, upsert json chrono channel pool order x)) q (λ x. x.world) in
        (r.0 ≡ none) × Permᴰ (settled r.1) (ds ++ known g)
  finished ds g (some s, x) t = absurd t
  finished ds g (none, x) t = (refl, Permᴰ.trans (upsert-settled x) t)

  -- With as many messages as deliveries, approval times in ASCII, and a broker whose record changes
  -- only by `ack` and `nack`, a flush does not panic, and settles each delivery of its batch once
  -- and no other, whatever the database answers.
  pub flush-settles_once :
      (ds : List D) (msgs : List (QueueMessage Json)) (w : W)
      → length ds ≡ length msgs
      → All (HasAsciiTime chrono json) msgs
      → ((flush json chrono channel pool order ds msgs w).0 ≡ none)
        × After channel laws.broker w ds (flush json chrono channel pool order ds msgs w).1
  unfolding flush
  flush-settles_once ds msgs w e a =
      let start : Gathered W D = record { group_deliveries = []; agg = []; world = w } in
      finished ds start (gather json chrono channel pool order ds msgs start)
        (gather-Took ds msgs start e a)
