-- ===== src/Postgres/Batch/Books.antt =====
-- What src/consumer/postgres.rs adds to the daily totals, against the deliveries that it
-- acknowledges.
use realtime_ingestion.Base.{
  sum_of-append, sum_of, All-Permᴰ, ℕ, ◌+◌, ◌%◌, ◌≡◌, refl, sym, ap, ◌∙◌, Option, none, some, List,
  [], ◌∷◌, ◌++◌, is_empty, inl, inr, Bool-cases, arith,
}
use native.Mathlib.Nat.{add-mod-mod, mod-add-mod}
use mathlib.Core.List.Permᴰ
use realtime_ingestion.Models.{QueueMessage}
use realtime_ingestion.External.{Result, ok, err, Error, JsonLib}
use realtime_ingestion.Consumer.{Channel, HashOrder, Stop}
use realtime_ingestion.Consumer.Ledger.{
  Ledger, Booked, Unmoved-Booked, Unmoved-trans, Booked-refl, Booked-trans, BookLaws, ack_nothing,
  stored, all_rejected,
}
use realtime_ingestion.Postgres.Row.{DailyRow, Chrono, to_daily_row}
use realtime_ingestion.Postgres.Totals.{AggKey, key_of, add_row, aggregate}
use realtime_ingestion.Postgres.Totals.Keys.{aggregate-Unique}
use realtime_ingestion.Postgres.Totals.Sums.{Column, modulus, brought, aggregate-held}
use realtime_ingestion.Postgres.Totals.Rows.{
  Distinct, values, aggregate-Keyed, aggregate-snoc, brought-append, brought-values,
  values-Distinct, held-Permᴰ, Unique-Permᴰ,
}
use realtime_ingestion.Postgres.Batch.{
  PgPool, Gathered, and_then, gather_row, gather, settle, upsert, flush,
}

-- What a statement of the database does to `kicc_daily_totals`: one that succeeds adds each of its
-- rows to the totals of the row's key, as long as no two rows have the same key; one that fails
-- changes no total. A total is a number of the width of its column.
pub record TotalsLaws {W D : Type 0} (pool : PgPool W) (acked : W → List D) : Type 0 where
  pub total : AggKey × Column → W → ℕ
  pub inserted :
      (rows : List DailyRow) (w w' : W) (n : ℕ)
      → pool.execute rows w ≡ (ok n, w')
      → Distinct rows
      → (a : AggKey × Column)
      → total a w' % modulus a.1 ≡ (brought a.1 a.0 rows + total a w) % modulus a.1
  pub failed :
      (rows : List DailyRow) (w w' : W) (e : Error)
      → pool.execute rows w ≡ (err e, w')
      → (a : AggKey × Column) → total a w' ≡ total a w
  pub execute : (rows : List DailyRow) (w : W) → acked (pool.execute rows w).1 ≡ acked w

module _ {W D Json Date Time Offset : Type 0} (json : JsonLib Json)
    (chrono : Chrono Date Time Offset) (channel : Channel W D) (pool : PgPool W)
    (order : HashOrder (AggKey × DailyRow)) (acked : W → List D)
    (laws : TotalsLaws pool acked) where
  -- What a row brings to a total, and what a delivery does: nothing, unless its body is a message
  -- that gives a row.
  abbrev of_row : AggKey × Column → Option (Option DailyRow) → ℕ
  of_row a none = 0
  of_row a (some none) = 0
  of_row a (some (some row)) = brought a.1 a.0 (row ∷ [])

  abbrev of_message : AggKey × Column → Result (QueueMessage Json) → ℕ
  of_message a (err e) = 0
  of_message a (ok msg) = of_row a (to_daily_row chrono json msg)

  -- The accounts are the totals: of a column, for a time, a business, a merchant and a terminal.
  abbrev pub totals : Ledger W D
  totals = record {
    Account = AggKey × Column;
    acked = acked;
    balance = laws.total;
    brings = λ a d. of_message a (json.from_slice (channel.payload d));
    Same = λ a x y. x % modulus a.1 ≡ y % modulus a.1;
    same_refl = λ a x. refl;
    same_trans = λ a x y z p q. p ∙ q;
    same_add = λ a n x y p.
        sym (add-mod-mod n x (modulus a.1))
        ∙ ap (λ (t : ℕ). (n + t) % modulus a.1) p
        ∙ add-mod-mod n y (modulus a.1);
  }

  module _ (books : BookLaws totals channel) where
    -- Since `w`: the rows of the sums so far are those of the deliveries that wait for the
    -- statement.
    record Filed (w : W) (g : Gathered W D) : Type 0 where
      rows : List DailyRow
      summed : g.agg ≡ aggregate [] rows
      waiting :
          (a : AggKey × Column) → sum_of (totals.brings a) g.group_deliveries ≡ brought a.1 a.0 rows
      booked : Booked totals w g.world

    -- A delivery whose body is this message.
    abbrev Holds : D → QueueMessage Json → Type 0
    Holds d msg = json.from_slice (channel.payload d) ≡ ok msg

    gather_row-Filed :
        (w : W) (d : D) (r : Option (Option DailyRow)) (g : Gathered W D)
        → ((a : AggKey × Column) → totals.brings a d ≡ of_row a r)
        → Filed w g
        → Filed w (gather_row json chrono channel pool order d r g).1
    unfolding gather_row
    gather_row-Filed w d none g b f = f
    gather_row-Filed w d (some none) g b f = record {
      rows = f.rows;
      summed = f.summed;
      waiting = f.waiting;
      booked = Booked-trans totals f.booked (ack_nothing totals channel books d g.world b);
    }
    gather_row-Filed w d (some (some row)) g b f = record {
      rows = f.rows ++ row ∷ [];
      summed = ap (add_row row) f.summed ∙ sym (aggregate-snoc [] f.rows row);
      waiting = λ a. omega (
        arith,
        sum_of-append (totals.brings a) g.group_deliveries (d ∷ []),
        f.waiting a,
        b a,
        brought-append a.1 a.0 f.rows (row ∷ []),
      );
      booked = f.booked;
    }

    -- The two vectors belong together.
    abbrev pub Paired : List D → List (QueueMessage Json) → Type 0
    Paired [] [] = Unit
    Paired [] (msg ∷ msgs) = ⊥
    Paired (d ∷ ds) [] = ⊥
    Paired (d ∷ ds) (msg ∷ msgs) = Holds d msg × Paired ds msgs

    next-Filed :
        (w : W) (again : Gathered W D → Option Stop × Gathered W D) (r : Option Stop × Gathered W D)
        → Filed w r.1
        → ((g : Gathered W D) → Filed w g → Filed w (again g).1)
        → Filed w (and_then again r (λ x. x)).1
    next-Filed w again (some s, g) f h = f
    next-Filed w again (none, g) f h = h g f

    gather-Filed :
        (w : W) (ds : List D) (msgs : List (QueueMessage Json)) (g : Gathered W D)
        → Paired ds msgs
        → Filed w g
        → Filed w (gather json chrono channel pool order ds msgs g).1
    unfolding gather
    gather-Filed w [] msgs g p f = f
    gather-Filed w (d ∷ ds) [] g p f = f
    gather-Filed w (d ∷ ds) (msg ∷ msgs) g p f =
        next-Filed w (gather json chrono channel pool order ds msgs)
          (gather_row json chrono channel pool order d (to_daily_row chrono json msg) g)
          (gather_row-Filed w d (to_daily_row chrono json msg) g (λ a. ap (of_message a) p.0) f)
          (λ x h. gather-Filed w ds msgs x p.1 h)

    -- The statement gets no key twice, and its rows bring what those of the batch bring.
    upserted-rows :
        (rows : List DailyRow)
        → Distinct (values (order.into_iter (aggregate [] rows)))
          × ((a : AggKey × Column)
              → brought a.1 a.0 (values (order.into_iter (aggregate [] rows))) % modulus a.1
                ≡ brought a.1 a.0 rows % modulus a.1)
    upserted-rows rows =
        let agg = aggregate [] rows in
        let p = order.each_once agg in
        let keyed =
          All-Permᴰ (λ (e : AggKey × DailyRow). e.0 ≡ key_of e.1) (Permᴰ.symm p)
            (aggregate-Keyed [] rows tt) in
        (
          values-Distinct (order.into_iter agg) keyed
              (Unique-Permᴰ (Permᴰ.symm p) (aggregate-Unique rows)),
          λ a.
              ap (λ (n : ℕ). n % modulus a.1)
                (brought-values a.1 a.0 (order.into_iter agg) keyed ∙ held-Permᴰ a.1 a.0 p)
              ∙ aggregate-held a.1 a.0 rows,
        )

    swap_sum : (x y t m : ℕ) → x % m ≡ y % m → (x + t) % m ≡ (y + t) % m
    swap_sum x y t m e = sym (mod-add-mod x m t) ∙ ap (λ (n : ℕ). (n + t) % m) e ∙ mod-add-mod y m t

    settle-Booked :
        (rows : List DailyRow) (ds : List D) (w : W) (r : Result ℕ × W)
        → pool.execute rows w ≡ r
        → Distinct rows
        → ((a : AggKey × Column)
            → brought a.1 a.0 rows % modulus a.1 ≡ sum_of (totals.brings a) ds % modulus a.1)
        → Booked totals w (settle json chrono channel pool order ds r)
    unfolding settle
    settle-Booked rows ds w (ok n, v) e u b =
        stored totals channel books ds w v
          (ap (λ (r : Result ℕ × W). acked r.1) (sym e) ∙ laws.execute rows w)
          (λ a.
            laws.inserted rows w v n e u a
            ∙ swap_sum (brought a.1 a.0 rows) (sum_of (totals.brings a) ds) (laws.total a w)
                (modulus a.1) (b a))
    settle-Booked rows ds w (err x, v) e u b = Unmoved-Booked totals (
        Unmoved-trans totals
          (record {
            acks = ap (λ (r : Result ℕ × W). acked r.1) (sym e) ∙ laws.execute rows w;
            books = laws.failed rows w v x e;
          })
          (Unmoved-trans totals (books.notify _ v) (all_rejected totals channel books ds _)))

    upsert-Booked :
        (w : W) (g : Gathered W D)
        → Filed w g
        → Booked totals w (upsert json chrono channel pool order g)
    unfolding upsert
    upsert-Booked w g f = elim (Bool-cases (is_empty g.group_deliveries)) [
      | inl empty ↦ rw empty f.booked
      | inr filled ↦
          let (u, b) = upserted-rows f.rows in
          rw (filled, f.summed)
            (Booked-trans totals f.booked (
              settle-Booked (values (order.into_iter (aggregate [] f.rows))) g.group_deliveries
                g.world _ refl u (λ a. b a ∙ ap (λ n. n % modulus a.1) (sym (f.waiting a)))))
    ]

    pub flush-Booked :
        (ds : List D) (msgs : List (QueueMessage Json)) (w : W)
        → Paired ds msgs
        → Booked totals w (flush json chrono channel pool order ds msgs w).1
    unfolding flush
    flush-Booked ds msgs w p =
        let start : Gathered W D = record { group_deliveries = []; agg = []; world = w } in
        behind (gather json chrono channel pool order ds msgs start) (
          gather-Filed w ds msgs start p (record {
            rows = [];
            summed = unfold aggregate in refl;
            waiting = λ a. refl;
            booked = Booked-refl totals w;
          }))
      where
        behind :
            (r : Option Stop × Gathered W D)
            → Filed w r.1
            → Booked totals w
                (and_then (λ g. (none, upsert json chrono channel pool order g)) r (λ g. g.world)).1
        behind (some s, g) f = f.booked
        behind (none, g) f = upsert-Booked w g f
