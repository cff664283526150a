-- ===== src/Mysql/Batch/Books.antt =====
-- What `flush` of src/consumer/mysql.rs inserts into the tables, against the deliveries that it
-- acknowledges.
use realtime_ingestion.Base.{
  sum_of, ℕ, ◌+◌, ◌≡◌, refl, sym, ap, ◌∙◌, Bool, ◌&&◌, Option, none, some, List, [], ◌∷◌, map,
  if◌then◌else◌, inl, inr, Bool-cases, All, All-append, All-Permᴰ, arith,
}
use mathlib.Core.List.Permᴰ
use realtime_ingestion.Text.{Text, text_eq}
use realtime_ingestion.Text.Laws.{text_eq_iff}
use realtime_ingestion.Models.{QueueMessage}
use realtime_ingestion.External.{Result, ok, err, Error, JsonLib}
use realtime_ingestion.Consumer.{Channel, for_each, HashOrder}
use realtime_ingestion.Consumer.Ledger.{
  Ledger, Booked, Unmoved-Booked, Unmoved-trans, Booked-refl, Booked-trans, BookLaws, stored,
  all_rejected,
}
use realtime_ingestion.Mysql.Row.{KiccRow, to_kicc_row}
use realtime_ingestion.Mysql.Batch.{
  MySqlPool, Groups, zip, push_group, group_rows, settle, flush_group, flush,
}

-- A table and a test on its rows.
abbrev pub Query : Type 0
Query = Text × (KiccRow → Bool)

-- How many of the rows for a table pass the test.
abbrev pub hit : Query → Text → KiccRow → ℕ
hit (table, test) t row = if text_eq t table && test row then 1 else 0

-- What a statement of the database does to the tables: one that succeeds adds its rows to its table
-- and leaves the other tables alone; one that fails changes no table.
pub record TableLaws {W D : Type 0} (pool : MySqlPool W) (acked : W → List D) : Type 0 where
  -- `SELECT COUNT(*)` of the rows that pass.
  pub count : Query → W → ℕ
  pub inserted :
      (t : Text) (rows : List KiccRow) (w w' : W) (n : ℕ)
      → pool.execute t rows w ≡ (ok n, w')
      → (q : Query) → count q w' ≡ sum_of (hit q t) rows + count q w
  pub failed :
      (t : Text) (rows : List KiccRow) (w w' : W) (e : Error)
      → pool.execute t rows w ≡ (err e, w')
      → (q : Query) → count q w' ≡ count q w
  pub execute : (t : Text) (rows : List KiccRow) (w : W) → acked (pool.execute t rows w).1 ≡ acked w

module _ {W D Json : Type 0} (json : JsonLib Json) (channel : Channel W D) (pool : MySqlPool W)
    (order : HashOrder (Text × List (D × KiccRow))) (acked : W → List D)
    (laws : TableLaws pool acked) where
  -- What the body of a delivery gives.
  abbrev pub row_of : Result (QueueMessage Json) → Option (Option KiccRow)
  row_of (err e) = some none
  row_of (ok msg) = to_kicc_row json msg

  abbrev pub of_row : Query → Option (Option KiccRow) → ℕ
  of_row q none = 0
  of_row q (some none) = 0
  of_row q (some (some row)) = hit q row.table row

  -- The accounts are the counts; a delivery brings 1 if its row is for the table and passes.
  abbrev pub tables : Ledger W D
  tables = record {
    Account = Query;
    acked = acked;
    balance = laws.count;
    brings = λ q d. of_row q (row_of (json.from_slice (channel.payload d)));
    Same = λ q x y. x ≡ y;
    same_refl = λ q x. refl;
    same_trans = λ q x y z e f. e ∙ f;
    same_add = λ q n x y e. ap (λ (t : ℕ). n + t) e;
  }

  -- The row of a delivery.
  abbrev pub Gives : D → KiccRow → Type 0
  Gives d row = row_of (json.from_slice (channel.payload d)) ≡ some (some row)

  abbrev Gave : D × KiccRow → Type 0
  Gave p = Gives p.0 p.1

  -- The pairs of a group are deliveries with their rows, all for its table.
  abbrev InGroup : Text → D × KiccRow → Type 0
  InGroup t p = Gave p × (p.1.table ≡ t)

  abbrev IsGroup : Text × List (D × KiccRow) → Type 0
  IsGroup g = All (InGroup g.0) g.1

  push_group-IsGroup :
      (p : D × KiccRow) (gs : Groups D)
      → Gave p
      → All IsGroup gs
      → All IsGroup (push_group p.1.table p gs)
  unfolding push_group
  push_group-IsGroup p [] g h = (((g, refl), tt), tt)
  push_group-IsGroup p ((t, group) ∷ gs) g h = elim (Bool-cases (text_eq t p.1.table)) [
    | inl same ↦ rw same (
      All-append (InGroup t) group (p ∷ []) h.0 ((g, sym ((text_eq_iff t p.1.table).0 same)), tt),
      h.1,
    )
    | inr other ↦ rw other (h.0, push_group-IsGroup p gs g h.1)
  ]

  group_rows-IsGroup :
      (gs : Groups D) (ps : List (D × KiccRow))
      → All Gave ps
      → All IsGroup gs
      → All IsGroup (group_rows gs ps)
  unfolding group_rows
  group_rows-IsGroup gs [] g h = h
  group_rows-IsGroup gs ((d, r) ∷ ps) g h =
      group_rows-IsGroup (push_group r.table (d, r) gs) ps g.1 (push_group-IsGroup (d, r) gs g.0 h)

  -- The two vectors belong together.
  abbrev pub Paired : List D → List KiccRow → Type 0
  Paired [] [] = Unit
  Paired [] (row ∷ rows) = ⊥
  Paired (d ∷ ds) [] = ⊥
  Paired (d ∷ ds) (row ∷ rows) = Gives d row × Paired ds rows

  zip-Gave : (ds : List D) (rows : List KiccRow) → Paired ds rows → All Gave (zip ds rows)
  unfolding zip
  zip-Gave [] rows p = tt
  zip-Gave (d ∷ ds) [] p = absurd p
  zip-Gave (d ∷ ds) (row ∷ rows) p = (p.0, zip-Gave ds rows p.1)

  -- A group's deliveries bring what its statement inserts.
  brings-rows :
      (q : Query) (t : Text) (group : List (D × KiccRow))
      → IsGroup (t, group)
      → sum_of (hit q t) (map (λ (p : D × KiccRow). p.1) group)
        ≡ sum_of (tables.brings q) (map (λ (p : D × KiccRow). p.0) group)
  brings-rows q t [] h = refl
  brings-rows q t ((d, row) ∷ group) h = omega (
    arith,
    brings-rows q t group h.1,
    ap (λ (u : Text). hit q u row) (sym h.0.1) ∙ sym (ap (of_row q) h.0.0),
  )

  module _ (books : BookLaws tables channel) where
    settle-Booked :
        (t : Text) (rows : List KiccRow) (ds : List D) (w : W) (r : Result ℕ × W)
        → pool.execute t rows w ≡ r
        → ((q : Query) → sum_of (hit q t) rows ≡ sum_of (tables.brings q) ds)
        → Booked tables w (settle json channel pool order t ds r)
    unfolding settle
    settle-Booked t rows ds w (ok n, v) e b =
        stored tables channel books ds w v
          (ap (λ (r : Result ℕ × W). acked r.1) (sym e) ∙ laws.execute t rows w)
          (λ q. laws.inserted t rows w v n e q ∙ ap (λ (x : ℕ). x + laws.count q w) (b q))
    settle-Booked t rows ds w (err x, v) e b = Unmoved-Booked tables (
        Unmoved-trans tables
          (record {
            acks = ap (λ (r : Result ℕ × W). acked r.1) (sym e) ∙ laws.execute t rows w;
            books = laws.failed t rows w v x e;
          })
          (Unmoved-trans tables (books.notify _ v) (all_rejected tables channel books ds _)))

    flush_group-Booked :
        (t : Text) (group : List (D × KiccRow)) (w : W)
        → IsGroup (t, group)
        → Booked tables w (flush_group json channel pool order (t, group) w)
    unfolding flush_group
    flush_group-Booked t group w h =
        settle-Booked t (map (λ (p : D × KiccRow). p.1) group)
          (map (λ (p : D × KiccRow). p.0) group) w _ refl (λ q. brings-rows q t group h)

    groups-Booked :
        (gs : Groups D) (w : W)
        → All IsGroup gs
        → Booked tables w (for_each (flush_group json channel pool order) gs w)
    unfolding for_each
    groups-Booked [] w h = Booked-refl tables w
    groups-Booked ((t, group) ∷ gs) w h =
        Booked-trans tables (flush_group-Booked t group w h.0)
          (groups-Booked gs (flush_group json channel pool order (t, group) w) h.1)

    -- Whatever the order in which the map hands out its groups.
    pub flush-Booked :
        (ds : List D) (rows : List KiccRow) (w : W)
        → Paired ds rows
        → Booked tables w (flush json channel pool order ds rows w)
    unfolding flush
    flush-Booked ds rows w p =
        let groups = group_rows [] (zip ds rows) in
        groups-Booked (order.into_iter groups) w (
          All-Permᴰ IsGroup (Permᴰ.symm (order.each_once groups))
            (group_rows-IsGroup [] (zip ds rows) (zip-Gave ds rows p) tt))
