-- ===== src/Postgres/Totals/Keys.antt =====
-- The keys of the sums in src/consumer/postgres.rs.
use mathlib.Core.Bool.{false≢true}
use realtime_ingestion.Base.{
  ◌≡◌, ◌≢◌, sym, ap, ◌∙◌, true, false, List, [], ◌∷◌, All, inl, inr, Bool-cases, arith,
}
use realtime_ingestion.Text.Laws.{text_eq_iff, text_eq_refl}
use realtime_ingestion.Postgres.Row.{DailyRow}
use realtime_ingestion.Postgres.Totals.{AggKey, key_of, key_eq, Agg, add_row, aggregate}

pub key_eq_sound : (k j : AggKey) → key_eq k j ≡ true → k ≡ j
unfolding key_eq
key_eq_sound k j h =
    ground (arith, text_eq_iff k.bid j.bid, text_eq_iff k.mid j.mid, text_eq_iff k.psn j.psn)

pub key_eq_refl : (k : AggKey) → key_eq k k ≡ true
unfolding key_eq
key_eq_refl k = ground (arith, text_eq_refl k.bid, text_eq_refl k.mid, text_eq_refl k.psn)

abbrev pub Absent : AggKey → Agg → Type 0
Absent key agg = All (λ (e : AggKey × DailyRow). e.0 ≢ key) agg

-- No key stands twice.
abbrev pub Unique : Agg → Type 0
Unique [] = Unit
Unique ((key, entry) ∷ agg) = Absent key agg × Unique agg

add_row-Absent :
    (key : AggKey) (row : DailyRow) (agg : Agg)
    → key_of row ≢ key
    → Absent key agg
    → Absent key (add_row row agg)
unfolding add_row
add_row-Absent key row [] ne h = (ne, tt)
add_row-Absent key row ((j, entry) ∷ agg) ne h = elim (Bool-cases (key_eq j (key_of row))) [
  | inl same ↦ rw same h
  | inr other ↦ rw other (h.0, add_row-Absent key row agg ne h.1)
]

add_row-Unique : (row : DailyRow) (agg : Agg) → Unique agg → Unique (add_row row agg)
unfolding add_row
add_row-Unique row [] u = (tt, tt)
add_row-Unique row ((j, entry) ∷ agg) u = elim (Bool-cases (key_eq j (key_of row))) [
  | inl same ↦ rw same u
  | inr other ↦ rw other (
    add_row-Absent j row agg (λ e. differ j (key_of row) other (sym e)) u.0,
    add_row-Unique row agg u.1,
  )
]
  where
    differ : (k j : AggKey) → key_eq k j ≡ false → k ≢ j
    differ k j h e = false≢true (sym h ∙ ap (key_eq k) (sym e) ∙ key_eq_refl k)

aggregate-extends : (agg : Agg) (rows : List DailyRow) → Unique agg → Unique (aggregate agg rows)
unfolding aggregate
aggregate-extends agg [] u = u
aggregate-extends agg (row ∷ rows) u =
    aggregate-extends (add_row row agg) rows (add_row-Unique row agg u)

-- The sums of a batch have each key once, so that its `INSERT` meets no row a second time.
pub aggregate-Unique : (rows : List DailyRow) → Unique (aggregate [] rows)
aggregate-Unique rows = aggregate-extends [] rows tt
