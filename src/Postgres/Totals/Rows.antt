-- ===== src/Postgres/Totals/Rows.antt =====
-- The rows that `agg.into_values()` hands to the statement, in src/consumer/postgres.rs.
use realtime_ingestion.Base.{
  ◌+◌, ◌≡◌, ◌≢◌, refl, sym, ap, subst, ◌∙◌, List, [], ◌∷◌, ◌++◌, map, All, All-Permᴰ, if◌then◌else◌,
  inl, inr, Bool-cases, arith,
}
use mathlib.Core.List.{Permᴰ}
use realtime_ingestion.Postgres.Row.{DailyRow}
use realtime_ingestion.Postgres.Totals.{
  AggKey, key_of, key_eq, zero_row, add_to, Agg, add_row, aggregate,
}
use realtime_ingestion.Postgres.Totals.Keys.{Absent, Unique}
use realtime_ingestion.Postgres.Totals.Sums.{Column, value, held, brought}

-- Each entry stands under the key of its row.
abbrev pub Keyed : Agg → Type 0
Keyed agg = All (λ (e : AggKey × DailyRow). e.0 ≡ key_of e.1) agg

-- No two rows have the same key.
abbrev pub Distinct : List DailyRow → Type 0
Distinct [] = Unit
Distinct (row ∷ rows) = All (λ (r : DailyRow). key_of r ≢ key_of row) rows × Distinct rows

abbrev pub values : Agg → List DailyRow
values agg = map (λ (e : AggKey × DailyRow). e.1) agg

key_of-add_to : (entry row : DailyRow) → key_of (add_to entry row) ≡ key_of entry
unfolding add_to
key_of-add_to entry row = refl

add_row-Keyed : (row : DailyRow) (agg : Agg) → Keyed agg → Keyed (add_row row agg)
unfolding add_row
add_row-Keyed row [] h = (sym (key_of-add_to (zero_row row) row), tt)
add_row-Keyed row ((key, entry) ∷ agg) h = elim (Bool-cases (key_eq key (key_of row))) [
  | inl same ↦ rw same (h.0 ∙ sym (key_of-add_to entry row), h.1)
  | inr other ↦ rw other (h.0, add_row-Keyed row agg h.1)
]

pub aggregate-Keyed : (agg : Agg) (rows : List DailyRow) → Keyed agg → Keyed (aggregate agg rows)
unfolding aggregate
aggregate-Keyed agg [] h = h
aggregate-Keyed agg (row ∷ rows) h =
    aggregate-Keyed (add_row row agg) rows (add_row-Keyed row agg h)

pub aggregate-snoc :
    (agg : Agg) (rows : List DailyRow) (row : DailyRow)
    → aggregate agg (rows ++ row ∷ []) ≡ add_row row (aggregate agg rows)
unfolding aggregate
aggregate-snoc agg [] row = refl
aggregate-snoc agg (r ∷ rows) row = aggregate-snoc (add_row r agg) rows row

pub brought-append :
    (c : Column) (k : AggKey) (xs ys : List DailyRow)
    → brought c k (xs ++ ys) ≡ brought c k xs + brought c k ys
brought-append c k [] ys = omega arith
brought-append c k (x ∷ xs) ys = omega (arith, brought-append c k xs ys)

pub brought-values :
    (c : Column) (k : AggKey) (agg : Agg) → Keyed agg → brought c k (values agg) ≡ held c k agg
brought-values c k [] h = refl
brought-values c k ((key, entry) ∷ agg) h = rw h.0 (
    ap (λ n. (if key_eq (key_of entry) k then value c entry else 0) + n)
      (brought-values c k agg h.1))

values-apart :
    (key : AggKey) (agg : Agg)
    → Keyed agg
    → Absent key agg
    → All (λ (r : DailyRow). key_of r ≢ key) (values agg)
values-apart key [] h g = tt
values-apart key ((j, entry) ∷ agg) h g = ((λ e. g.0 (h.0 ∙ e)), values-apart key agg h.1 g.1)

pub values-Distinct : (agg : Agg) → Keyed agg → Unique agg → Distinct (values agg)
values-Distinct [] h u = tt
values-Distinct ((key, entry) ∷ agg) h u =
    (rw (← h.0) (values-apart key agg h.1 u.0), values-Distinct agg h.1 u.1)

-- The order in which the map hands its entries out does not matter.
pub held-Permᴰ : (c : Column) (k : AggKey) {a b : Agg} → Permᴰ a b → held c k a ≡ held c k b
held-Permᴰ c k Permᴰ.nil = refl
held-Permᴰ c k (Permᴰ.cons {a = (i, x)} {b = (j, y)} {l₁ = l} {l₂ = m} e p) =
    ap (λ (s : AggKey × DailyRow). (if key_eq s.0 k then value c s.1 else 0) + held c k l) e
    ∙ ap (λ n. (if key_eq j k then value c y else 0) + n) (held-Permᴰ c k p)
held-Permᴰ c k (Permᴰ.swap {a = (i, x)} {b = (j, y)} {a' = (j', y')} {b' = (i', x')} {l = l} e f) =
    ap
      (λ (s : AggKey × DailyRow).
        (if key_eq s.0 k then value c s.1 else 0)
        + ((if key_eq j k then value c y else 0) + held c k l))
      e
    ∙ ap
        (λ (s : AggKey × DailyRow).
          (if key_eq i' k then value c x' else 0)
          + ((if key_eq s.0 k then value c s.1 else 0) + held c k l))
        f
    ∙ omega arith
held-Permᴰ c k (Permᴰ.trans p q) = held-Permᴰ c k p ∙ held-Permᴰ c k q

pub Unique-Permᴰ : {a b : Agg} → Permᴰ a b → Unique a → Unique b
Unique-Permᴰ Permᴰ.nil u = u
Unique-Permᴰ (Permᴰ.cons {a = (i, x)} {b = (j, y)} {l₂ = m} e p) u = (
  rw (← ap (λ (s : AggKey × DailyRow). s.0) e)
      (All-Permᴰ (λ (s : AggKey × DailyRow). s.0 ≢ i) p u.0),
  Unique-Permᴰ p u.1,
)
Unique-Permᴰ (Permᴰ.swap {a = (i, x)} {b = (j, y)} {a' = (j', y')} {b' = (i', x')} {l = l} e f) u =
    let p = ap (λ (s : AggKey × DailyRow). s.0) e in
    let q = ap (λ (s : AggKey × DailyRow). s.0) f in
    (
      ((λ r. u.0.0 (q ∙ sym r ∙ sym p)), subst (λ z. Absent z l) q u.1.0),
      (subst (λ z. Absent z l) p u.0.1, u.1.1),
    )
Unique-Permᴰ (Permᴰ.trans p q) u = Unique-Permᴰ q (Unique-Permᴰ p u)
