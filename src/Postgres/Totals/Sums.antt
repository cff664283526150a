-- ===== src/Postgres/Totals/Sums.antt =====
-- The sums of src/consumer/postgres.rs, column by column.
use native.Mathlib.Nat.{mod-add-mod, add-mod-mod}
use realtime_ingestion.Base.{
  ℕ, ◌+◌, ◌%◌, ◌^◌, ◌≡◌, refl, sym, ap, ◌∙◌, Bool, true, false, List, [], ◌∷◌, if◌then◌else◌, inl,
  inr, Bool-cases, arith,
}
use realtime_ingestion.Postgres.Row.{DailyRow}
use realtime_ingestion.Postgres.Totals.{
  AggKey, key_of, key_eq, zero_row, add_to, Agg, add_row, aggregate,
}
use realtime_ingestion.Postgres.Totals.Keys.{key_eq_sound}

-- The eight columns, and where each wraps.
pub data Column : Type 0 where
  card_amount card_count cash_amount cash_count : Column
  cancel_amount cancel_count other_amount other_count : Column

abbrev pub value : Column → DailyRow → ℕ
value card_amount row = row.card_amount
value card_count row = row.card_count
value cash_amount row = row.cash_amount
value cash_count row = row.cash_count
value cancel_amount row = row.cancel_amount
value cancel_count row = row.cancel_count
value other_amount row = row.other_amount
value other_count row = row.other_count

abbrev pub modulus : Column → ℕ
modulus card_amount = 2 ^ 64
modulus card_count = 2 ^ 32
modulus cash_amount = 2 ^ 64
modulus cash_count = 2 ^ 32
modulus cancel_amount = 2 ^ 64
modulus cancel_count = 2 ^ 32
modulus other_amount = 2 ^ 64
modulus other_count = 2 ^ 32

-- What the entries of a key hold, and what the rows of a key bring.
abbrev pub held : Column → AggKey → Agg → ℕ
held c k [] = 0
held c k ((key, entry) ∷ agg) = (if key_eq key k then value c entry else 0) + held c k agg

abbrev pub brought : Column → AggKey → List DailyRow → ℕ
brought c k [] = 0
brought c k (row ∷ rows) = (if key_eq (key_of row) k then value c row else 0) + brought c k rows

value-add_to :
    (c : Column) (entry row : DailyRow)
    → value c (add_to entry row) ≡ (value c entry + value c row) % modulus c
unfolding add_to
value-add_to card_amount entry row = refl
value-add_to card_count entry row = refl
value-add_to cash_amount entry row = refl
value-add_to cash_count entry row = refl
value-add_to cancel_amount entry row = refl
value-add_to cancel_count entry row = refl
value-add_to other_amount entry row = refl
value-add_to other_count entry row = refl

value-zero_row : (c : Column) (row : DailyRow) → value c (zero_row row) ≡ 0
value-zero_row card_amount row = refl
value-zero_row card_count row = refl
value-zero_row cash_amount row = refl
value-zero_row cash_count row = refl
value-zero_row cancel_amount row = refl
value-zero_row cancel_count row = refl
value-zero_row other_amount row = refl
value-zero_row other_count row = refl

first :
    (b : Bool) (z r m : ℕ)
    → z ≡ 0
    → ((if b then (z + r) % m else 0) + 0) % m ≡ ((if b then r else 0) + 0) % m
first true z r m h = mod-add-mod (z + r) m 0 ∙ ap (λ n. n % m) (omega arith)
first false z r m h = refl

gain :
    (b : Bool) (e r h m : ℕ)
    → ((if b then (e + r) % m else 0) + h) % m
      ≡ ((if b then r else 0) + ((if b then e else 0) + h)) % m
gain true e r h m = mod-add-mod (e + r) m h ∙ ap (λ n. n % m) (omega arith)
gain false e r h m = ap (λ n. n % m) (omega arith)

carry : (x y h h' m : ℕ) → h' % m ≡ (y + h) % m → (x + h') % m ≡ (y + (x + h)) % m
carry x y h h' m e =
    sym (add-mod-mod x h' m)
    ∙ ap (λ n. (x + n) % m) e
    ∙ add-mod-mod x (y + h) m
    ∙ ap (λ n. n % m) (omega arith)

add_row-held :
    (c : Column) (k : AggKey) (row : DailyRow) (agg : Agg)
    → held c k (add_row row agg) % modulus c
      ≡ ((if key_eq (key_of row) k then value c row else 0) + held c k agg) % modulus c
unfolding add_row
add_row-held c k row [] = rw (value-add_to c (zero_row row) row) (
    first (key_eq (key_of row) k) (value c (zero_row row)) (value c row) (modulus c)
      (value-zero_row c row))
add_row-held c k row ((j, entry) ∷ agg) = elim (Bool-cases (key_eq j (key_of row))) [
  | inl same ↦
      rw
        (
          same,
          ap (λ x. key_eq x k) (sym (key_eq_sound j (key_of row) same)),
          value-add_to c entry row,
        )
        (gain (key_eq j k) (value c entry) (value c row) (held c k agg) (modulus c))
  | inr other ↦ rw other (
      carry (if key_eq j k then value c entry else 0)
        (if key_eq (key_of row) k then value c row else 0) (held c k agg)
        (held c k (add_row row agg)) (modulus c) (add_row-held c k row agg))
]

aggregate-extends-held :
    (c : Column) (k : AggKey) (agg : Agg) (rows : List DailyRow)
    → held c k (aggregate agg rows) % modulus c ≡ (brought c k rows + held c k agg) % modulus c
unfolding aggregate
aggregate-extends-held c k agg [] = ap (λ n. n % modulus c) (omega arith)
aggregate-extends-held c k agg (row ∷ rows) =
    let y = if key_eq (key_of row) k then value c row else 0 in
    aggregate-extends-held c k (add_row row agg) rows
    ∙ carry (brought c k rows) y (held c k agg) (held c k (add_row row agg)) (modulus c)
        (add_row-held c k row agg)
    ∙ ap (λ n. n % modulus c) (omega arith)

-- For each column and key, the entries of the key hold what its rows bring, up to the width of the
-- column.
pub aggregate-held :
    (c : Column) (k : AggKey) (rows : List DailyRow)
    → held c k (aggregate [] rows) % modulus c ≡ brought c k rows % modulus c
aggregate-held c k rows = aggregate-extends-held c k [] rows ∙ ap (λ n. n % modulus c) (omega arith)
