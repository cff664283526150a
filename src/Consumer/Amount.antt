-- ===== src/Consumer/Amount.antt =====
-- What `parse_amount` and the prefetch count of src/consumer/mysql.rs and src/consumer/postgres.rs
-- compute.
use realtime_ingestion.Base.{
  ℕ, ◌-◌, ◌*◌, ◌^◌, ◌≤◌, ◌<◌, ◌≡◌, refl, true, some, [], ◌∷◌, all, ◌∙◌, if◌then◌else◌, unwrap_or,
  is_empty, arith,
}
use realtime_ingestion.Text.{Text, is_ascii_digit, trim_zeros, parse_i64, value_from}
use realtime_ingestion.Text.Laws.{trim_digits, digits_to-value_from}
use realtime_ingestion.Consumer.{parse_amount, prefetch_count}

trim_zeros-digits :
    (t : Text)
    → all is_ascii_digit t ≡ true
    → (all is_ascii_digit (trim_zeros t) ≡ true) × (value_from 0 (trim_zeros t) ≡ value_from 0 t)
unfolding trim_zeros value_from
trim_zeros-digits [] h = (refl, refl)
trim_zeros-digits (c ∷ t) h = ground (arith, trim_zeros-digits t)

parse_i64-digits :
    (c : ℕ) (t : Text)
    → all is_ascii_digit (c ∷ t) ≡ true
    → value_from 0 (c ∷ t) < 2 ^ 63
    → parse_i64 (c ∷ t) ≡ some (value_from 0 (c ∷ t))
unfolding parse_i64
parse_i64-digits c [] h b = digits_to-value_from (2 ^ 63 - 1) 0 (c ∷ []) h (omega arith)
parse_i64-digits c (d ∷ t) h b =
    ground (arith, digits_to-value_from (2 ^ 63 - 1) 0 (c ∷ d ∷ t) h (omega arith))

read :
    (u : Text)
    → all is_ascii_digit u ≡ true
    → value_from 0 u < 2 ^ 63
    → (if is_empty u then 0 else unwrap_or (parse_i64 u) 0) ≡ value_from 0 u
unfolding value_from
read [] d b = refl
read (c ∷ u) d b = rw (parse_i64-digits c u d b) refl

-- Decimal digits, with any number of zeros before them, are read as the number that they stand for,
-- if it fits in an `i64`.
pub parse_amount-digits :
    (t : Text)
    → all is_ascii_digit t ≡ true
    → value_from 0 t < 2 ^ 63
    → parse_amount t ≡ value_from 0 t
unfolding parse_amount
parse_amount-digits t h b =
    let (d, v) = trim_zeros-digits t h in rw (trim_digits t h) (read (trim_zeros t) d (rw v b) ∙ v)

-- For a batch size below 32768 the prefetch count covers two batches. For one of 32768 or more, below
-- 2 ^ 63, it is less than the batch size.
pub prefetch_count_covers :
    (n : ℕ)
    → n < 2 ^ 63
    → (n < 32768 → 2 * n ≤ prefetch_count n) × (32768 ≤ n → prefetch_count n < n)
unfolding prefetch_count
prefetch_count_covers n h = (λ k. omega arith, λ k. omega arith)
