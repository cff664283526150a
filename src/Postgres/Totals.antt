-- ===== src/Postgres/Totals.antt =====
-- The sums of a batch in `flush` of src/consumer/postgres.rs: the `HashMap` by time, business,
-- merchant and terminal. Sums wrap, as in a release build.
pub mod Keys
pub mod Sums
pub mod Rows
use realtime_ingestion.Base.{ℕ, ◌+◌, ◌%◌, ◌^◌, Bool, ◌&&◌, List, [], ◌∷◌, ◌==◌, if◌then◌else◌}
use realtime_ingestion.Text.{Text, text_eq}
use realtime_ingestion.Postgres.Row.{DailyRow}

pub record AggKey : Type 0 where
  pub ts : ℕ
  pub bid : Text
  pub mid : Text
  pub psn : Text

abbrev pub key_of : DailyRow → AggKey
key_of row = record { ts = row.ts_unix; bid = row.kicc_bid; mid = row.kicc_mid; psn = row.kicc_psn }

unfoldable pub key_eq : AggKey → AggKey → Bool
key_eq k j = k.ts == j.ts && text_eq k.bid j.bid && text_eq k.mid j.mid && text_eq k.psn j.psn

-- What `or_insert` puts there.
abbrev pub zero_row : DailyRow → DailyRow
zero_row row = record row {
  card_amount = 0;
  card_count = 0;
  cash_amount = 0;
  cash_count = 0;
  cancel_amount = 0;
  cancel_count = 0;
  other_amount = 0;
  other_count = 0;
}

-- The eight `+=`.
unfoldable pub add_to : DailyRow → DailyRow → DailyRow
add_to entry row = record entry {
  card_amount = (entry.card_amount + row.card_amount) % 2 ^ 64;
  card_count = (entry.card_count + row.card_count) % 2 ^ 32;
  cash_amount = (entry.cash_amount + row.cash_amount) % 2 ^ 64;
  cash_count = (entry.cash_count + row.cash_count) % 2 ^ 32;
  cancel_amount = (entry.cancel_amount + row.cancel_amount) % 2 ^ 64;
  cancel_count = (entry.cancel_count + row.cancel_count) % 2 ^ 32;
  other_amount = (entry.other_amount + row.other_amount) % 2 ^ 64;
  other_count = (entry.other_count + row.other_count) % 2 ^ 32;
}

abbrev pub Agg : Type 0
Agg = List (AggKey × DailyRow)

-- `agg.entry(key).or_insert(..)` and the sums.
unfoldable pub add_row : DailyRow → Agg → Agg
add_row row [] = (key_of row, add_to (zero_row row) row) ∷ []
add_row row ((key, entry) ∷ agg) =
    if key_eq key (key_of row)
    then (key, add_to entry row) ∷ agg
    else (key, entry) ∷ add_row row agg

unfoldable pub aggregate : Agg → List DailyRow → Agg
aggregate agg [] = agg
aggregate agg (row ∷ rows) = aggregate (add_row row agg) rows
