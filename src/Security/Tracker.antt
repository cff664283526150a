-- ===== src/Security/Tracker.antt =====
-- `ConnectionTracker` of src/security.rs. An address is a number; the map of the counters is an
-- association list. `usize` has 64 bits, and `fetch_sub` wraps.
pub mod Invariant
use realtime_ingestion.Base.{
  ℕ, ◌+◌, ◌-◌, ◌%◌, ◌^◌, Option, none, some, List, [], ◌∷◌, ltb, leb, ◌==◌, if◌then◌else◌,
  unwrap_or,
}
use realtime_ingestion.Base.Map.{lookup, insert, remove}

pub record ConnectionTracker : Type 0 where
  pub total : ℕ
  pub per_ip : List (ℕ × ℕ)
  pub max_total : ℕ
  pub max_per_ip : ℕ

unfoldable pub new : ℕ → ℕ → ConnectionTracker
new max_total max_per_ip = record {
  total = 0;
  per_ip = [];
  max_total = max_total;
  max_per_ip = max_per_ip;
}

-- `Ok` with the guard, which keeps the address, or one of the two reasons.
pub data Acquired : Type 0 where
  guard : ℕ → Acquired
  too_many_of_ip too_many : Acquired

-- `entry(ip).or_insert(0)`: the counter, and the map with it.
unfoldable pub entry_or_zero : ℕ → List (ℕ × ℕ) → ℕ × List (ℕ × ℕ)
entry_or_zero ip m = elim (lookup ip m) [ some n ↦ (n, m) | none ↦ (0, insert ip 0 m) ]

unfoldable pub acquire : ConnectionTracker → ℕ → Acquired × ConnectionTracker
acquire t ip =
    let (entry, per_ip) = entry_or_zero ip t.per_ip in
    if leb t.max_per_ip entry
    then (too_many_of_ip, record t { per_ip = per_ip })
    else if leb t.max_total t.total
    then (
      too_many,
      record t { total = ((t.total + 1) % 2 ^ 64 + (2 ^ 64 - 1)) % 2 ^ 64; per_ip = per_ip },
    )
    else (
      guard ip,
      record t { total = (t.total + 1) % 2 ^ 64; per_ip = insert ip (entry + 1) per_ip },
    )

-- `if let Some(mut count) = self.per_ip.get_mut(&ip)` with its body.
unfoldable pub decrement : ℕ → List (ℕ × ℕ) → List (ℕ × ℕ)
decrement ip m = elim (lookup ip m) [
  | none ↦ m
  | some count ↦ if count - 1 == 0 then remove ip m else insert ip (count - 1) m
]

-- The drop of a guard.
unfoldable pub release : ConnectionTracker → ℕ → ConnectionTracker
release t ip = record t {
  total = (t.total + (2 ^ 64 - 1)) % 2 ^ 64;
  per_ip = decrement ip t.per_ip;
}
