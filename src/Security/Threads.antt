-- ===== src/Security/Threads.antt =====
-- The calls of `ConnectionTracker`, src/security.rs, in their atomic steps: many tasks acquire and
-- release at once. `DashMap` locks the entry of an address while a reference to it is held.
pub mod Limit
use realtime_ingestion.Base.{
  ℕ, ◌+◌, ◌-◌, ◌%◌, ◌^◌, ◌≡◌, ◌≤◌, ◌<◌, Bool, true, false, some, none, List, [], ◌∷◌, ◌++◌, ◌==◌,
  All, length, unwrap_or,
}
use realtime_ingestion.Base.Map.{lookup, insert, remove}
use realtime_ingestion.Security.Tracker.{ConnectionTracker, new, entry_or_zero}

-- Where a task stands. In `acquire`: behind the test of the address, behind a `fetch_add` below the
-- limit, behind one above it. Then it holds the guard. In `release`: behind `fetch_sub`, and behind
-- the `drop` of a count that is 0.
pub data Task : Type 0 where
  checked counted over holding releasing emptied : ℕ → Task

-- Whether a task holds the lock of an address.
abbrev pub locks : ℕ → Task → Bool
locks ip (checked i) = i == ip
locks ip (counted i) = i == ip
locks ip (over i) = i == ip
locks ip (holding i) = false
locks ip (releasing i) = false
locks ip (emptied i) = false

abbrev pub Free : ℕ → List Task → Type 0
Free ip ts = All (λ t. locks ip t ≡ false) ts

abbrev pub with_total : ConnectionTracker → ℕ → ConnectionTracker
with_total s n = record s { total = n % 2 ^ 64 }

abbrev pub with_entries : ConnectionTracker → List (ℕ × ℕ) → ConnectionTracker
with_entries s m = record s { per_ip = m }

-- One atomic step of one task.
pub data Step : ConnectionTracker → List Task → ConnectionTracker → List Task → Type 0 where
  check :
      (s : ConnectionTracker) (ts : List Task) (ip : ℕ)
      → Free ip ts
      → (entry_or_zero ip s.per_ip).0 < s.max_per_ip
      → Step s ts (with_entries s (entry_or_zero ip s.per_ip).1) (checked ip ∷ ts)
  refuse :
      (s : ConnectionTracker) (ts : List Task) (ip : ℕ)
      → Free ip ts
      → s.max_per_ip ≤ (entry_or_zero ip s.per_ip).0
      → Step s ts (with_entries s (entry_or_zero ip s.per_ip).1) ts
  fetch_add_below :
      (s : ConnectionTracker) (before after : List Task) (ip : ℕ)
      → s.total < s.max_total
      → Step s
          (before ++ checked ip ∷ after)
          (with_total s (s.total + 1))
          (before ++ counted ip ∷ after)
  fetch_add_above :
      (s : ConnectionTracker) (before after : List Task) (ip : ℕ)
      → s.max_total ≤ s.total
      → Step s
          (before ++ checked ip ∷ after)
          (with_total s (s.total + 1))
          (before ++ over ip ∷ after)
  undo :
      (s : ConnectionTracker) (before after : List Task) (ip : ℕ)
      → Step s (before ++ over ip ∷ after) (with_total s (s.total + (2 ^ 64 - 1))) (before ++ after)
  admit :
      (s : ConnectionTracker) (before after : List Task) (ip : ℕ)
      → Step s
          (before ++ counted ip ∷ after)
          (with_entries s (insert ip (unwrap_or (lookup ip s.per_ip) 0 + 1) s.per_ip))
          (before ++ holding ip ∷ after)
  drop_guard :
      (s : ConnectionTracker) (before after : List Task) (ip : ℕ)
      → Step s
          (before ++ holding ip ∷ after)
          (with_total s (s.total + (2 ^ 64 - 1)))
          (before ++ releasing ip ∷ after)
  no_entry :
      (s : ConnectionTracker) (before after : List Task) (ip : ℕ)
      → Free ip (before ++ after)
      → lookup ip s.per_ip ≡ none
      → Step s (before ++ releasing ip ∷ after) s (before ++ after)
  count_down :
      (s : ConnectionTracker) (before after : List Task) (ip count : ℕ)
      → Free ip (before ++ after)
      → lookup ip s.per_ip ≡ some count
      → 1 < count
      → Step s
          (before ++ releasing ip ∷ after)
          (with_entries s (insert ip (count - 1) s.per_ip))
          (before ++ after)
  count_out :
      (s : ConnectionTracker) (before after : List Task) (ip count : ℕ)
      → Free ip (before ++ after)
      → lookup ip s.per_ip ≡ some count
      → count ≤ 1
      → Step s
          (before ++ releasing ip ∷ after)
          (with_entries s (insert ip (count - 1) s.per_ip))
          (before ++ emptied ip ∷ after)
  remove_entry :
      (s : ConnectionTracker) (before after : List Task) (ip : ℕ)
      → Free ip (before ++ after)
      → Step s
          (before ++ emptied ip ∷ after)
          (with_entries s (remove ip s.per_ip))
          (before ++ after)

-- The states that steps lead to, with fewer than 2 ^ 64 tasks at every time.
pub data Reached (max_total max_per_ip : ℕ) : ConnectionTracker → List Task → Type 0 where
  start : Reached max_total max_per_ip (new max_total max_per_ip) []
  next :
      {s s' : ConnectionTracker} {ts ts' : List Task}
      → Reached max_total max_per_ip s ts
      → Step s ts s' ts'
      → length ts' < 2 ^ 64
      → Reached max_total max_per_ip s' ts'
