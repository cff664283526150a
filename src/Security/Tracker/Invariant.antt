-- ===== src/Security/Tracker/Invariant.antt =====
-- The counters of `ConnectionTracker`, src/security.rs, along a history of whole calls.
use realtime_ingestion.Base.{
  ℕ, suc, ◌+◌, ◌-◌, ◌^◌, ◌≡◌, ◌≤◌, ◌<◌, refl, List, [], ◌∷◌, ◌++◌, ltb, ◌&&◌, true, false, ◌==◌,
  if◌then◌else◌, unwrap_or, length, length-append, arith, Option-cases, inl, inr,
}
use realtime_ingestion.Base.Map.{lookup, lookup-insert, lookup-remove}
use realtime_ingestion.Security.Tracker.{
  ConnectionTracker, new, guard, entry_or_zero, decrement, acquire, release,
}

-- How many guards there are for an address.
abbrev pub count : ℕ → List ℕ → ℕ
count ip [] = 0
count ip (g ∷ gs) = (if g == ip then 1 else 0) + count ip gs

abbrev pub counter : ConnectionTracker → ℕ → ℕ
counter t ip = unwrap_or (lookup ip t.per_ip) 0

-- A history of the tracker, with the guards that are held.
pub data Reach (max_total max_per_ip : ℕ) : ConnectionTracker → List ℕ → Type 0 where
  start : Reach max_total max_per_ip (new max_total max_per_ip) []
  admitted :
      {t : ConnectionTracker} {gs : List ℕ} (ip : ℕ)
      → Reach max_total max_per_ip t gs
      → (acquire t ip).0 ≡ guard ip
      → Reach max_total max_per_ip (acquire t ip).1 (ip ∷ gs)
  refused :
      {t : ConnectionTracker} {gs : List ℕ} (ip : ℕ)
      → Reach max_total max_per_ip t gs
      → ((acquire t ip).0 ≡ guard ip → ⊥)
      → Reach max_total max_per_ip (acquire t ip).1 gs
  dropped :
      {t : ConnectionTracker} (before after : List ℕ) (ip : ℕ)
      → Reach max_total max_per_ip t (before ++ ip ∷ after)
      → Reach max_total max_per_ip (release t ip) (before ++ after)

pub record Inv (max_total max_per_ip : ℕ) (t : ConnectionTracker) (gs : List ℕ) : Type 0 where
  pub limits : (t.max_total ≡ max_total) × (t.max_per_ip ≡ max_per_ip)
  pub all_counted : t.total ≡ length gs
  pub counted : (ip : ℕ) → counter t ip ≡ count ip gs
  pub bounded : length gs ≤ max_total
  pub bounded_ip : (ip : ℕ) → count ip gs ≤ max_per_ip

pub count-append : (ip : ℕ) (xs ys : List ℕ) → count ip (xs ++ ys) ≡ count ip xs + count ip ys
count-append ip [] ys = omega arith
count-append ip (x ∷ xs) ys = omega (arith, count-append ip xs ys)

-- Making an entry changes no counter.
entry_or_zero-counters :
    (ip : ℕ) (m : List (ℕ × ℕ))
    → ((entry_or_zero ip m).0 ≡ unwrap_or (lookup ip m) 0)
      × ((j : ℕ) → unwrap_or (lookup j (entry_or_zero ip m).1) 0 ≡ unwrap_or (lookup j m) 0)
unfolding entry_or_zero
entry_or_zero-counters ip m = elim (Option-cases (lookup ip m)) [
  | inl absent ↦ rw (absent, entry_or_zero) (refl, λ j. ground (arith, lookup-insert ip j 0 m))
  | inr (n, there) ↦ rw (there, entry_or_zero) (refl, λ j. refl)
]

decrement-counters :
    (ip j : ℕ) (m : List (ℕ × ℕ))
    → unwrap_or (lookup j (decrement ip m)) 0
      ≡ unwrap_or (lookup j m) 0 - (if ip == j then 1 else 0)
unfolding decrement
decrement-counters ip j m = elim (Option-cases (lookup ip m)) [
  | inl absent ↦ rw (absent, decrement) (ground arith)
  | inr (n, there) ↦
      rw (there, decrement) (ground (arith, lookup-remove ip j m, lookup-insert ip j (n - 1) m))
]

module _ (max_total max_per_ip : ℕ) (t : ConnectionTracker) (gs : List ℕ)
    (v : Inv max_total max_per_ip t gs) where
  acquire-admitted :
      (ip : ℕ)
      → max_total < 2 ^ 64
      → (acquire t ip).0 ≡ guard ip
      → Inv max_total max_per_ip (acquire t ip).1 (ip ∷ gs)
  unfolding acquire
  acquire-admitted ip small e =
      let (entry, same) = entry_or_zero-counters ip t.per_ip in
      record {
        limits = ground (arith, v.limits);
        all_counted = ground (arith, v.limits, v.all_counted, v.bounded);
        counted = λ j. ground (
          arith,
          entry,
          same j,
          v.counted ip,
          v.counted j,
          lookup-insert ip j ((entry_or_zero ip t.per_ip).0 + 1) (entry_or_zero ip t.per_ip).1,
        );
        bounded = ground (arith, v.limits, v.all_counted, v.bounded);
        bounded_ip = λ j. ground (arith, entry, v.limits, v.counted ip, v.bounded_ip j);
      }

  acquire-refused :
      (ip : ℕ)
      → max_total < 2 ^ 64
      → ((acquire t ip).0 ≡ guard ip → ⊥)
      → Inv max_total max_per_ip (acquire t ip).1 gs
  unfolding acquire
  acquire-refused ip small e =
      let (entry, same) = entry_or_zero-counters ip t.per_ip in
      record {
        limits = ground (arith, v.limits);
        all_counted = ground (arith, v.limits, v.all_counted, v.bounded);
        counted = λ j. ground (arith, same j, v.counted j);
        bounded = v.bounded;
        bounded_ip = v.bounded_ip;
      }

release-Inv :
    (max_total max_per_ip : ℕ) (t : ConnectionTracker) (before after : List ℕ) (ip : ℕ)
    → max_total < 2 ^ 64
    → Inv max_total max_per_ip t (before ++ ip ∷ after)
    → Inv max_total max_per_ip (release t ip) (before ++ after)
unfolding release
release-Inv max_total max_per_ip t before after ip small v =
    let lengths : length (before ++ ip ∷ after) ≡ suc (length (before ++ after)) =
      omega (arith, length-append before (ip ∷ after), length-append before after) in
    let counts : (j : ℕ) → count j (before ++ ip ∷ after) ≡ count j (ip ∷ (before ++ after)) =
      λ j. omega (arith, count-append j before (ip ∷ after), count-append j before after) in
    record {
      limits = v.limits;
      all_counted = omega (arith, lengths, v.all_counted, v.bounded);
      counted = λ j. ground (arith, decrement-counters ip j t.per_ip, v.counted j, counts j);
      bounded = omega (arith, lengths, v.bounded);
      bounded_ip = λ j. ground (arith, counts j, v.bounded_ip j);
    }

-- In every history of whole calls, with `max_total` below 2 ^ 64, the counters are exact and the
-- limits hold: there are never more guards than `max_total`, nor more of one address than
-- `max_per_ip`.
pub Reach-Inv :
    {max_total max_per_ip : ℕ} {t : ConnectionTracker} {gs : List ℕ}
    → max_total < 2 ^ 64
    → Reach max_total max_per_ip t gs
    → Inv max_total max_per_ip t gs
unfolding new lookup
Reach-Inv small start = record {
  limits = (refl, refl);
  all_counted = refl;
  counted = λ j. refl;
  bounded = omega arith;
  bounded_ip = λ j. omega arith;
}
Reach-Inv small (admitted {t} {gs} ip r e) =
    acquire-admitted _ _ t gs (Reach-Inv small r) ip small e
Reach-Inv small (refused {t} {gs} ip r e) = acquire-refused _ _ t gs (Reach-Inv small r) ip small e
Reach-Inv small (dropped {t} before after ip r) =
    release-Inv _ _ t before after ip small (Reach-Inv small r)

-- A connection is admitted exactly while both limits leave room for it.
pub acquire-room :
    {max_total max_per_ip : ℕ} (t : ConnectionTracker) (gs : List ℕ) (ip : ℕ)
    → Inv max_total max_per_ip t gs
    → ((ltb (count ip gs) max_per_ip && ltb (length gs) max_total) ≡ true
        → (acquire t ip).0 ≡ guard ip)
      × ((ltb (count ip gs) max_per_ip && ltb (length gs) max_total) ≡ false
          → (acquire t ip).0 ≡ guard ip
          → ⊥)
unfolding acquire
acquire-room t gs ip v =
    let (entry, same) = entry_or_zero-counters ip t.per_ip in
    (
      λ h. ground (arith, entry, v.limits, v.all_counted, v.counted ip),
      λ h e. ground (arith, entry, v.limits, v.all_counted, v.counted ip),
    )
