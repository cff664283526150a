-- ===== src/Security/Threads/Limit.antt =====
-- The limit on all connections of src/security.rs, when the steps of the tasks interleave.
use realtime_ingestion.Base.{
  ℕ, ◌+◌, ◌-◌, ◌%◌, ◌^◌, ◌≡◌, ◌≤◌, ◌<◌, refl, sym, ◌∙◌, List, [], ◌∷◌, ◌++◌, length, arith,
}
use realtime_ingestion.Security.Tracker.{ConnectionTracker, new}
use realtime_ingestion.Security.Threads.{
  Task, checked, counted, over, holding, releasing, emptied, Step, Step.check, Step.refuse,
  Step.fetch_add_below, Step.fetch_add_above, Step.undo, Step.admit, Step.drop_guard, Step.no_entry,
  Step.count_down, Step.count_out, Step.remove_entry, Reached, Reached.start, Reached.next,
}

-- Whether `total` counts a task, and whether its connection was let in.
abbrev pub in_total : Task → ℕ
in_total (checked ip) = 0
in_total (counted ip) = 1
in_total (over ip) = 1
in_total (holding ip) = 1
in_total (releasing ip) = 0
in_total (emptied ip) = 0

abbrev pub let_in : Task → ℕ
let_in (checked ip) = 0
let_in (counted ip) = 1
let_in (over ip) = 0
let_in (holding ip) = 1
let_in (releasing ip) = 0
let_in (emptied ip) = 0

abbrev pub sum : (Task → ℕ) → List Task → ℕ
sum f [] = 0
sum f (t ∷ ts) = f t + sum f ts

in_total-le : (ts : List Task) → sum in_total ts ≤ length ts
in_total-le [] = omega arith
in_total-le (checked ip ∷ ts) = omega (arith, in_total-le ts)
in_total-le (counted ip ∷ ts) = omega (arith, in_total-le ts)
in_total-le (over ip ∷ ts) = omega (arith, in_total-le ts)
in_total-le (holding ip ∷ ts) = omega (arith, in_total-le ts)
in_total-le (releasing ip ∷ ts) = omega (arith, in_total-le ts)
in_total-le (emptied ip ∷ ts) = omega (arith, in_total-le ts)

let_in-le : (ts : List Task) → sum let_in ts ≤ sum in_total ts
let_in-le [] = omega arith
let_in-le (checked ip ∷ ts) = omega (arith, let_in-le ts)
let_in-le (counted ip ∷ ts) = omega (arith, let_in-le ts)
let_in-le (over ip ∷ ts) = omega (arith, let_in-le ts)
let_in-le (holding ip ∷ ts) = omega (arith, let_in-le ts)
let_in-le (releasing ip ∷ ts) = omega (arith, let_in-le ts)
let_in-le (emptied ip ∷ ts) = omega (arith, let_in-le ts)

-- `total` is exact, and no more connections were let in than the limit.
pub record IsWithin (max_total : ℕ) (s : ConnectionTracker) (ts : List Task) : Type 0 where
  pub limit : s.max_total ≡ max_total
  pub exact : s.total ≡ sum in_total ts
  pub bounded : sum let_in ts ≤ max_total

-- One task among others.
among :
    (f : Task → ℕ) (before after : List Task) (t : Task)
    → sum f (before ++ t ∷ after) ≡ f t + sum f (before ++ after)
among f [] after t = refl
among f (x ∷ before) after t = omega (arith, among f before after t)

module _ (max_total : ℕ) where
  -- A task whose place in the two sums stays the same.
  moved :
      {s s' : ConnectionTracker} {ts ts' : List Task}
      → IsWithin max_total s ts
      → s'.max_total ≡ s.max_total
      → s'.total ≡ s.total
      → sum in_total ts' ≡ sum in_total ts
      → sum let_in ts' ≡ sum let_in ts
      → IsWithin max_total s' ts'
  moved i m t a b = record {
    limit = m ∙ i.limit;
    exact = t ∙ i.exact ∙ sym a;
    bounded = omega (arith, i.bounded, b);
  }

  -- A task that `total` counts from now on.
  raised :
      {s s' : ConnectionTracker} {ts ts' : List Task}
      → IsWithin max_total s ts
      → s'.max_total ≡ s.max_total
      → s'.total ≡ (s.total + 1) % 2 ^ 64
      → length ts' < 2 ^ 64
      → sum in_total ts' ≡ 1 + sum in_total ts
      → sum let_in ts' ≤ max_total
      → IsWithin max_total s' ts'
  raised {ts' = ts'} i m t l a b = record {
    limit = m ∙ i.limit;
    exact = omega (arith, t, i.exact, l, in_total-le ts', a);
    bounded = b;
  }

  -- A task that `total` counts no more.
  lowered :
      {s s' : ConnectionTracker} {ts ts' : List Task}
      → IsWithin max_total s ts
      → s'.max_total ≡ s.max_total
      → s'.total ≡ (s.total + (2 ^ 64 - 1)) % 2 ^ 64
      → length ts < 2 ^ 64
      → sum in_total ts ≡ 1 + sum in_total ts'
      → sum let_in ts' ≤ sum let_in ts
      → IsWithin max_total s' ts'
  lowered {ts = ts} i m t l a b = record {
    limit = m ∙ i.limit;
    exact = omega (arith, t, i.exact, l, in_total-le ts, a);
    bounded = omega (arith, i.bounded, b);
  }

  Step-IsWithin :
      {s s' : ConnectionTracker} {ts ts' : List Task}
      → Step s ts s' ts'
      → length ts < 2 ^ 64
      → length ts' < 2 ^ 64
      → IsWithin max_total s ts
      → IsWithin max_total s' ts'
  Step-IsWithin (check s ts ip free h) l l' i = moved i refl refl (omega arith) (omega arith)
  Step-IsWithin (refuse s ts ip free h) l l' i = moved i refl refl refl refl
  Step-IsWithin (fetch_add_below s before after ip h) l l' i =
      let a = among in_total before after (checked ip) in
      let b = among in_total before after (counted ip) in
      raised i refl refl l' (omega (arith, a, b)) (
        omega (
          arith,
          among let_in before after (counted ip),
          let_in-le (before ++ after),
          a,
          i.exact,
          i.limit,
          h,
        ))
  Step-IsWithin (fetch_add_above s before after ip h) l l' i =
      raised i refl refl l'
        (omega
          (arith, among in_total before after (checked ip), among in_total before after (over ip)))
        (omega (
          arith,
          among let_in before after (checked ip),
          among let_in before after (over ip),
          i.bounded,
        ))
  Step-IsWithin (undo s before after ip) l l' i =
      lowered i refl refl l (among in_total before after (over ip))
        (omega (arith, among let_in before after (over ip)))
  Step-IsWithin (admit s before after ip) l l' i =
      moved i refl refl
        (among in_total before after (holding ip) ∙ sym (among in_total before after (counted ip)))
        (among let_in before after (holding ip) ∙ sym (among let_in before after (counted ip)))
  Step-IsWithin (drop_guard s before after ip) l l' i =
      lowered i refl refl l
        (omega (
          arith,
          among in_total before after (holding ip),
          among in_total before after (releasing ip),
        ))
        (omega
          (arith, among let_in before after (holding ip), among let_in before after (releasing ip)))
  Step-IsWithin (no_entry s before after ip free e) l l' i =
      moved i refl refl (omega (arith, among in_total before after (releasing ip)))
        (omega (arith, among let_in before after (releasing ip)))
  Step-IsWithin (count_down s before after ip n free e h) l l' i =
      moved i refl refl (omega (arith, among in_total before after (releasing ip)))
        (omega (arith, among let_in before after (releasing ip)))
  Step-IsWithin (count_out s before after ip n free e h) l l' i =
      moved i refl refl
        (among in_total before after (emptied ip)
          ∙ sym (among in_total before after (releasing ip)))
        (among let_in before after (emptied ip) ∙ sym (among let_in before after (releasing ip)))
  Step-IsWithin (remove_entry s before after ip free) l l' i =
      moved i refl refl (omega (arith, among in_total before after (emptied ip)))
        (omega (arith, among let_in before after (emptied ip)))

  few :
      {max_per_ip : ℕ} {s : ConnectionTracker} {ts : List Task}
      → Reached max_total max_per_ip s ts
      → length ts < 2 ^ 64
  few start = omega arith
  few (next r step l) = l

  -- However the steps of the tasks interleave, while there are fewer than 2 ^ 64 tasks: `total`
  -- counts the tasks between a `fetch_add` and its `fetch_sub`, and never more connections are let
  -- in than `max_total`.
  pub Reached-IsWithin :
      {max_per_ip : ℕ} {s : ConnectionTracker} {ts : List Task}
      → Reached max_total max_per_ip s ts
      → IsWithin max_total s ts
  unfolding new
  Reached-IsWithin start = record { limit = refl; exact = refl; bounded = omega arith }
  Reached-IsWithin (next r step l) = Step-IsWithin step (few r) l (Reached-IsWithin r)
