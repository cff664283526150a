-- ===== src/Tests/Security.antt =====
-- The connection limits and the masks at concrete inputs.
use realtime_ingestion.Base.{ℕ, ◌≡◌, refl, sym, ap, ◌∙◌, [], arith}
use realtime_ingestion.Base.Map.{lookup, insert}
use realtime_ingestion.Security.Tracker.{
  ConnectionTracker, new, Acquired, guard, acquire, release, entry_or_zero,
}
use realtime_ingestion.Security.Tracker.Invariant.{
  Reach, Reach.start, Reach.admitted, Reach.refused, Reach.dropped, Inv, Reach-Inv,
}

abbrev one_of_seven : ConnectionTracker
one_of_seven = (acquire (new 2 1) 7).1

abbrev seven_again : ConnectionTracker
seven_again = (acquire one_of_seven 7).1

abbrev is_guard : Acquired → ℕ
is_guard (guard ip) = 1
is_guard r = 0

seven_admitted : (acquire (new 2 1) 7).0 ≡ guard 7
unfolding acquire entry_or_zero new lookup insert
seven_admitted = refl

seven_refused : (acquire one_of_seven 7).0 ≡ Acquired.too_many_of_ip
unfolding acquire entry_or_zero new lookup insert
seven_refused = refl

seven_not_guarded : (acquire one_of_seven 7).0 ≡ guard 7 → ⊥
seven_not_guarded h = absurd (omega (arith, ap is_guard (sym seven_refused ∙ h)))

-- An address with a limit of one: admitted, refused, and released.
history : Reach 2 1 (release seven_again 7) []
history = dropped [] [] 7 (refused 7 (admitted 7 start seven_admitted) seven_not_guarded)

Reach-Inv_example : Inv 2 1 (release seven_again 7) []
Reach-Inv_example = Reach-Inv (omega arith) history
