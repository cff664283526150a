-- ===== src/Tests/Threads.antt =====
-- Tasks that interleave on one address: a release drops its reference to the count, another task is
-- let in, and then the entry is removed, with the count of that task. The limit of an
-- address is one here, and the run ends with two connections of the address 7.
use realtime_ingestion.Base.{ℕ, refl, List, [], ◌∷◌, arith}
use realtime_ingestion.Base.Map.{lookup, insert, remove}
use realtime_ingestion.Security.Tracker.{ConnectionTracker, new, entry_or_zero}
use realtime_ingestion.Security.Threads.{
  checked, counted, holding, releasing, emptied, check, fetch_add_below, admit, drop_guard,
  count_out, remove_entry, Reached, start, next,
}
use realtime_ingestion.Security.Threads.Limit.{IsWithin, Reached-IsWithin}

abbrev tracker : ℕ → List (ℕ × ℕ) → ConnectionTracker
tracker total per_ip = record { total = total; per_ip = per_ip; max_total = 10; max_per_ip = 1 }

reached_0 : Reached 10 1 (tracker 0 []) []
unfolding new
reached_0 = start

reached_1 : Reached 10 1 (tracker 0 ((7, 0) ∷ [])) (checked 7 ∷ [])
unfolding new entry_or_zero lookup insert remove
reached_1 = next reached_0 (check (tracker 0 []) [] 7 tt (omega arith)) (omega arith)

reached_2 : Reached 10 1 (tracker 1 ((7, 0) ∷ [])) (counted 7 ∷ [])
unfolding new entry_or_zero lookup insert remove
reached_2 =
    next reached_1 (fetch_add_below (tracker 0 ((7, 0) ∷ [])) [] [] 7 (omega arith)) (omega arith)

reached_3 : Reached 10 1 (tracker 1 ((7, 1) ∷ [])) (holding 7 ∷ [])
unfolding new entry_or_zero lookup insert remove
reached_3 = next reached_2 (admit (tracker 1 ((7, 0) ∷ [])) [] [] 7) (omega arith)

reached_4 : Reached 10 1 (tracker 0 ((7, 1) ∷ [])) (releasing 7 ∷ [])
unfolding new entry_or_zero lookup insert remove
reached_4 = next reached_3 (drop_guard (tracker 1 ((7, 1) ∷ [])) [] [] 7) (omega arith)

reached_5 : Reached 10 1 (tracker 0 ((7, 0) ∷ [])) (emptied 7 ∷ [])
unfolding new entry_or_zero lookup insert remove
reached_5 =
    next reached_4 (count_out (tracker 0 ((7, 1) ∷ [])) [] [] 7 1 tt refl (omega arith))
      (omega arith)

reached_6 : Reached 10 1 (tracker 0 ((7, 0) ∷ [])) (checked 7 ∷ emptied 7 ∷ [])
unfolding new entry_or_zero lookup insert remove
reached_6 =
    next reached_5 (check (tracker 0 ((7, 0) ∷ [])) (emptied 7 ∷ []) 7 (refl, tt) (omega arith))
      (omega arith)

reached_7 : Reached 10 1 (tracker 1 ((7, 0) ∷ [])) (counted 7 ∷ emptied 7 ∷ [])
unfolding new entry_or_zero lookup insert remove
reached_7 =
    next reached_6 (fetch_add_below (tracker 0 ((7, 0) ∷ [])) [] (emptied 7 ∷ []) 7 (omega arith))
      (omega arith)

reached_8 : Reached 10 1 (tracker 1 ((7, 1) ∷ [])) (holding 7 ∷ emptied 7 ∷ [])
unfolding new entry_or_zero lookup insert remove
reached_8 = next reached_7 (admit (tracker 1 ((7, 0) ∷ [])) [] (emptied 7 ∷ []) 7) (omega arith)

reached_9 : Reached 10 1 (tracker 1 []) (holding 7 ∷ [])
unfolding new entry_or_zero lookup insert remove
reached_9 =
    next reached_8 (remove_entry (tracker 1 ((7, 1) ∷ [])) (holding 7 ∷ []) [] 7 (refl, tt))
      (omega arith)

reached_10 : Reached 10 1 (tracker 1 ((7, 0) ∷ [])) (checked 7 ∷ holding 7 ∷ [])
unfolding new entry_or_zero lookup insert remove
reached_10 =
    next reached_9 (check (tracker 1 []) (holding 7 ∷ []) 7 (refl, tt) (omega arith)) (omega arith)

reached_11 : Reached 10 1 (tracker 2 ((7, 0) ∷ [])) (counted 7 ∷ holding 7 ∷ [])
unfolding new entry_or_zero lookup insert remove
reached_11 =
    next reached_10 (fetch_add_below (tracker 1 ((7, 0) ∷ [])) [] (holding 7 ∷ []) 7 (omega arith))
      (omega arith)

reached_12 : Reached 10 1 (tracker 2 ((7, 1) ∷ [])) (holding 7 ∷ holding 7 ∷ [])
unfolding new entry_or_zero lookup insert remove
reached_12 = next reached_11 (admit (tracker 2 ((7, 0) ∷ [])) [] (holding 7 ∷ []) 7) (omega arith)

Reached-IsWithin_example : IsWithin 10 (tracker 2 ((7, 1) ∷ [])) (holding 7 ∷ holding 7 ∷ [])
Reached-IsWithin_example = Reached-IsWithin 10 reached_12
