-- ===== src/Base/Map.antt =====
-- A map from numbers, as an association list with at most one entry of a key.
use realtime_ingestion.Base.Tests.{◌==◌, if◌then◌else◌}
use Prim.Native.Nat.{ℕ}
use mathlib.Core.Path.{◌≡◌}
use mathlib.Core.Option.{Option, none, some}
use mathlib.Core.List.{List, [], ◌∷◌}
use native.Mathlib.Omega.{arith}

module _ {ℓ} {V : Type ℓ} where
  unfoldable pub lookup : ℕ → List (ℕ × V) → Option V
  lookup key ((other, value) ∷ rest) =
      let found = lookup key rest in if key == other then some value else found
  lookup key [] = none

  unfoldable pub remove : ℕ → List (ℕ × V) → List (ℕ × V)
  remove key ((other, value) ∷ rest) =
      let kept = remove key rest in if key == other then kept else (other, value) ∷ kept
  remove key [] = []

  -- A new entry goes to the front, in place of the old one.
  unfoldable pub insert : ℕ → V → List (ℕ × V) → List (ℕ × V)
  unfolding remove
  insert key value entries = (key, value) ∷ remove key entries

  pub lookup-remove :
      (key probe : ℕ) (entries : List (ℕ × V))
      → lookup probe (remove key entries) ≡ (if key == probe then none else lookup probe entries)
  unfolding lookup remove
  lookup-remove key probe ((other, value) ∷ rest) = ground (arith, lookup-remove key probe rest)
  lookup-remove key probe [] = ground arith

  pub lookup-insert :
      (key probe : ℕ) (value : V) (entries : List (ℕ × V))
      → lookup probe (insert key value entries)
        ≡ (if key == probe then some value else lookup probe entries)
  unfolding lookup insert
  lookup-insert key probe value entries = ground (arith, lookup-remove key probe entries)
