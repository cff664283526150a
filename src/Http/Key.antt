-- ===== src/Http/Key.antt =====
-- `constant_time_eq` of src/security.rs. Bytes are numbers below 256; `|` and `^` of bytes are bytes.
pub mod Laws
use Prim.Native.Nat.{bit_or, bit_xor}
use realtime_ingestion.Base.{ℕ, Bool, false, not, [], ◌∷◌, ◌==◌, Bytes, if◌then◌else◌, length}

-- `fold(0u8, |acc, (x, y)| acc | (x ^ y))` over `zip`.
unfoldable pub fold_diff : ℕ → Bytes → Bytes → ℕ
fold_diff acc (x ∷ xs) (y ∷ ys) = fold_diff (bit_or acc (bit_xor x y)) xs ys
fold_diff acc _ _ = acc

unfoldable pub constant_time_eq : Bytes → Bytes → Bool
unfolding fold_diff
constant_time_eq a b = if not (length a == length b) then false else fold_diff 0 a b == 0
