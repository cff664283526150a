-- ===== src/Http/Key/Laws.antt =====
-- What `constant_time_eq` of src/security.rs decides.
use Prim.Native.Nat.{bit_or, bit_xor, digits, differ, bit_or-bitwise, bit_xor-bitwise}
use realtime_ingestion.Base.{
  ℕ, zero, suc, ◌/◌, ◌%◌, ◌≤◌, ◌≡◌, ◌↔◌, refl, ap₂, sym, ◌∙◌, true, [], ◌∷◌, Bytes, length, max,
  arith,
}
use realtime_ingestion.Http.Key.{fold_diff, constant_time_eq}

-- No digit of either number is set.
or_digits-eq-zero : (n a b : ℕ) → a ≤ n → digits (λ y. y) max n a b ≡ 0 → (a ≡ 0) × (b ≡ 0)
or_digits-eq-zero zero zero b l e = (refl, e)
or_digits-eq-zero zero (suc a) b l e = absurd (omega arith)
or_digits-eq-zero (suc n) zero b l e = (refl, e)
or_digits-eq-zero (suc n) (suc a) b l e =
    let (x, y) = or_digits-eq-zero n (suc a / 2) (b / 2) (omega arith) (omega arith) in
    absurd (omega arith)

differ-eq-zero : (x y : ℕ) → differ x y ≡ 0 → x ≡ y
differ-eq-zero zero y e = sym e
differ-eq-zero (suc x) zero e = absurd (omega arith)
differ-eq-zero (suc x) (suc y) e = omega (arith, differ-eq-zero x y e)

differ_self : (x : ℕ) → differ x x ≡ 0
differ_self zero = refl
differ_self (suc x) = differ_self x

xor_digits-eq-zero : (n a b : ℕ) → a ≤ n → digits (λ y. y) differ n a b ≡ 0 → a ≡ b
xor_digits-eq-zero zero zero b l e = sym e
xor_digits-eq-zero zero (suc a) b l e = absurd (omega arith)
xor_digits-eq-zero (suc n) zero b l e = sym e
xor_digits-eq-zero (suc n) (suc a) b l e = omega (
  arith,
  xor_digits-eq-zero n (suc a / 2) (b / 2) (omega arith) (omega arith),
  differ-eq-zero (suc a % 2) (b % 2) (omega arith),
)

xor_digits_self : (n a : ℕ) → a ≤ n → digits (λ y. y) differ n a a ≡ 0
xor_digits_self zero zero l = refl
xor_digits_self zero (suc a) l = absurd (omega arith)
xor_digits_self (suc n) zero l = refl
xor_digits_self (suc n) (suc a) l =
    omega (arith, xor_digits_self n (suc a / 2) (omega arith), differ_self (suc a % 2))

bit_or-eq-zero : (a b : ℕ) → bit_or a b ≡ 0 → (a ≡ 0) × (b ≡ 0)
bit_or-eq-zero a b e = or_digits-eq-zero a a b (omega arith) (sym (bit_or-bitwise a b) ∙ e)

bit_xor-eq-zero : (a b : ℕ) → bit_xor a b ≡ 0 → a ≡ b
bit_xor-eq-zero a b e = xor_digits-eq-zero a a b (omega arith) (sym (bit_xor-bitwise a b) ∙ e)

bit_xor_self : (a : ℕ) → bit_xor a a ≡ 0
bit_xor_self a = bit_xor-bitwise a a ∙ xor_digits_self a a (omega arith)

fold_diff-eq-zero :
    (acc : ℕ) (a b : Bytes) → length a ≡ length b → fold_diff acc a b ≡ 0 → (acc ≡ 0) × (a ≡ b)
unfolding fold_diff
fold_diff-eq-zero acc [] [] l e = (e, refl)
fold_diff-eq-zero acc [] (y ∷ b) l e = absurd (omega arith)
fold_diff-eq-zero acc (x ∷ a) [] l e = absurd (omega arith)
fold_diff-eq-zero acc (x ∷ a) (y ∷ b) l e =
    let (z, rest) = fold_diff-eq-zero (bit_or acc (bit_xor x y)) a b (omega arith) e in
    let (none_before, same) = bit_or-eq-zero acc (bit_xor x y) z in
    (none_before, ap₂ ◌∷◌ (bit_xor-eq-zero x y same) rest)

fold_diff_self : (a : Bytes) → fold_diff 0 a a ≡ 0
unfolding fold_diff
fold_diff_self [] = refl
fold_diff_self (x ∷ a) = rw (bit_xor_self x) (fold_diff_self a)

-- Two byte strings pass exactly if they are equal.
pub constant_time_eq_iff : (a b : Bytes) → (constant_time_eq a b ≡ true) ↔ (a ≡ b)
unfolding constant_time_eq
constant_time_eq_iff a b = (passes a b, λ e. rw e (equal b))
  where
    passes : (a b : Bytes) → constant_time_eq a b ≡ true → a ≡ b
    passes a b h = (fold_diff-eq-zero 0 a b (ground arith) (ground arith)).1

    equal : (b : Bytes) → constant_time_eq b b ≡ true
    equal b = ground (arith, fold_diff_self b)
