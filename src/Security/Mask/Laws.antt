-- ===== src/Security/Mask/Laws.antt =====
-- What a number masked by src/security.rs shows.
use mathlib.Core.List.{reverse-append, reverse-reverse, reverse-cons}
use realtime_ingestion.Base.{
  ℕ, ◌+◌, ◌≡◌, ◌<◌, refl, ap, ◌∙◌, false, [], ◌∷◌, ◌++◌, reverse, length, take, replicate, arith,
  le→not_ltb, length-append, take-append_of_length, append_assoc,
}
use realtime_ingestion.Text.{Text, codes, trim}
use realtime_ingestion.Security.Mask.{contains, mask_trimmed, mask_card_no, mask_business_no}

length-reverse : (t : Text) → length (reverse t) ≡ length t
length-reverse (c ∷ t) =
    let flipped = ap length (reverse-cons c t) in
    let sum = length-append (reverse t) (c ∷ []) in omega (arith, flipped, sum, length-reverse t)
length-reverse [] = refl

-- `rev().take(k)`, reversed again, is the end of the text.
last_characters :
    (k : ℕ) (a m z : Text) → length z ≡ k → reverse (take k (reverse (a ++ (m ++ z)))) ≡ z
last_characters k a m z h =
    let flip : reverse (a ++ (m ++ z)) ≡ reverse z ++ (reverse m ++ reverse a) =
      reverse-append a (m ++ z)
      ∙ ap (λ x. x ++ reverse a) (reverse-append m z)
      ∙ append_assoc (reverse z) (reverse m) (reverse a) in
    ap (λ (x : Text). reverse (take k x)) flip
    ∙ ap reverse (
        take-append_of_length k (reverse z) (reverse m ++ reverse a)
          (omega (arith, length-reverse z)))
    ∙ reverse-reverse z

mask_trimmed_lem :
    (a m z : Text)
    → length a ≡ 6
    → length z ≡ 4
    → contains (a ++ (m ++ z)) b'*' ≡ false
    → mask_trimmed (a ++ (m ++ z)) ≡ a ++ (replicate (length m) b'*' ++ z)
unfolding mask_trimmed
mask_trimmed_lem a m z la lz plain =
    let n : length (a ++ (m ++ z)) ≡ length m + 10 =
      omega (arith, length-append a (m ++ z), length-append m z) in
    rw
      (
        le→not_ltb (length (a ++ (m ++ z))) 10 (omega arith),
        plain,
        last_characters 4 a m z lz,
        take-append_of_length 6 a (m ++ z) la,
        n,
      )
      (ap (λ k. a ++ (replicate k b'*' ++ z)) (omega arith))

-- A card number of six characters, some in the middle and four at the end, with no asterisk in
-- it, shows the six and the four, and an asterisk for each in the middle.
pub mask_card_no_lem :
    (s a m z : Text)
    → trim s ≡ a ++ (m ++ z)
    → length a ≡ 6
    → length z ≡ 4
    → contains (a ++ (m ++ z)) b'*' ≡ false
    → mask_card_no s ≡ a ++ (replicate (length m) b'*' ++ z)
unfolding mask_card_no
mask_card_no_lem s a m z t la lz plain = ap mask_trimmed t ∙ mask_trimmed_lem a m z la lz plain

-- A business number of more than six characters shows its first six.
pub mask_business_no_lem :
    (s a m : Text)
    → trim s ≡ a ++ m
    → length a ≡ 6
    → 0 < length m
    → mask_business_no s ≡ a ++ codes "****"
unfolding mask_business_no
mask_business_no_lem s a m t la pos =
    let n : length (a ++ m) ≡ 6 + length m = omega (arith, length-append a m) in
    rw (t, take-append_of_length 6 a m la) (ground arith)
