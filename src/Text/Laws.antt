-- ===== src/Text/Laws.antt =====
-- Laws of the `str` operations.
use realtime_ingestion.Base.{
  ℕ, ◌+◌, ◌-◌, ◌*◌, ◌≤◌, ◌<◌, ◌≡◌, refl, true, false, some, [], ◌∷◌, ◌↔◌, arith, All, all,
  Bool-cases, inl, inr, sym, ap, ◌∙◌, if◌then◌else◌, zero, suc, take, drop, length-append,
  length-drop, is_empty, length, ◌==◌,
}
use realtime_ingestion.Text.{
  utf8_char, split_at, slice, byte_len, Text, text_eq, as_bytes, is_whitespace, trim_start,
  trim_end, trim, is_ascii_digit, digits_to, parse_unsigned, value_from,
}

pub text_eq_iff : (s t : Text) → (text_eq s t ≡ true) ↔ (s ≡ t)
unfolding text_eq
text_eq_iff (x ∷ s) (y ∷ t) = ground (arith, text_eq_iff s t)
text_eq_iff _ _ = ground arith

pub text_eq_refl : (t : Text) → text_eq t t ≡ true
text_eq_refl t = (text_eq_iff t t).1 refl

-- ASCII text is its own UTF-8.
pub as_bytes_ascii : (t : Text) → All (λ c. c < 128) t → as_bytes t ≡ t
unfolding as_bytes
as_bytes_ascii [] h = refl
as_bytes_ascii (c ∷ t) h = ground (arith, as_bytes_ascii t h.1)

pub digit-whitespace : (c : ℕ) → is_ascii_digit c ≡ true → is_whitespace c ≡ false
unfolding is_whitespace
digit-whitespace c h = ground arith

-- Text with no white space is left alone by `trim`.
pub trim_end_none : (t : Text) → All (λ c. is_whitespace c ≡ false) t → trim_end t ≡ t
unfolding trim_end
trim_end_none [] h = refl
trim_end_none (c ∷ t) h = rw (h.0, trim_end_none t h.1)

pub trim_none : (t : Text) → All (λ c. is_whitespace c ≡ false) t → trim t ≡ t
unfolding trim trim_start
trim_none [] h = refl
trim_none (c ∷ t) h = rw h.0 (trim_end_none (c ∷ t) h)

pub digits-whitespace :
    (t : Text) → all is_ascii_digit t ≡ true → All (λ c. is_whitespace c ≡ false) t
digits-whitespace [] h = tt
digits-whitespace (c ∷ t) h =
    (digit-whitespace c (ground arith), digits-whitespace t (ground arith))

pub trim_digits : (t : Text) → all is_ascii_digit t ≡ true → trim t ≡ t
trim_digits t h = trim_none t (digits-whitespace t h)

pub value_from-le : (n : ℕ) (t : Text) → n ≤ value_from n t
unfolding value_from
value_from-le n [] = omega arith
value_from-le n (c ∷ t) = omega (arith, value_from-le (n * 10 + (c - b'0')) t)

-- Digits whose number is within the limit are read as that number.
pub digits_to-value_from :
    (limit n : ℕ) (t : Text)
    → all is_ascii_digit t ≡ true
    → value_from n t ≤ limit
    → digits_to limit n t ≡ some (value_from n t)
unfolding digits_to value_from
digits_to-value_from limit n [] h b = refl
digits_to-value_from limit n (c ∷ t) h b = ground (
  arith,
  value_from-le (n * 10 + (c - b'0')) t,
  digits_to-value_from limit (n * 10 + (c - b'0')) t,
)

pub parse_unsigned-digits :
    (limit c : ℕ) (t : Text)
    → all is_ascii_digit (c ∷ t) ≡ true
    → value_from 0 (c ∷ t) ≤ limit
    → parse_unsigned limit (c ∷ t) ≡ some (value_from 0 (c ∷ t))
unfolding parse_unsigned
parse_unsigned-digits limit c [] h b = digits_to-value_from limit 0 (c ∷ []) h b
parse_unsigned-digits limit c (d ∷ t) h b =
    ground (arith, digits_to-value_from limit 0 (c ∷ d ∷ t) h b)

-- What is read is within the limit.
pub digits_to-le :
    (limit n : ℕ) (t : Text) {m : ℕ} → n ≤ limit → digits_to limit n t ≡ some m → m ≤ limit
unfolding digits_to
digits_to-le limit n [] h e = ground arith
digits_to-le limit n (c ∷ t) {m} h e =
    ground (arith, digits_to-le limit (n * 10 + (c - b'0')) t {m = m})

pub parse_unsigned-le : (limit : ℕ) (t : Text) {m : ℕ} → parse_unsigned limit t ≡ some m → m ≤ limit
unfolding parse_unsigned
parse_unsigned-le limit [] h = absurd (cc h)
parse_unsigned-le limit (c ∷ []) h = digits_to-le limit 0 (c ∷ []) (omega arith) h
parse_unsigned-le limit (c ∷ d ∷ t) h = elim (Bool-cases (c == b'+')) [
  | inl plus ↦ digits_to-le limit 0 (d ∷ t) (omega arith) (
      ap (λ b. if b then digits_to limit 0 (d ∷ t) else digits_to limit 0 (c ∷ d ∷ t)) (sym plus)
      ∙ h)
  | inr digit ↦ digits_to-le limit 0 (c ∷ d ∷ t) (omega arith) (
      ap (λ b. if b then digits_to limit 0 (d ∷ t) else digits_to limit 0 (c ∷ d ∷ t)) (sym digit)
      ∙ h)
]

-- A text is empty exactly if it has no bytes.
pub byte_len-is_empty : (t : Text) → is_empty t ≡ (byte_len t == 0)
unfolding byte_len
byte_len-is_empty [] = refl
byte_len-is_empty (c ∷ t) = ground arith

pub byte_len-as_bytes : (t : Text) → byte_len t ≡ length (as_bytes t)
unfolding byte_len
byte_len-as_bytes t = refl

utf8_char-pos : (c : ℕ) → 0 < length (utf8_char c)
unfolding utf8_char
utf8_char-pos c = ground arith

All-drop : (n : ℕ) (t : Text) → All (λ c. c < 128) t → All (λ c. c < 128) (drop n t)
All-drop zero t h = h
All-drop (suc n) [] h = tt
All-drop (suc n) (c ∷ t) h = All-drop n t h.1

pub length-le-byte_len : (t : Text) → length t ≤ byte_len t
unfolding byte_len
length-le-byte_len [] = omega arith
length-le-byte_len (c ∷ t) = omega (
  arith,
  length-append (utf8_char c) (as_bytes t),
  utf8_char-pos c,
  byte_len-as_bytes t,
  length-le-byte_len t,
)

-- A byte index into ASCII text is a character index.
pub split_at_ascii :
    (n : ℕ) (t : Text)
    → All (λ c. c < 128) t
    → n ≤ length t
    → split_at n t ≡ some (take n t, drop n t)
unfolding split_at
split_at_ascii zero [] h l = refl
split_at_ascii (suc n) [] h l = absurd (omega arith)
split_at_ascii zero (c ∷ t) h l = refl
split_at_ascii (suc n) (c ∷ t) h l = ground (arith, split_at_ascii n t h.1)

pub slice_ascii :
    (t : Text) (i j : ℕ)
    → All (λ c. c < 128) t
    → i ≤ j
    → j ≤ length t
    → slice t i j ≡ some (take (j - i) (drop i t))
unfolding slice
slice_ascii t i j h l m = rw (
  split_at_ascii i t h (omega arith),
  split_at_ascii (j - i) (drop i t) (All-drop i t h) (omega (arith, length-drop i t)),
)
