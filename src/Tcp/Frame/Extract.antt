-- ===== src/Tcp/Frame/Extract.antt =====
-- What `extract_frame` returns and what it leaves in the buffer, on the frames of a terminal and
-- on any other bytes.
use realtime_ingestion.Base.{
  ℕ, ◌+◌, ◌-◌, ◌/◌, ◌%◌, ◌^◌, lt→ltb, le→not_ltb, ◌≡◌, ◌≤◌, ◌<◌, sym, ap, Bool, true, false, none,
  some, [], ◌∷◌, ◌++◌, Bytes, length, take, all, arith, ◌∙◌, length-append, take-append,
  drop-append, take-append_of_length, drop-append_of_length, take-append_le,
}
use native.Mathlib.Decide.{dec_lt}
use realtime_ingestion.Text.{format_04, is_ascii_digit, value_from}
use realtime_ingestion.Text.Laws.{trim_digits, parse_unsigned-digits}
use realtime_ingestion.Tcp.Frame.{
  take_llll, take_fixed, payload_length, extract_frame, wrap_response, IsWellFormed,
}

pub payload_length-value :
    (c : ℕ) (t : Bytes)
    → all is_ascii_digit (c ∷ t) ≡ true
    → value_from 0 (c ∷ t) < 10_000
    → payload_length (c ∷ t) ≡ some (value_from 0 (c ∷ t))
unfolding payload_length
payload_length-value c t h b =
    rw (trim_digits (c ∷ t) h) (parse_unsigned-digits (2 ^ 64 - 1) c t h (omega arith))

pub four_digits :
    (a b c d : ℕ)
    → all is_ascii_digit (a ∷ b ∷ c ∷ d ∷ []) ≡ true
    → value_from 0 (a ∷ b ∷ c ∷ d ∷ []) < 10_000
unfolding value_from
four_digits a b c d h = ground arith

-- Four digits are always a length.
pub payload_length_digits :
    (h : Bytes) → length h ≡ 4 → all is_ascii_digit h ≡ true → (n : ℕ) × (payload_length h ≡ some n)
payload_length_digits (a ∷ b ∷ c ∷ d ∷ []) l h =
    (_, payload_length-value a (b ∷ c ∷ d ∷ []) h (four_digits a b c d h))
payload_length_digits [] l h = absurd (omega arith)
payload_length_digits (a ∷ []) l h = absurd (omega arith)
payload_length_digits (a ∷ b ∷ []) l h = absurd (omega arith)
payload_length_digits (a ∷ b ∷ c ∷ []) l h = absurd (omega arith)
payload_length_digits (a ∷ b ∷ c ∷ d ∷ e ∷ t) l h = absurd (omega arith)

abbrev pub header : ℕ → Bytes
header n =
    (b'0' + n / 10 / 10 / 10 % 10)
    ∷ (b'0' + n / 10 / 10 % 10)
    ∷ (b'0' + n / 10 % 10)
    ∷ (b'0' + n % 10)
    ∷ []

pub format_04-header : (n : ℕ) → n < 10_000 → format_04 n ≡ header n
unfolding format_04
format_04-header n h = rw (lt→ltb n 10_000 h)

header-digits : (n : ℕ) → all is_ascii_digit (header n) ≡ true
header-digits n = ground arith

pub header-value_from : (n : ℕ) → n < 10_000 → value_from 0 (header n) ≡ n
unfolding value_from
header-value_from n h = omega arith

header-length : (n : ℕ) → n < 10_000 → payload_length (header n) ≡ some n
header-length n h =
    payload_length-value _ _ (header-digits n) (omega (arith, header-value_from n h))
    ∙ ap some (header-value_from n h)

-- One step of `extract_frame` behind a header of four digits.
pub extract_frame-llll :
    (max n : ℕ) (buf : Bytes)
    → 4 ≤ length buf
    → all is_ascii_digit (take 4 buf) ≡ true
    → payload_length (take 4 buf) ≡ some n
    → extract_frame buf max ≡ take_llll buf max n
unfolding extract_frame
extract_frame-llll max n buf l h e = rw (le→not_ltb (length buf) 4 l, h, e)

pub extract_frame-fixed :
    (max : ℕ) (buf : Bytes)
    → 4 ≤ length buf
    → all is_ascii_digit (take 4 buf) ≡ false
    → extract_frame buf max ≡ take_fixed buf max
unfolding extract_frame
extract_frame-fixed max buf l h = rw (le→not_ltb (length buf) 4 l, h)

pub extract_frame_short :
    (max : ℕ) (buf : Bytes) → length buf < 4 → extract_frame buf max ≡ (none, buf)
unfolding extract_frame
extract_frame_short max buf l = rw (lt→ltb (length buf) 4 l)

-- A header of four digits that is there in full.
pub extract_frame-header :
    (max n : ℕ) (b : Bytes)
    → n < 10_000
    → extract_frame (header n ++ b) max ≡ take_llll (header n ++ b) max n
extract_frame-header max n b h =
    extract_frame-llll max n (header n ++ b) (omega arith) (header-digits n) (header-length n h)

take_llll_complete :
    (n max : ℕ) (p rest : Bytes)
    → 0 < length p
    → length p ≤ max
    → take_llll (header n ++ p ++ rest) max (length p) ≡ (some (p, true), rest)
unfolding take_llll
take_llll_complete n max p rest pos fits =
    ground (arith, take-append p rest, drop-append p rest, length-append p rest)

take_fixed_complete :
    (max : ℕ) (p rest : Bytes)
    → length p ≡ 170
    → 170 ≤ max
    → take_fixed (p ++ rest) max ≡ (some (p, false), rest)
unfolding take_fixed
take_fixed_complete max p rest l fits = rw (
  le→not_ltb (length (p ++ rest)) 170 (omega (arith, length-append p rest)),
  le→not_ltb max 170 fits,
  take-append_of_length 170 p rest l,
  drop-append_of_length 170 p rest l,
)

-- A well-formed frame that has arrived in full is extracted, and nothing behind it is touched.
pub extract_frame-wrap_response :
    (max : ℕ) (f : Bytes × Bool) (rest : Bytes)
    → IsWellFormed max f
    → extract_frame (wrap_response f ++ rest) max ≡ (some f, rest)
unfolding wrap_response
extract_frame-wrap_response max (p, true) rest (pos, fits, h) = rw (format_04-header (length p) h) (
    extract_frame-header max (length p) (p ++ rest) h
    ∙ take_llll_complete (length p) max p rest pos fits)
extract_frame-wrap_response max (p, false) rest (l, fits, h) =
    extract_frame-fixed max (p ++ rest) (omega (arith, length-append p rest))
      (rw (take-append_le 4 p rest (omega arith)) h)
    ∙ take_fixed_complete max p rest l fits

-- `buf` is the part of a frame that has arrived; `more` and the bytes behind the frame have not.
take_llll-part :
    (max : ℕ) (p buf : Bytes)
    → 0 < length p
    → length p ≤ max
    → length buf < 4 + length p
    → take_llll buf max (length p) ≡ (none, buf)
unfolding take_llll
take_llll-part max p buf pos fits l = ground arith

prefix_take :
    (n : ℕ) (buf more whole rest : Bytes)
    → buf ++ more ≡ whole ++ rest
    → n ≤ length buf
    → n ≤ length whole
    → take n buf ≡ take n whole
prefix_take n buf more whole rest e h k =
    sym (take-append_le n buf more h) ∙ ap (take n) e ∙ take-append_le n whole rest k

-- A well-formed frame that has arrived in part stays in the buffer, however it was cut.
pub extract_frame_part :
    (max : ℕ) (f : Bytes × Bool) (buf more rest : Bytes)
    → IsWellFormed max f
    → buf ++ more ≡ wrap_response f ++ rest
    → length buf < length (wrap_response f)
    → extract_frame buf max ≡ (none, buf)
unfolding wrap_response
extract_frame_part max (p, true) buf more rest (pos, fits, h) e l = elim (dec_lt (length buf) 4) [
  | yes s ↦ extract_frame_short max buf s
  | no s ↦
      let t : take 4 buf ≡ header (length p) =
        prefix_take 4 buf more (header (length p) ++ p) rest
          (rw (format_04-header (length p) h) at e) (omega arith) (omega arith) in
      extract_frame-llll max (length p) buf (omega arith) (rw t (header-digits (length p)))
        (rw t (header-length (length p) h))
      ∙ take_llll-part max p buf pos fits
          (omega (arith, ap (λ (x : Bytes). length (x ++ p)) (format_04-header (length p) h)))
]
extract_frame_part max (p, false) buf more rest (n, fits, h) e l = elim (dec_lt (length buf) 4) [
  | yes s ↦ extract_frame_short max buf s
  | no s ↦
      extract_frame-fixed max buf (omega arith)
        (rw (prefix_take 4 buf more p rest e (omega arith) (omega arith)) h)
      ∙ unfold take_fixed in ground arith
]
