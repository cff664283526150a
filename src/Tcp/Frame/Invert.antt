-- ===== src/Tcp/Frame/Invert.antt =====
-- `extract_frame` on any buffer, src/tcp_listener.rs.
use native.Mathlib.Decide.{dec_lt}
use realtime_ingestion.Base.{
  ℕ, ◌+◌, not_ltb→le, ltb→lt, ==_iff, ◌≡◌, ◌↔◌, ◌≤◌, ◌<◌, inl, inr, sym, ap, Bool, true, false,
  Option, none, some, [], ◌∷◌, ◌++◌, Bytes, ltb, ◌==◌, length, take, drop, all, arith, Bool-cases,
  ◌∙◌, subst, take-append-drop, take-drop-drop, length-take, length-drop, length-append,
  append_assoc, take-take,
}
use realtime_ingestion.Text.{format_04, is_ascii_digit, value_from}
use realtime_ingestion.Tcp.Frame.{
  take_llll, take_fixed, payload_length, extract_frame, wrap_response, IsWellFormed,
  fixed_frame_size,
}
use realtime_ingestion.Tcp.Frame.Extract.{
  header, format_04-header, four_digits, payload_length-value, extract_frame-llll,
  extract_frame-fixed, extract_frame_short, extract_frame-wrap_response,
}

-- Four digits are the header of the number that they stand for.
header_of_digits :
    (h : Bytes)
    → length h ≡ 4
    → all is_ascii_digit h ≡ true
    → (n : ℕ) × (n < 10_000) × (h ≡ header n) × (payload_length h ≡ some n)
header_of_digits (a ∷ b ∷ c ∷ d ∷ []) l h = (
  _,
  four_digits a b c d h,
  unfold value_from in ground arith,
  payload_length-value a (b ∷ c ∷ d ∷ []) h (four_digits a b c d h),
)
header_of_digits [] l h = absurd (omega arith)
header_of_digits (a ∷ []) l h = absurd (omega arith)
header_of_digits (a ∷ b ∷ []) l h = absurd (omega arith)
header_of_digits (a ∷ b ∷ c ∷ []) l h = absurd (omega arith)
header_of_digits (a ∷ b ∷ c ∷ d ∷ e ∷ t) l h = absurd (omega arith)

-- The frame at the front of a buffer is not all there: the header is cut, or what it announces within
-- the limit, or a frame with no header.
pub data Partial (max : ℕ) (buf : Bytes) : Type 0 where
  cut_header : length buf < 4 → Partial max buf
  cut_payload :
      (n : ℕ) (rest : Bytes)
      → 0 < n
      → n < 10_000
      → n ≤ max
      → buf ≡ header n ++ rest
      → length rest < n
      → Partial max buf
  cut_fixed :
      4 ≤ length buf
      → length buf < fixed_frame_size
      → all is_ascii_digit (take 4 buf) ≡ false
      → Partial max buf

-- The frame at the front of a buffer is above the limit: the one that its header announces, or one
-- with no header that is all there.
pub data Oversized (max : ℕ) (buf : Bytes) : Type 0 where
  announced :
      (n : ℕ) (rest : Bytes) → max < n → n < 10_000 → buf ≡ header n ++ rest → Oversized max buf
  fixed :
      max < fixed_frame_size
      → fixed_frame_size ≤ length buf
      → all is_ascii_digit (take 4 buf) ≡ false
      → Oversized max buf

-- What `extract_frame` did to a buffer.
pub data Outcome (max : ℕ) (buf : Bytes) : Option (Bytes × Bool) × Bytes → Type 0 where
  extracted :
      (f : Bytes × Bool) (rest : Bytes)
      → IsWellFormed max f
      → buf ≡ wrap_response f ++ rest
      → Outcome max buf (some f, rest)
  waits : Partial max buf → Outcome max buf (none, buf)
  empty_header : (rest : Bytes) → buf ≡ header 0 ++ rest → Outcome max buf (none, rest)
  discards : Oversized max buf → Outcome max buf (none, [])

header_and_rest : (n : ℕ) (buf : Bytes) → take 4 buf ≡ header n → buf ≡ header n ++ drop 4 buf
header_and_rest n buf t = sym (take-append-drop 4 buf) ∙ ap (λ x. x ++ drop 4 buf) t

whole_frame :
    (n : ℕ) (buf : Bytes)
    → take 4 buf ≡ header n
    → (header n ++ take n (drop 4 buf)) ++ drop (4 + n) buf ≡ buf
whole_frame n buf t =
    append_assoc (header n) (take n (drop 4 buf)) (drop (4 + n) buf)
    ∙ ap (λ (h : Bytes). h ++ (take n (drop 4 buf) ++ drop (4 + n) buf)) (sym t)
    ∙ take-drop-drop 4 n buf

cut_length : (n : ℕ) (buf : Bytes) → 4 + n ≤ length buf → length (take n (drop 4 buf)) ≡ n
cut_length n buf h = omega (arith, length-take n (drop 4 buf), length-drop 4 buf)

take_llll-whole :
    (max n : ℕ) (buf : Bytes)
    → n < 10_000
    → 0 < n
    → n ≤ max
    → take 4 buf ≡ header n
    → 4 + n ≤ length buf
    → Outcome max buf (some (take n (drop 4 buf), true), drop (4 + n) buf)
unfolding wrap_response
take_llll-whole max n buf small pos fits t full =
    extracted (take n (drop 4 buf), true) (drop (4 + n) buf)
      (rw (cut_length n buf full) (pos, fits, small))
      (rw (cut_length n buf full, format_04-header n small) (sym (whole_frame n buf t)))

take_llll-Outcome :
    (max n : ℕ) (buf : Bytes)
    → 4 ≤ length buf
    → n < 10_000
    → take 4 buf ≡ header n
    → Outcome max buf (take_llll buf max n)
unfolding take_llll
take_llll-Outcome max n buf l h t = elim (Bool-cases (n == 0)) [
  | inl z ↦ rw z (
      empty_header (drop 4 buf)
        (header_and_rest n buf t ∙ ap (λ k. header k ++ drop 4 buf) ((==_iff n 0).0 z)))
  | inr nz ↦ elim (Bool-cases (ltb max n)) [
    | inl big ↦
        rw (nz, big)
          (discards (announced n (drop 4 buf) (ltb→lt max n big) h (header_and_rest n buf t)))
    | inr fits ↦ elim (Bool-cases (ltb (length buf) (4 + n))) [
      | inl part ↦
          rw (nz, fits, part)
            (waits (
              cut_payload n (drop 4 buf) (ground arith) h (not_ltb→le max n fits)
                (header_and_rest n buf t)
                (omega (arith, length-drop 4 buf, ltb→lt (length buf) (4 + n) part))))
      | inr full ↦
          rw (nz, fits, full)
            (take_llll-whole max n buf h (ground arith) (not_ltb→le max n fits) t
              (not_ltb→le _ _ full))
    ]
  ]
]

take_fixed-Outcome :
    (max : ℕ) (buf : Bytes)
    → 4 ≤ length buf
    → all is_ascii_digit (take 4 buf) ≡ false
    → Outcome max buf (take_fixed buf max)
unfolding take_fixed wrap_response
take_fixed-Outcome max buf l d = elim (Bool-cases (ltb (length buf) 170)) [
  | inl part ↦ rw part (waits (cut_fixed l (ltb→lt (length buf) 170 part) d))
  | inr full ↦ elim (Bool-cases (ltb max 170)) [
    | inl big ↦ rw (full, big) (discards (fixed (ltb→lt max 170 big) (not_ltb→le _ _ full) d))
    | inr fits ↦
        rw (full, fits)
          (extracted (take 170 buf, false) (drop 170 buf)
            (
              omega (arith, length-take 170 buf, not_ltb→le _ _ full),
              not_ltb→le max 170 fits,
              rw (take-take 4 170 buf (omega arith)) d,
            )
            (sym (take-append-drop 170 buf)))
  ]
]

-- Whatever is in the buffer, `extract_frame` either takes a well-formed frame off its front; or
-- leaves it as it is, and then it is shorter than a header, or than what its header announces within
-- the limit, or than a frame with no header; or drops an empty header; or drops all of it, and then
-- its header announces more than the limit, or a frame with no header is there and above the limit.
pub extract_frame-Outcome : (max : ℕ) (buf : Bytes) → Outcome max buf (extract_frame buf max)
extract_frame-Outcome max buf = elim (dec_lt (length buf) 4) [
  | yes s ↦ rw (extract_frame_short max buf s) (waits (cut_header s))
  | no s ↦ elim (Bool-cases (all is_ascii_digit (take 4 buf))) [
    | inl d ↦
        let (n, small, t, e) = header_of_digits (take 4 buf) (omega (arith, length-take 4 buf)) d in
        rw (extract_frame-llll max n buf (omega arith) d e)
          (take_llll-Outcome max n buf (omega arith) small t)
    | inr d ↦
        rw (extract_frame-fixed max buf (omega arith) d)
          (take_fixed-Outcome max buf (omega arith) d)
  ]
]

-- What a result with a frame says of the buffer.
abbrev Splits : ℕ → Bytes → Option (Bytes × Bool) × Bytes → Type 0
Splits max buf (some f, rest) = IsWellFormed max f × (buf ≡ wrap_response f ++ rest)
Splits max buf (none, rest) = Unit

Outcome-Splits :
    {max : ℕ} {buf : Bytes} {r : Option (Bytes × Bool) × Bytes}
    → Outcome max buf r
    → Splits max buf r
Outcome-Splits (extracted f rest w b) = (w, b)
Outcome-Splits (waits part) = tt
Outcome-Splits (empty_header rest b) = tt
Outcome-Splits (discards over) = tt

-- A frame is extracted exactly when it is well formed and stands at the front of the buffer.
pub extract_frame_iff :
    (max : ℕ) (buf rest : Bytes) (f : Bytes × Bool)
    → (extract_frame buf max ≡ (some f, rest))
      ↔ (IsWellFormed max f × (buf ≡ wrap_response f ++ rest))
extract_frame_iff max buf rest f = (
  λ e. subst (Splits max buf) e (Outcome-Splits (extract_frame-Outcome max buf)),
  λ (w, b). rw b (extract_frame-wrap_response max f rest w),
)

pub wrap_response-pos :
    (max : ℕ) (f : Bytes × Bool) → IsWellFormed max f → 0 < length (wrap_response f)
unfolding wrap_response
wrap_response-pos max (p, true) (pos, fits, h) =
    omega (arith, length-append (format_04 (length p)) p)
wrap_response-pos max (p, false) (l, fits, h) = omega arith

-- A frame that is extracted leaves fewer bytes.
pub extract_frame_shrinks :
    (max : ℕ) (buf rest : Bytes) (f : Bytes × Bool)
    → extract_frame buf max ≡ (some f, rest)
    → length rest < length buf
extract_frame_shrinks max buf rest f e =
    let (w, b) = (extract_frame_iff max buf rest f).0 e in
    omega (arith, ap length b, length-append (wrap_response f) rest, wrap_response-pos max f w)
