-- ===== src/Tcp/Response/Laws.antt =====
-- When `build_response` of src/tcp_listener.rs returns, and what it changes.
use native.Mathlib.Decide.{dec_lt}
use realtime_ingestion.Base.{
  ℕ, ◌+◌, ◌-◌, ◌≡◌, ◌≢◌, ◌≤◌, ◌↔◌, inl, inr, refl, ap, Bool, true, ◌&&◌, not, Option, none, some,
  [], ◌∷◌, ◌++◌, Bytes, leb, ltb, ◌==◌, ==_iff, if◌then◌else◌, length, is_empty, take, drop, ◌>>=◌,
  arith, Bool-cases, Option-cases, ◌∙◌, length-append, length-take, length-drop, get_elem?,
  get_elem?-append_left, get_elem?-append_right, get_elem?-take, get_elem?-drop,
}
use realtime_ingestion.Text.{Text, codes, as_bytes}
use realtime_ingestion.Tcp.Response.{response_type, copy_from_slice, build_response}

splice : Bytes → ℕ → ℕ → Bytes → Bytes
splice xs i j src = take i xs ++ (src ++ drop j xs)

module _ (xs src : Bytes) (i j : ℕ) (fits : i + length src ≡ j) (inside : j ≤ length xs) where
  length-splice : length (splice xs i j src) ≡ length xs
  unfolding splice
  length-splice = omega (
    arith,
    length-append (take i xs) (src ++ drop j xs),
    length-append src (drop j xs),
    length-take i xs,
    length-drop j xs,
  )

  splice_behind :
      (n : ℕ)
      → i ≤ n
      → get_elem? (src ++ drop j xs) (n - i)
        ≡ (if ltb n j then get_elem? src (n - i) else get_elem? xs n)
  splice_behind n h = elim (dec_lt n j) [
    | yes p ↦ ground (arith, get_elem?-append_left src (drop j xs) (n - i))
    | no p ↦
        get_elem?-append_right src (drop j xs) (n - i) (omega arith)
        ∙ ap (get_elem? (drop j xs)) {x = n - i - length src} {y = n - j} (omega arith)
        ∙ ground (arith, get_elem?-drop j n xs)
  ]

  get_elem?-splice :
      (n : ℕ)
      → get_elem? (splice xs i j src) n
        ≡ (if leb i n && ltb n j then get_elem? src (n - i) else get_elem? xs n)
  unfolding splice
  get_elem?-splice n = elim (dec_lt n i) [
    | yes before ↦ ground (
      arith,
      length-take i xs,
      get_elem?-append_left (take i xs) (src ++ drop j xs) n,
      get_elem?-take i n xs,
    )
    | no behind ↦
        get_elem?-append_right (take i xs) (src ++ drop j xs) n (omega (arith, length-take i xs))
        ∙ ap (get_elem? (src ++ drop j xs)) {y = n - i} (omega (arith, length-take i xs))
        ∙ ground (arith, splice_behind n)
  ]

-- What a copy over the bytes from `i` to `j` does, in range.
Copies : Bytes → ℕ → ℕ → Bytes → Bytes → Type 0
Copies frame i j src r =
    (length r ≡ length frame)
    × ((n : ℕ)
        → get_elem? r n ≡ (if leb i n && ltb n j then get_elem? src (n - i) else get_elem? frame n))

copy_from_slice-Copies :
    (frame : Bytes) (i j : ℕ) (src : Bytes) {r : Bytes}
    → j ≤ length frame
    → copy_from_slice frame i j src ≡ some r
    → Copies frame i j src r
unfolding copy_from_slice splice Copies
copy_from_slice-Copies frame i j src {r} k e = elim (Bool-cases (i + length src == j)) [
  | inl fits ↦
      let f = (==_iff (i + length src) j).0 fits in
      let r_eq : splice frame i j src ≡ r = ground arith in
      rw (← r_eq) (length-splice frame src i j f k, get_elem?-splice frame src i j f k)
  | inr wrong ↦ absurd (ground arith)
]

abbrev pub types : Bytes → Text → Bool
types frame msg_type = leb 12 (length frame) && not (is_empty (response_type msg_type))

-- The byte that a response has at a position.
abbrev pub response_at : Bytes → Text → ℕ → Option ℕ
response_at frame msg_type n =
    if leb 26 (length frame) && (leb 24 n && ltb n 26)
    then some b'0'
    else if types frame msg_type && (leb 8 n && ltb n 12)
    then get_elem? (as_bytes (response_type msg_type)) (n - 8)
    else get_elem? frame n

typed : Bytes → Text → Option Bytes
typed frame msg_type =
    if types frame msg_type
    then copy_from_slice frame 8 12 (as_bytes (response_type msg_type))
    else some frame

build_response-typed :
    (frame : Bytes) (msg_type : Text)
    → build_response frame msg_type ≡ (
        typed frame msg_type >>= λ resp.
        if leb 26 (length resp) then copy_from_slice resp 24 26 (codes "00") else some resp)
unfolding build_response typed
build_response-typed frame msg_type = refl

typed-Copies :
    (frame : Bytes) (msg_type : Text) {r : Bytes}
    → typed frame msg_type ≡ some r
    → (length r ≡ length frame)
      × ((n : ℕ)
          → get_elem? r n ≡ (
              if types frame msg_type && (leb 8 n && ltb n 12)
              then get_elem? (as_bytes (response_type msg_type)) (n - 8)
              else get_elem? frame n))
unfolding typed Copies
typed-Copies frame msg_type {r} e = elim (Bool-cases (types frame msg_type)) [
  | inl t ↦ rw t (
      copy_from_slice-Copies frame 8 12 (as_bytes (response_type msg_type)) (ground arith)
        (rw t at e))
  | inr t ↦
      let same : r ≡ frame = ground arith in
      rw t (ap length same, λ n. ap (λ (x : Bytes). get_elem? x n) same)
]

abbrev coded : Bytes → Option Bytes
coded resp = if leb 26 (length resp) then copy_from_slice resp 24 26 (codes "00") else some resp

zeros_at : (n : ℕ) → (leb 24 n && ltb n 26) ≡ true → get_elem? (codes "00") (n - 24) ≡ some b'0'
zeros_at n h = elim (Bool-cases (n == 24)) [
  | inl e ↦ ap (get_elem? (codes "00")) {y = 0} (ground arith)
  | inr e ↦ ap (get_elem? (codes "00")) {y = 1} (ground arith)
]

coded-Copies :
    (resp : Bytes) {r : Bytes}
    → coded resp ≡ some r
    → (length r ≡ length resp)
      × ((n : ℕ)
          → get_elem? r n ≡ (
              if leb 26 (length resp) && (leb 24 n && ltb n 26)
              then some b'0'
              else get_elem? resp n))
unfolding Copies
coded-Copies resp {r} e = elim (Bool-cases (leb 26 (length resp))) [
  | inl long ↦
      let (l, at) = copy_from_slice-Copies resp 24 26 (codes "00") (ground arith) (rw long at e) in
      rw long (l, λ n. at n ∙ ground (arith, zeros_at n))
  | inr short ↦
      let same : r ≡ resp = ground arith in
      rw short (ap length same, λ n. ap (λ (x : Bytes). get_elem? x n) same)
]

-- A response has the length of its request, and these bytes: the code "00" at 24, the type of the
-- response at 8, both where the request is long enough, and the request's own elsewhere.
pub build_response-response_at :
    (frame : Bytes) (msg_type : Text) (r : Bytes)
    → build_response frame msg_type ≡ some r
    → (length r ≡ length frame) × ((n : ℕ) → get_elem? r n ≡ response_at frame msg_type n)
build_response-response_at frame msg_type r e = elim (Option-cases (typed frame msg_type)) [
  | inl panics ↦ absurd (ground (arith, build_response-typed frame msg_type))
  | inr (x, returns) ↦
      let (l, at) = typed-Copies frame msg_type returns in
      let (k, code_at) =
        coded-Copies x {r = r} (ground (arith, build_response-typed frame msg_type)) in
      (k ∙ l, λ n. code_at n ∙ ground (arith, at n))
]

typed_panics :
    (frame : Bytes) (msg_type : Text)
    → (typed frame msg_type ≡ none)
      ↔ ((types frame msg_type ≡ true) × (length (as_bytes (response_type msg_type)) ≢ 4))
unfolding typed copy_from_slice
typed_panics frame msg_type = ground arith

coded_returns : (resp : Bytes) → coded resp ≢ none
unfolding copy_from_slice
coded_returns resp = ground arith

types_iff : (n : ℕ) (t : Text) → ((leb 12 n && not (is_empty t)) ≡ true) ↔ ((12 ≤ n) × (t ≢ []))
types_iff n [] = ground arith
types_iff n (c ∷ t) = ground arith

build_response-none :
    (frame : Bytes) (msg_type : Text)
    → (build_response frame msg_type ≡ none) ↔ (typed frame msg_type ≡ none)
build_response-none frame msg_type = elim (Option-cases (typed frame msg_type)) [
  | inl panics ↦ (λ _. panics, λ _. build_response-typed frame msg_type ∙ rw panics)
  | inr (x, returns) ↦
      (λ e. absurd (coded_returns x (ground (arith, build_response-typed frame msg_type))), λ e. cc)
]

-- It panics exactly on a request of twelve bytes or more whose type is neither empty nor, for the
-- response, four bytes in UTF-8.
pub build_response_panics_iff :
    (frame : Bytes) (msg_type : Text)
    → (build_response frame msg_type ≡ none) ↔ (
        (12 ≤ length frame)
        × (response_type msg_type ≢ [])
        × (length (as_bytes (response_type msg_type)) ≢ 4))
build_response_panics_iff frame msg_type =
    let outer = build_response-none frame msg_type in
    let middle = typed_panics frame msg_type in
    let inner = types_iff (length frame) (response_type msg_type) in
    (
      λ e. let (t, n) = middle.0 (outer.0 e) in let (l, m) = inner.0 t in (l, m, n),
      λ (l, m, n). outer.1 (middle.1 (inner.1 (l, m), n)),
    )
