-- ===== src/Text.antt =====
-- The operations of Rust's `str` that the program calls. A text is its list of Unicode scalar
-- values; `len` and slicing go by its UTF-8 bytes, as in Rust.
pub mod Laws
pub mod Ascii
use Prim.Native.Char.{code}
use Prim.Native.String.{String}
use realtime_ingestion.Base.{
  ℕ, zero, suc, ◌+◌, ◌-◌, ◌*◌, ◌/◌, ◌%◌, ◌^◌, ◌≡◌, refl, Bool, true, false, ◌&&◌, ◌||◌, Option,
  none, some, List, [], ◌∷◌, ◌++◌, reverse, Bytes, ltb, leb, ◌==◌, if◌then◌else◌, within, ◌>>=◌,
  length, is_empty, take,
}

abbrev pub Text : Type 0
Text = List ℕ

-- The scalar values of a literal.
abbrev pub codes : String → Text
codes String.[] = []
codes (String.◌∷◌ c s) = code c ∷ codes s

-- `==` on texts and on byte strings.
unfoldable pub text_eq : Text → Text → Bool
text_eq [] [] = true
text_eq (x ∷ xs) (y ∷ ys) = x == y && text_eq xs ys
text_eq _ _ = false

-- The UTF-8 bytes of one scalar value.
unfoldable pub utf8_char : ℕ → Bytes
utf8_char c =
    if ltb c 0x80
    then c ∷ []
    else if ltb c 0x800
    then (0xc0 + c / 64) ∷ (0x80 + c % 64) ∷ []
    else if ltb c 0x1_0000
    then (0xe0 + c / 4096) ∷ (0x80 + c / 64 % 64) ∷ (0x80 + c % 64) ∷ []
    else (0xf0 + c / 262144) ∷ (0x80 + c / 4096 % 64) ∷ (0x80 + c / 64 % 64) ∷ (0x80 + c % 64) ∷ []

-- `str::as_bytes`
unfoldable pub as_bytes : Text → Bytes
unfolding utf8_char
as_bytes [] = []
as_bytes (c ∷ t) = utf8_char c ++ as_bytes t

-- `str::len`
unfoldable pub byte_len : Text → ℕ
unfolding as_bytes
byte_len t = length (as_bytes t)

-- `str::split_at` at a byte index; `none` is the panic of an index that is out of range or splits
-- a character.
unfoldable pub split_at : ℕ → Text → Option (Text × Text)
unfolding utf8_char
split_at n [] = if n == 0 then some ([], []) else none
split_at n (c ∷ t) =
    let k = length (utf8_char c) in
    let rest = split_at (n - k) t in
    if n == 0
    then some ([], c ∷ t)
    else if ltb n k
    then none
    else rest >>= λ (a, b). some (c ∷ a, b)

-- `&t[i..j]`, with its panic.
unfoldable pub slice : Text → ℕ → ℕ → Option Text
unfolding split_at
slice t i j = split_at i t >>= λ (a, b). split_at (j - i) b >>= λ (c, d). some c

-- `char::is_whitespace`, the Unicode property White_Space.
unfoldable pub is_whitespace : ℕ → Bool
is_whitespace c =
    within 9 13 c
    || c == 32
    || c == 0x85
    || c == 0xa0
    || c == 0x1680
    || within 0x2000 0x200a c
    || c == 0x2028
    || c == 0x2029
    || c == 0x202f
    || c == 0x205f
    || c == 0x3000

unfoldable pub trim_start : Text → Text
unfolding is_whitespace
trim_start [] = []
trim_start (c ∷ t) = if is_whitespace c then trim_start t else c ∷ t

unfoldable pub trim_end : Text → Text
unfolding is_whitespace
trim_end [] = []
trim_end (c ∷ t) =
    let rest = trim_end t in if is_whitespace c && is_empty rest then [] else c ∷ rest

-- `str::trim`
unfoldable pub trim : Text → Text
unfolding trim_start trim_end
trim t = trim_end (trim_start t)

-- `str::trim_start_matches('0')`
unfoldable pub trim_zeros : Text → Text
trim_zeros [] = []
trim_zeros (c ∷ t) = if c == b'0' then trim_zeros t else c ∷ t

-- `u8::is_ascii_digit` and `is_ascii_alphanumeric`
abbrev pub is_ascii_digit : ℕ → Bool
is_ascii_digit c = within b'0' b'9' c

unfoldable pub is_ascii_alphanumeric : ℕ → Bool
is_ascii_alphanumeric c = is_ascii_digit c || within b'A' b'Z' c || within b'a' b'z' c

-- The loop of `parse` on decimal digits: `none` on another character or above `limit`.
unfoldable pub digits_to : ℕ → ℕ → Text → Option ℕ
digits_to limit n [] = some n
digits_to limit n (c ∷ t) =
    let m = n * 10 + (c - b'0') in
    let rest = digits_to limit m t in
    if is_ascii_digit c then (if leb m limit then rest else none) else none

-- `parse::<usize>`, `parse::<u64>` and `parse::<u32>`: at least one digit, after an optional `+`.
unfoldable pub parse_unsigned : ℕ → Text → Option ℕ
unfolding digits_to
parse_unsigned limit [] = none
parse_unsigned limit (c ∷ []) = digits_to limit 0 (c ∷ [])
parse_unsigned limit (c ∷ d ∷ t) =
    if c == b'+' then digits_to limit 0 (d ∷ t) else digits_to limit 0 (c ∷ d ∷ t)

-- `parse::<i64>`; the result is the two's complement pattern, a number below 2 ^ 64.
unfoldable pub parse_i64 : Text → Option ℕ
unfolding digits_to
parse_i64 [] = none
parse_i64 (c ∷ []) = digits_to (2 ^ 63 - 1) 0 (c ∷ [])
parse_i64 (c ∷ d ∷ t) =
    if c == b'+'
    then digits_to (2 ^ 63 - 1) 0 (d ∷ t)
    else if c == b'-'
    then (digits_to (2 ^ 63) 0 (d ∷ t) >>= λ n. some ((2 ^ 64 - n) % 2 ^ 64))
    else digits_to (2 ^ 63 - 1) 0 (c ∷ d ∷ t)

-- The last `k` decimal digits.
unfoldable pub decimal : ℕ → ℕ → Text
decimal zero n = []
decimal (suc k) n = decimal k (n / 10) ++ (b'0' + n % 10) ∷ []

-- `n.to_string()` of a `usize`, which has at most twenty digits.
unfoldable pub to_string : ℕ → Text
unfolding decimal trim_zeros
to_string n = if n == 0 then b'0' ∷ [] else trim_zeros (decimal 20 n)

-- `format!("{:04}", n)`
unfoldable pub format_04 : ℕ → Text
unfolding decimal to_string
format_04 n = if ltb n 10_000 then decimal 4 n else to_string n

-- The number that digits stand for, read behind the number `n`.
unfoldable pub value_from : ℕ → Text → ℕ
value_from n [] = n
value_from n (c ∷ t) = value_from (n * 10 + (c - b'0')) t
