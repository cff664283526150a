-- ===== src/Tcp/Frame.antt =====
-- `extract_frame` of src/tcp_listener.rs, and the header that `handle_connection` puts before a
-- response. The function returns its result and the buffer that it leaves.
pub mod Extract
pub mod Invert
use realtime_ingestion.Base.{
  ℕ, ◌+◌, ◌≡◌, ◌≤◌, ◌<◌, Bool, true, false, Option, none, some, List, [], ◌∷◌, ◌++◌, Bytes, ltb,
  leb, ◌==◌, if◌then◌else◌, length, take, drop, all, ◌^◌, ◌-◌, ◌>>=◌,
}
use realtime_ingestion.Text.{is_ascii_digit, trim, parse_unsigned, format_04}

abbrev pub fixed_frame_size : ℕ
fixed_frame_size = 170

-- The branch of a `LLLL` header that says `payload_len`.
unfoldable pub take_llll : Bytes → ℕ → ℕ → Option (Bytes × Bool) × Bytes
take_llll buf max_frame_bytes payload_len =
    if payload_len == 0
    then (none, drop 4 buf)
    else if ltb max_frame_bytes payload_len
    then (none, [])
    else if ltb (length buf) (4 + payload_len)
    then (none, buf)
    else (some (take payload_len (drop 4 buf), true), drop (4 + payload_len) buf)

-- The branch of the frame with no header.
unfoldable pub take_fixed : Bytes → ℕ → Option (Bytes × Bool) × Bytes
take_fixed buf max_frame_bytes =
    if ltb (length buf) fixed_frame_size
    then (none, buf)
    else if ltb max_frame_bytes fixed_frame_size
    then (none, [])
    else (some (take fixed_frame_size buf, false), drop fixed_frame_size buf)

-- `len_str.trim().parse().ok()`; `from_utf8` of ASCII digits is the digits.
unfoldable pub payload_length : Bytes → Option ℕ
unfolding trim parse_unsigned
payload_length len_str = parse_unsigned (2 ^ 64 - 1) (trim len_str)

unfoldable pub extract_frame : Bytes → ℕ → Option (Bytes × Bool) × Bytes
unfolding take_llll take_fixed payload_length
extract_frame buf max_frame_bytes =
    if ltb (length buf) 4
    then (none, buf)
    else if all is_ascii_digit (take 4 buf)
    then elim (payload_length (take 4 buf)) [
      | none ↦ (none, buf)
      | some payload_len ↦ take_llll buf max_frame_bytes payload_len
    ]
    else take_fixed buf max_frame_bytes

-- What goes over the wire for a response: the header stands before it if the request had one.
unfoldable pub wrap_response : Bytes × Bool → Bytes
unfolding format_04
wrap_response (response, had_llll) =
    if had_llll then format_04 (length response) ++ response else response

-- A frame that a terminal may send: it fits the limit, its length fits the header, and a frame
-- with no header does not begin with four digits.
abbrev pub IsWellFormed : ℕ → Bytes × Bool → Type 0
IsWellFormed max_frame_bytes (p, true) =
    (0 < length p) × (length p ≤ max_frame_bytes) × (length p < 10_000)
IsWellFormed max_frame_bytes (p, false) =
    (length p ≡ fixed_frame_size)
    × (fixed_frame_size ≤ max_frame_bytes)
    × (all is_ascii_digit (take 4 p) ≡ false)
