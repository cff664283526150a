-- ===== src/Text/Ascii.antt =====
-- ASCII texts.
use realtime_ingestion.Base.{◌<◌, ◌&&◌, [], ◌∷◌, All, is_empty, inl, inr, Bool-cases}
use realtime_ingestion.Text.{Text, trim, trim_start, trim_end, is_whitespace}

abbrev pub IsAscii : Text → Type 0
IsAscii t = All (λ c. c < 128) t

trim_start-IsAscii : (t : Text) → IsAscii t → IsAscii (trim_start t)
unfolding trim_start
trim_start-IsAscii [] h = tt
trim_start-IsAscii (c ∷ t) h = elim (Bool-cases (is_whitespace c)) [
  | inl blank ↦ rw blank (trim_start-IsAscii t h.1)
  | inr kept ↦ rw kept h
]

trim_end-IsAscii : (t : Text) → IsAscii t → IsAscii (trim_end t)
unfolding trim_end
trim_end-IsAscii [] h = tt
trim_end-IsAscii (c ∷ t) h = elim (Bool-cases (is_whitespace c && is_empty (trim_end t))) [
  | inl blank ↦ rw blank tt
  | inr kept ↦ rw kept (h.0, trim_end-IsAscii t h.1)
]

pub trim-IsAscii : (t : Text) → IsAscii t → IsAscii (trim t)
unfolding trim
trim-IsAscii t h = trim_end-IsAscii (trim_start t) (trim_start-IsAscii t h)
