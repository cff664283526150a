-- ===== src/Security/Mask.antt =====
-- `mask_card_no` and `mask_business_no` of src/security.rs. A `char` is a scalar value.
pub mod Laws
use realtime_ingestion.Base.{
  ℕ, ◌-◌, Bool, false, ◌||◌, [], ◌∷◌, ◌++◌, reverse, ltb, leb, ◌==◌, if◌then◌else◌, length, take,
  replicate,
}
use realtime_ingestion.Text.{Text, codes, trim}

-- `s.contains(c)` for a character
unfoldable pub contains : Text → ℕ → Bool
contains [] x = false
contains (c ∷ t) x = c == x || contains t x

-- On the trimmed number.
unfoldable pub mask_trimmed : Text → Text
mask_trimmed s =
    if ltb (length s) 10 || contains s b'*'
    then s
    else take 6 s ++ (replicate (length s - 10) b'*' ++ reverse (take 4 (reverse s)))

unfoldable pub mask_card_no : Text → Text
mask_card_no s = mask_trimmed (trim s)

unfoldable pub mask_business_no : Text → Text
mask_business_no s = let t = trim s in if leb (length t) 6 then t else take 6 t ++ codes "****"
