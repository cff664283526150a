-- ===== src/Config/Password.antt =====
-- What `url_encode_password` of src/config.rs makes of a password.
use realtime_ingestion.Base.{
  ℕ, ◌+◌, ◌-◌, ◌*◌, ◌≡◌, refl, ap, ◌∙◌, Bool, true, false, ◌&&◌, ◌||◌, not, [], ◌∷◌, ◌++◌, ◌==◌,
  if◌then◌else◌, all, arith,
}
use realtime_ingestion.Text.{Text, is_ascii_digit}
use realtime_ingestion.Config.{encode_char, url_encode_password}

-- RFC 3986, 2.1: the value of a hexadecimal digit, with capital letters.
abbrev hex : ℕ → ℕ
hex c = if is_ascii_digit c then c - b'0' else c - b'A' + 10

-- Percent-decoding: `%` and two digits stand for a character.
unfoldable pub percent_decode : Text → Text
percent_decode [] = []
percent_decode (c ∷ []) = c ∷ []
percent_decode (c ∷ d ∷ []) = c ∷ d ∷ []
percent_decode (c ∷ d ∷ e ∷ t) =
    let plain = percent_decode (d ∷ e ∷ t) in
    let coded = percent_decode t in if c == b'%' then (hex d * 16 + hex e) ∷ coded else c ∷ plain

-- A character other than `%` stands for itself.
percent_decode-plain :
    (c : ℕ) (t : Text) → (c == b'%') ≡ false → percent_decode (c ∷ t) ≡ c ∷ percent_decode t
unfolding percent_decode
percent_decode-plain c [] h = refl
percent_decode-plain c (d ∷ []) h = refl
percent_decode-plain c (d ∷ e ∷ t) h = rw h refl

percent_decode-encode_char :
    (c : ℕ) (t : Text) → percent_decode (encode_char c ++ t) ≡ c ∷ percent_decode t
unfolding encode_char percent_decode
percent_decode-encode_char c t = ground (arith, percent_decode-plain c t)

abbrev pub is_delimiter : ℕ → Bool
is_delimiter c = c == b'@' || c == b'#' || c == b':' || c == b'/'

all-append : (p : ℕ → Bool) (s t : Text) → all p (s ++ t) ≡ (all p s && all p t)
all-append p [] t = refl
all-append p (c ∷ s) t = ground (arith, all-append p s t)

encode_char-delimiter : (c : ℕ) → all (λ d. not (is_delimiter d)) (encode_char c) ≡ true
unfolding encode_char
encode_char-delimiter c = ground arith

-- An encoded password decodes to the password, and has no `@`, `#`, `:` or `/` in it.
pub percent_decode-url_encode_password :
    (s : Text)
    → (percent_decode (url_encode_password s) ≡ s)
      × (all (λ d. not (is_delimiter d)) (url_encode_password s) ≡ true)
unfolding url_encode_password percent_decode
percent_decode-url_encode_password [] = (refl, refl)
percent_decode-url_encode_password (c ∷ s) =
    let (back, clean) = percent_decode-url_encode_password s in
    (
      percent_decode-encode_char c (url_encode_password s) ∙ ap (◌∷◌ c) back,
      all-append (λ d. not (is_delimiter d)) (encode_char c) (url_encode_password s)
          ∙ ground (arith, encode_char-delimiter c, clean),
    )
