-- ===== src/Receiver/Validation.antt =====
-- Which events `validate_event` of src/receiver.rs lets through.
use realtime_ingestion.Base.{
  both, ℕ, ◌≡◌, ◌≤◌, ◌<◌, refl, sym, ap₂, Bool, true, ◌&&◌, [], ◌∷◌, ◌++◌, length, arith, ◌∙◌, all,
  Bytes, is_empty, ltb, All, none, ◌↔◌, false, ◌||◌, ap,
}
use realtime_ingestion.Text.Laws.{byte_len-as_bytes, byte_len-is_empty, as_bytes_ascii}
use realtime_ingestion.Text.{Text, as_bytes, byte_len, utf8_char}
use realtime_ingestion.Models.{IncomingEvent}
use realtime_ingestion.Receiver.{is_id_byte, validate_event}

all-append : (p : ℕ → Bool) (xs ys : Bytes) → all p (xs ++ ys) ≡ all p xs && all p ys
all-append p [] ys = refl
all-append p (x ∷ xs) ys = ground (arith, all-append p xs ys)

-- A character whose UTF-8 bytes are allowed in an id is one such byte.
utf8_char-is_id_byte :
    (c : ℕ) → all is_id_byte (utf8_char c) ≡ true → (utf8_char c ≡ c ∷ []) × (is_id_byte c ≡ true)
unfolding utf8_char is_id_byte
utf8_char-is_id_byte c h = ground arith

ascii_id :
    (t : Text) → all is_id_byte (as_bytes t) ≡ true → (as_bytes t ≡ t) × (all is_id_byte t ≡ true)
unfolding as_bytes
ascii_id [] h = (refl, refl)
ascii_id (c ∷ t) h =
    let (head, tail) = both _ _ (sym (all-append is_id_byte (utf8_char c) (as_bytes t)) ∙ h) in
    let (e, k) = utf8_char-is_id_byte c head in
    let (e', k') = ascii_id t tail in (ap₂ ◌++◌ e e', ap₂ ◌&&◌ k k')

pub record IsValid {Json : Type 0} (event : IncomingEvent Json) : Type 0 where
  pub id_pos : 0 < length event.id
  pub id_bound : length event.id ≤ 128
  pub id_allowed : all is_id_byte event.id ≡ true
  pub type_pos : 0 < byte_len event.event_type
  pub type_bound : byte_len event.event_type ≤ 64

id_byte-ascii : (c : ℕ) → is_id_byte c ≡ true → c < 128
unfolding is_id_byte
id_byte-ascii c h = ground arith

id_bytes_ascii : (t : Text) → all is_id_byte t ≡ true → All (λ c. c < 128) t
id_bytes_ascii [] h = tt
id_bytes_ascii (c ∷ t) h =
    let (head, tail) = both _ _ h in (id_byte-ascii c head, id_bytes_ascii t tail)

module _ {Json : Type 0} (event : IncomingEvent Json) where
  abbrev Passes : Type 0
  Passes =
      ((is_empty event.id || ltb 128 (byte_len event.id)) ≡ false)
      × (all is_id_byte (as_bytes event.id) ≡ true)
      × ((is_empty event.event_type || ltb 64 (byte_len event.event_type)) ≡ false)

  validate_event-Passes : (validate_event event ≡ none) ↔ Passes
  unfolding validate_event
  validate_event-Passes = ground arith

  Passes→IsValid : Passes → IsValid event
  Passes→IsValid (a, b, c) =
      let (same, allowed) = ascii_id event.id b in
      let n : byte_len event.id ≡ length event.id = byte_len-as_bytes event.id ∙ ap length same in
      record {
        id_pos = ground (arith, byte_len-is_empty event.id);
        id_bound = ground arith;
        id_allowed = allowed;
        type_pos = ground (arith, byte_len-is_empty event.event_type);
        type_bound = ground arith;
      }

  IsValid→Passes : IsValid event → Passes
  IsValid→Passes v =
      let same = as_bytes_ascii event.id (id_bytes_ascii event.id v.id_allowed) in
      let n : byte_len event.id ≡ length event.id = byte_len-as_bytes event.id ∙ ap length same in
      (
        ground (arith, byte_len-is_empty event.id, v.id_pos, v.id_bound),
        rw same v.id_allowed,
        ground (arith, byte_len-is_empty event.event_type, v.type_pos, v.type_bound),
      )

  -- An event passes exactly if its id is 1 to 128 ASCII letters, digits, dashes or underscores and
  -- its type is 1 to 64 bytes.
  pub validate_event-IsValid : (validate_event event ≡ none) ↔ IsValid event
  validate_event-IsValid = (
    λ e. Passes→IsValid (validate_event-Passes.0 e),
    λ v. validate_event-Passes.1 (IsValid→Passes v),
  )
