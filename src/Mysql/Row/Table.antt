-- ===== src/Mysql/Row/Table.antt =====
-- `resolve_table` and `format_datetime` of src/consumer/mysql.rs. The table name goes into the text of
-- the statement between backticks; the date is cut by bytes.
use realtime_ingestion.Base.{
  both, sym, ◌↔◌, le→not_ltb, ◌≡◌, ◌≤◌, ◌<◌, refl, ap, true, false, Option, none, some, [], ◌∷◌,
  ◌++◌, length, is_empty, take, drop, all, All, arith, ◌∙◌,
}
use realtime_ingestion.Text.{Text, codes, trim, byte_len, is_ascii_alphanumeric}
use realtime_ingestion.Text.Laws.{
  length-le-byte_len, byte_len-as_bytes, as_bytes_ascii, slice_ascii,
}
use realtime_ingestion.Mysql.Row.{format_datetime, resolve_table}

pub resolve_table_key :
    (k t : Text)
    → resolve_table (some k) ≡ some t
    → (t ≡ codes "kicc_b" ++ trim k)
      × (all is_ascii_alphanumeric (trim k) ≡ true)
      × (is_empty (trim k) ≡ false)
      × (byte_len (trim k) ≤ 20)
unfolding resolve_table
resolve_table_key k t e = ground arith

pos_of_filled : (t : Text) → is_empty t ≡ false → 0 < length t
pos_of_filled [] h = absurd (ground arith)
pos_of_filled (c ∷ t) h = omega arith

-- One to twenty ASCII letters or digits.
abbrev pub IsTableKey : Text → Type 0
IsTableKey k = (all is_ascii_alphanumeric k ≡ true) × (1 ≤ length k) × (length k ≤ 20)

alphanumeric-IsAscii : (t : Text) → all is_ascii_alphanumeric t ≡ true → All (λ c. c < 128) t
unfolding is_ascii_alphanumeric
alphanumeric-IsAscii [] h = tt
alphanumeric-IsAscii (c ∷ t) h =
    let (own, rest) = both (is_ascii_alphanumeric c) (all is_ascii_alphanumeric t) h in
    (ground (arith, own), alphanumeric-IsAscii t rest)

ascii_len : (t : Text) → All (λ c. c < 128) t → byte_len t ≡ length t
ascii_len t h = byte_len-as_bytes t ∙ ap length (as_bytes_ascii t h)

filled_of_pos : (t : Text) → 1 ≤ length t → is_empty t ≡ false
filled_of_pos [] h = absurd (omega arith)
filled_of_pos (c ∷ t) h = refl

resolve_table_of :
    (k : Text) → IsTableKey (trim k) → resolve_table (some k) ≡ some (codes "kicc_b" ++ trim k)
unfolding resolve_table
resolve_table_of k (letters, filled, short) =
    let bytes = ascii_len (trim k) (alphanumeric-IsAscii (trim k) letters) in
    rw
      (
        filled_of_pos (trim k) filled,
        letters,
        le→not_ltb 20 (byte_len (trim k)) (omega (arith, bytes)),
        resolve_table,
      )
      refl

resolve_table-key :
    (key : Option Text) (t : Text)
    → resolve_table key ≡ some t
    → (k : Text) × (key ≡ some k) × (t ≡ codes "kicc_b" ++ trim k) × IsTableKey (trim k)
resolve_table-key none t e = absurd (unfold resolve_table in ground arith)
resolve_table-key (some k) t e =
    let (t_eq, letters, filled, short) = resolve_table_key k t e in
    let pos : 1 ≤ length (trim k) = omega (arith, pos_of_filled (trim k) filled) in
    let small : length (trim k) ≤ 20 = omega (arith, length-le-byte_len (trim k)) in
    (k, refl, t_eq, (letters, pos, small))

-- A key gives a table exactly if, trimmed, it is one to twenty ASCII letters or digits, and the
-- table is then `kicc_b` and these.
pub resolve_table_iff :
    (key : Option Text) (t : Text)
    → (resolve_table key ≡ some t)
      ↔ ((k : Text) × (key ≡ some k) × (t ≡ codes "kicc_b" ++ trim k) × IsTableKey (trim k))
resolve_table_iff key t = (
  resolve_table-key key t,
  λ (k, same, t_eq, valid).
      ap resolve_table same ∙ resolve_table_of k valid ∙ ap (λ x. some x) (sym t_eq),
)

-- What the six slices make.
abbrev pub dashed : Text → Text → Text
dashed date time =
    take 4 date
    ++ (codes "-"
        ++ (take 2 (drop 4 date)
            ++ (codes "-"
                ++ (take 2 (drop 6 date)
                    ++ (codes " "
                        ++ (take 2 time
                            ++ (codes ":"
                                ++ (take 2 (drop 2 time)
                                    ++ (codes ":" ++ take 2 (drop 4 time))))))))))

-- A date of eight and a time of six ASCII characters never panic, and are set out with their
-- separators, whatever the characters are.
pub format_datetime_ascii :
    (date time : Text)
    → All (λ c. c < 128) date
    → All (λ c. c < 128) time
    → length date ≡ 8
    → length time ≡ 6
    → format_datetime date time ≡ some (dashed date time)
unfolding format_datetime
format_datetime_ascii date time d t ld lt = rw (
  ascii_len date d ∙ ld,
  ascii_len time t ∙ lt,
  slice_ascii date 0 4 d (omega arith) (omega arith),
  slice_ascii date 4 6 d (omega arith) (omega arith),
  slice_ascii date 6 8 d (omega arith) (omega arith),
  slice_ascii time 0 2 t (omega arith) (omega arith),
  slice_ascii time 2 4 t (omega arith) (omega arith),
  slice_ascii time 4 6 t (omega arith) (omega arith),
)
