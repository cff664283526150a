-- ===== src/Tests/Codec.antt =====
-- A JSON library of the tests: a message as a list of numbers, each text behind its length.
use realtime_ingestion.Base.{
  sym, ◌∙◌, ℕ, zero, suc, ◌≡◌, refl, ap, Option, none, some, List, [], ◌∷◌, ◌++◌, Bytes, length,
  take, drop, subst, take-append, drop-append,
}
use realtime_ingestion.Text.{Text}
use realtime_ingestion.Models.{QueueMessage}
use realtime_ingestion.External.{Result, ok, err, json_error, entry, JsonLib, JsonLaws}

abbrev pub Fields : Type 0
Fields = List (Text × Text)

unfoldable put : Text → Bytes → Bytes
put t rest = length t ∷ (t ++ rest)

unfoldable get : Bytes → Text × Bytes
get [] = ([], [])
get (n ∷ b) = (take n b, drop n b)

get-put : (t : Text) (rest : Bytes) → get (put t rest) ≡ (t, rest)
unfolding get put
get-put t rest = rw (take-append t rest, drop-append t rest) refl

unfoldable put_fields : Fields → Bytes
put_fields [] = []
put_fields ((k, v) ∷ fs) = put k (put v (put_fields fs))

unfoldable get_fields : ℕ → Bytes → Fields
get_fields zero b = []
get_fields (suc n) b = let (k, c) = get b in let (v, d) = get c in (k, v) ∷ get_fields n d

get_fields-put_fields : (fs : Fields) → get_fields (length fs) (put_fields fs) ≡ fs
unfolding get_fields put_fields
get_fields-put_fields [] = refl
get_fields-put_fields ((k, v) ∷ fs) =
    rw (get-put k (put v (put_fields fs)), get-put v (put_fields fs), get_fields-put_fields fs)

unfoldable put_key : Option Text → Bytes → Bytes
put_key none rest = 0 ∷ rest
put_key (some t) rest = 1 ∷ put t rest

unfoldable get_key : Bytes → Option Text × Bytes
get_key (suc n ∷ b) = let (t, c) = get b in (some t, c)
get_key (zero ∷ b) = (none, b)
get_key [] = (none, [])

get_key-put_key : (k : Option Text) (rest : Bytes) → get_key (put_key k rest) ≡ (k, rest)
unfolding get_key put_key
get_key-put_key none rest = refl
get_key-put_key (some t) rest = rw (get-put t rest) refl

pub encode : QueueMessage Fields → Bytes
encode m =
    m.timestamp
    ∷ m.received_at
    ∷ length m.payload
    ∷ put m.id (put m.event_type (put_key m.table_key (put_fields m.payload)))

pub decode : Bytes → Result (QueueMessage Fields)
decode (timestamp ∷ received_at ∷ n ∷ b) =
    let (id, c) = get b in
    let (event_type, d) = get c in
    let (table_key, e) = get_key d in
    ok (record {
      id = id;
      event_type = event_type;
      payload = get_fields n e;
      timestamp = timestamp;
      received_at = received_at;
      table_key = table_key;
    })
decode _ = err json_error

decode-encode : (m : QueueMessage Fields) → decode (encode m) ≡ ok m
unfolding decode encode
decode-encode m = rw (
  get-put m.id (put m.event_type (put_key m.table_key (put_fields m.payload))),
  get-put m.event_type (put_key m.table_key (put_fields m.payload)),
  get_key-put_key m.table_key (put_fields m.payload),
  get_fields-put_fields m.payload,
)

-- What holds of a message holds of what its bytes are read as.
pub read_back :
    (P : QueueMessage Fields → Type 0) (m : QueueMessage Fields)
    → P m
    → (msg : QueueMessage Fields) → decode (encode m) ≡ ok msg
    → P msg
read_back P m h msg e = subst P (ap message_of (sym (decode-encode m) ∙ e)) h
  where
    message_of : Result (QueueMessage Fields) → QueueMessage Fields
    message_of (ok x) = x
    message_of (err x) = m

decode_of :
    (m : QueueMessage Fields) (b : Bytes)
    → ◌≡◌ {A = Result Bytes} (ok (encode m)) (ok b)
    → decode b ≡ ok m
decode_of m b h = subst (λ c. decode c ≡ ok m) (ap bytes_of h) (decode-encode m)
  where
    bytes_of : Result Bytes → Bytes
    bytes_of (ok c) = c
    bytes_of (err e) = []

abbrev pub json : JsonLib Fields
json = record {
  object = λ fs. fs;
  str_at = λ fs k. entry k fs;
  to_vec = λ m. ok (encode m);
  from_slice = decode;
}

pub json-JsonLaws : JsonLaws json
json-JsonLaws = record {
  str_at-object = λ fs k. refl;
  from_slice-to_vec = λ m fs b e h. decode_of m b h;
}
