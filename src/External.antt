-- ===== src/External.antt =====
-- What the program calls and does not implement: interfaces of operations on the outside world
-- `W`, and the documented behaviour that the theorems rely on. Errors are values, as in `anyhow`.
use realtime_ingestion.Base.{
  ℕ, ◌+◌, ◌*◌, ◌≤◌, ◌<◌, ◌≡◌, ◌≢◌, refl, Bool, true, false, Option, none, some, List, [], ◌∷◌,
  Bytes, ltb, or_else, is_some, if◌then◌else◌, All,
}
use realtime_ingestion.Text.{Text, text_eq}
use realtime_ingestion.Models.{QueueMessage}

-- The errors that the program makes (with the length that their text names) or passes on.
pub data Error : Type 0 where
  bad_event_id short_payload : ℕ → Error
  redis_error amqp_error json_error : Error

pub data Result {ℓ} (A : Type ℓ) : Type ℓ where
  ok : A → Result A
  err : Error → Result A

-- A call that may fail and that changes the world in either case.
abbrev pub Io : Type 0 → Type 0 → Type 0
Io W A = W → Result A × W

abbrev pub pure : {W A : Type 0} → A → Io W A
pure a w = (ok a, w)

abbrev pub lift : {W A : Type 0} → Result A → Io W A
lift r w = (r, w)

abbrev pub continue : {W A B : Type 0} → Result A × W → (A → Io W B) → Result B × W
continue (ok a, w) f = f a w
continue (err e, w) f = (err e, w)

-- A sequence that succeeds: its first call did, with the rest behind it.
pub continue-ok :
    {W A B : Type 0} (r : Result A × W) (f : A → Io W B) {b : B} {w' : W}
    → continue r f ≡ (ok b, w')
    → (a : A) × (v : W) × (r ≡ (ok a, v)) × (f a v ≡ (ok b, w'))
continue-ok (ok a, v) f e = (a, v, refl, e)
continue-ok (err x, v) f e = absurd (cc e)

-- The `?` operator behind a call.
infixl 5 ◌>>=◌
abbrev pub ◌>>=◌ : {W A B : Type 0} → Io W A → (A → Io W B) → Io W B
◌>>=◌ m f w = continue (m w) f

-- What a JSON object holds at a key: the last entry wins.
unfoldable pub entry : Text → List (Text × Text) → Option Text
entry k [] = none
entry k ((j, v) ∷ fs) = or_else (entry k fs) (if text_eq j k then some v else none)

-- serde_json: an object of strings (`json!`), `value[key].as_str()`, and the two codecs.
pub record JsonLib (Json : Type 0) : Type 0 where
  pub object : List (Text × Text) → Json
  pub str_at : Json → Text → Option Text
  pub to_vec : QueueMessage Json → Result Bytes
  pub from_slice : Bytes → Result (QueueMessage Json)

pub record JsonLaws {Json : Type 0} (j : JsonLib Json) : Type 0 where
  pub str_at-object : (fs : List (Text × Text)) (k : Text) → j.str_at (j.object fs) k ≡ entry k fs
  pub from_slice-to_vec :
      (m : QueueMessage Json) (fs : List (Text × Text)) (b : Bytes)
      → m.payload ≡ j.object fs
      → j.to_vec m ≡ ok b
      → j.from_slice b ≡ ok m

-- encoding_rs: `EUC_KR.decode`, which reads ASCII bytes as themselves.
pub record EucKr : Type 0 where
  pub decode : Bytes → Text
  pub decode_ascii : (b : Bytes) → All (λ c. c < 128) b → decode b ≡ b

-- `SystemTime::now().duration_since(UNIX_EPOCH)` in milliseconds; `none` is a clock before 1970.
pub record Clock (W : Type 0) : Type 0 where
  pub since_epoch : W → Option ℕ

-- `SET key "1" NX EX ttl` through the connection manager.
pub record Redis (W : Type 0) : Type 0 where
  pub set_nx_ex : Text → ℕ → Io W (Option Text)

-- `basic_publish` on a channel in confirm mode (exchange, routing key, content type, delivery
-- mode, body), and the wait for the broker's confirmation `C` of that delivery tag.
pub record Amqp (W C : Type 0) : Type 0 where
  pub basic_publish : Text → Text → Text → ℕ → Bytes → Io W ℕ
  pub confirmation : ℕ → Io W C

-- `stream.write_all`: whether it succeeds.
pub record Socket (W : Type 0) : Type 0 where
  pub write_all : Bytes → W → Bool × W

-- A key with this expiry time, if it has one, exists at `now`.
abbrev pub alive : Option ℕ → ℕ → Bool
alive none now = false
alive (some t) now = ltb now t

-- What deduplication relies on. Times are in milliseconds; `expiry` is when a key disappears. A
-- call that succeeds finds the key, and then changes nothing, or sets it, and then changes no
-- other key. A call that fails may have done either, so a key that exists stays as it is.
pub record RedisLaws {W : Type 0} (r : Redis W) : Type 0 where
  pub now : W → ℕ
  pub expiry : W → Text → Option ℕ
  pub later : (k : Text) (ttl : ℕ) (w : W) → now w ≤ now (r.set_nx_ex k ttl w).1
  pub found :
      (k : Text) (ttl : ℕ) (w w' : W) (o : Option Text)
      → r.set_nx_ex k ttl w ≡ (ok o, w')
      → alive (expiry w k) (now w) ≡ true
      → (o ≡ none) × ((j : Text) → expiry w' j ≡ expiry w j)
  pub created :
      (k : Text) (ttl : ℕ) (w w' : W) (o : Option Text)
      → r.set_nx_ex k ttl w ≡ (ok o, w')
      → alive (expiry w k) (now w) ≡ false
      → (is_some o ≡ true)
        × (expiry w' k ≡ some (now w + 1000 * ttl))
        × ((j : Text) → j ≢ k → expiry w' j ≡ expiry w j)
  pub failed :
      (k : Text) (ttl : ℕ) (w w' : W) (e : Error)
      → r.set_nx_ex k ttl w ≡ (err e, w')
      → (j : Text) → alive (expiry w j) (now w) ≡ true
      → expiry w' j ≡ expiry w j
