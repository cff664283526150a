-- ===== src/Tests/World.antt =====
-- The outside world of the tests: a Redis with its marks, a broker, a socket and a clock.
use realtime_ingestion.Base.{
  ℕ, ◌+◌, ◌*◌, ◌≤◌, ◌≡◌, ◌≢◌, refl, ap, sym, ◌∙◌, Bool, true, false, Option, none, some, List, [],
  ◌∷◌, ◌++◌, Bytes, inl, inr, Bool-cases, is_some, arith,
}
use realtime_ingestion.Text.{Text, codes, text_eq}
use realtime_ingestion.Text.Laws.{text_eq_refl, text_eq_iff}
use realtime_ingestion.External.{Result, ok, err, Error, Redis, RedisLaws, alive, Amqp, Socket}
use realtime_ingestion.Producer.Connect.Topology.{Declaration}
use realtime_ingestion.Receiver.{AppState}
use realtime_ingestion.Tests.Codec.{Fields, json}

pub record World : Type 0 where
  pub time : ℕ
  pub marks : Text → Option ℕ
  pub queue : List Bytes
  pub written : Bytes
  pub declared : List Declaration
  pub confirms : Bool
  pub requests : ℕ

abbrev pub start : World
start = record {
  time = 1_000;
  marks = λ k. none;
  queue = [];
  written = [];
  declared = [];
  confirms = false;
  requests = 0;
}

abbrev pub set : Text → ℕ → World → Text → Option ℕ
set k ttl w j = elim (text_eq j k) [ true ↦ some (w.time + 1000 * ttl) | false ↦ w.marks j ]

abbrev pub set_nx : Text → ℕ → World → Bool → Result (Option Text) × World
set_nx k ttl w true = (ok none, w)
set_nx k ttl w false = (ok (some (codes "OK")), record w { marks = set k ttl w })

abbrev pub redis : Redis World
redis = record { set_nx_ex = λ k ttl w. set_nx k ttl w (alive (w.marks k) w.time) }

pub set_nx-later : (k : Text) (ttl : ℕ) (w : World) (b : Bool) → w.time ≤ (set_nx k ttl w b).1.time
set_nx-later k ttl w true = omega arith
set_nx-later k ttl w false = omega arith

option_of : Result (Option Text) × World → Option Text
option_of (ok o, w) = o
option_of (err e, w) = none

pub redis-found :
    (k : Text) (ttl : ℕ) (w w' : World) (o : Option Text)
    → redis.set_nx_ex k ttl w ≡ (ok o, w')
    → alive (w.marks k) w.time ≡ true
    → (o ≡ none) × ((j : Text) → w'.marks j ≡ w.marks j)
unfolding option_of
redis-found k ttl w w' o e a =
    let f = ap (set_nx k ttl w) (sym a) ∙ e in
    (sym (ap option_of f), λ j. sym (ap (λ (r : Result (Option Text) × World). r.1.marks j) f))

pub redis-created :
    (k : Text) (ttl : ℕ) (w w' : World) (o : Option Text)
    → redis.set_nx_ex k ttl w ≡ (ok o, w')
    → alive (w.marks k) w.time ≡ false
    → (is_some o ≡ true)
      × (w'.marks k ≡ some (w.time + 1000 * ttl))
      × ((j : Text) → j ≢ k → w'.marks j ≡ w.marks j)
unfolding option_of
redis-created k ttl w w' o e a =
    let f = ap (set_nx k ttl w) (sym a) ∙ e in
    let mark = λ (j : Text). sym (ap (λ (r : Result (Option Text) × World). r.1.marks j) f) in
    (
      sym (ap (λ (r : Result (Option Text) × World). is_some (option_of r)) f),
      mark k ∙ set_same k ttl w,
      λ j ne. mark j ∙ set_other j k ttl w ne,
    )
  where
    set_same : (k : Text) (ttl : ℕ) (w : World) → set k ttl w k ≡ some (w.time + 1000 * ttl)
    set_same k ttl w = rw (text_eq_refl k, set) refl

    set_other : (j k : Text) (ttl : ℕ) (w : World) → j ≢ k → set k ttl w j ≡ w.marks j
    set_other j k ttl w ne = elim (Bool-cases (text_eq j k)) [
      | inl same ↦ absurd (ne ((text_eq_iff j k).0 same))
      | inr other ↦ rw (other, set) refl
    ]

pub redis-failed :
    (k : Text) (ttl : ℕ) (w w' : World) (b : Bool) (x : Error)
    → set_nx k ttl w b ≡ (err x, w')
    → (j : Text) → alive (w.marks j) w.time ≡ true
    → w'.marks j ≡ w.marks j
redis-failed k ttl w w' true x e j h = absurd (cc e)
redis-failed k ttl w w' false x e j h = absurd (cc e)

abbrev pub redis-RedisLaws : RedisLaws redis
redis-RedisLaws = record {
  now = λ w. w.time;
  expiry = λ w. w.marks;
  later = λ k ttl w. set_nx-later k ttl w (alive (w.marks k) w.time);
  found = redis-found;
  created = redis-created;
  failed = λ k ttl w w'. redis-failed k ttl w w' (alive (w.marks k) w.time);
}

-- A broker that confirms every message.
abbrev pub amqp : Amqp World (Unit {0})
amqp = record {
  basic_publish = λ exchange routing_key content_type mode body w.
      (ok 1, record w { queue = w.queue ++ body ∷ [] });
  confirmation = λ tag w. (ok tt, w);
}

abbrev pub socket : Socket World
socket = record { write_all = λ bytes w. (true, record w { written = w.written ++ bytes }) }

abbrev pub state : AppState World (Unit {0}) Fields
state = record {
  dedup = record { ttl_secs = 60 };
  producer = record { exchange = codes "events" };
  redis = redis;
  amqp = amqp;
  json = json;
  clock = record { since_epoch = λ w. some w.time };
  euc_kr = record { decode = λ b. b; decode_ascii = λ b h. refl };
}
