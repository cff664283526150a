-- ===== src/Intake/Sends.antt =====
-- What a call of `publish`, src/producer.rs, and one of `is_new`, src/dedup.rs, do to the marks and
-- to the messages that were sent.

use realtime_ingestion.Base.{
  ℕ, ◌+◌, ◌≤◌, ◌≡◌, ◌⊎◌, inl, inr, refl, ap, ◌∙◌, Bool, true, Option, sum_of, some, [], ◌∷◌, Bytes,
  Bool-cases, is_some, ◌||◌, ◌==◌, ltb, arith,
}
use realtime_ingestion.Text.{Text, codes, byte_len}
use realtime_ingestion.Models.{QueueMessage}
use realtime_ingestion.External.{Result, ok, err, continue, RedisLaws}
use realtime_ingestion.Dedup.{dedup_key, is_new}
use realtime_ingestion.Dedup.Window.{marked, is_new-keeps}
use realtime_ingestion.Producer.{publish, persistent}
use realtime_ingestion.Receiver.{AppState}
use realtime_ingestion.Intake.{id_of, is_id, Quiet, PublishLaws, count}

module _ {W C Json : Type 0} (state : AppState W C Json) (redis : RedisLaws state.redis)
    (laws : PublishLaws state redis) where
  abbrev pub how_many : Text → W → ℕ
  how_many i w = count state redis laws i w

  Quiet-trans : {u v w : W} → Quiet state redis u v → Quiet state redis v w → Quiet state redis u w
  Quiet-trans s t = record {
    later = omega (arith, s.later, t.later);
    marks = λ k. t.marks k ∙ s.marks k;
  }

  pub Quiet-refl : (w : W) → Quiet state redis w w
  Quiet-refl w = record { later = omega arith; marks = λ k. refl }

  -- What publishing a message with this id may do.
  pub record Sends (i j : Text) (w w' : W) : Type 0 where
    pub quiet : Quiet state redis w w'
    pub number_le : how_many i w' ≤ how_many i w + is_id i (some j)

  pub same_number :
      (i : Text) (w w' : W) → laws.sent w' ≡ laws.sent w → how_many i w' ≡ how_many i w
  same_number i w w' e = ap (sum_of (λ b. is_id i (id_of (state.json.from_slice b)))) e

  sent_one :
      (i : Text) (m : QueueMessage Json) (body : Bytes) (w w' : W)
      → state.json.to_vec m ≡ ok body
      → (laws.sent w' ≡ laws.sent w) ⊎ (laws.sent w' ≡ body ∷ laws.sent w)
      → how_many i w' ≤ how_many i w + is_id i (some m.id)
  sent_one i m body w w' e (inl same) = omega (arith, same_number i w w' same)
  sent_one i m body w w' e (inr more) = omega (
    arith,
    ap (sum_of (λ b. is_id i (id_of (state.json.from_slice b)))) more,
    ap (is_id i) (laws.to_vec m body e),
  )

  -- The end of `publish`, behind the body, and behind the delivery tag.
  abbrev confirm : Result ℕ × W → Result (Unit {0}) × W
  confirm r =
      continue r (λ tag w. continue (state.amqp.confirmation tag w) (λ confirmation v. (ok tt, v)))

  abbrev sending : Result Bytes → W → Result (Unit {0}) × W
  sending r w =
      continue (r, w)
        (λ body v. confirm (
          state.amqp.basic_publish state.producer.exchange [] (codes "application/json") persistent
            body v))

  ignored : (q : Result C × W) → (continue q (λ c v. (ok tt, v))).1 ≡ q.1
  ignored (ok c, v) = refl
  ignored (err e, v) = refl

  confirm-quiet :
      (r : Result ℕ × W)
      → Quiet state redis r.1 (confirm r).1 × (laws.sent (confirm r).1 ≡ laws.sent r.1)
  confirm-quiet (err e, v) = (Quiet-refl v, refl)
  confirm-quiet (ok tag, v) =
      rw (ignored (state.amqp.confirmation tag v))
        (laws.confirm_quiet tag v, laws.confirmation tag v)

  sending-Sends :
      (i : Text) (m : QueueMessage Json) (r : Result Bytes) (w : W)
      → state.json.to_vec m ≡ r
      → Sends i m.id w (sending r w).1
  sending-Sends i m (err e) w q = record { quiet = Quiet-refl w; number_le = omega arith }
  sending-Sends i m (ok body) w q =
      let tagged =
        state.amqp.basic_publish state.producer.exchange [] (codes "application/json") persistent
          body w in
      let (quiet, same) = confirm-quiet tagged in
      record {
        quiet = Quiet-trans (laws.publish_quiet _ _ _ _ body w) quiet;
        number_le = omega (
          arith,
          same_number i tagged.1 (confirm tagged).1 same,
          sent_one i m body w tagged.1 q (laws.basic_publish _ _ _ _ body w),
        );
      }

  pub publish-Sends :
      (i : Text) (m : QueueMessage Json) (w : W)
      → Sends i m.id w (publish state.amqp state.json state.producer m w).1
  unfolding publish
  publish-Sends i m w = sending-Sends i m (state.json.to_vec m) w refl

  -- What a call of `is_new` leaves as it is, and what it does to an event that is new.
  pub record Asks (id : Text) (w w' : W) : Type 0 where
    pub same : laws.sent w' ≡ laws.sent w
    pub later : redis.now w ≤ redis.now w'
    pub keeps :
        (i : Text)
        → marked state.redis redis state.dedup i w ≡ true
        → redis.expiry w' (dedup_key i) ≡ redis.expiry w (dedup_key i)

  after_call : Result (Option Text) × W → Result Bool × W
  after_call r = continue r (λ o v. (ok (is_some o), v))

  after_call-world : (r : Result (Option Text) × W) → (after_call r).1 ≡ r.1
  unfolding after_call
  after_call-world (ok o, v) = refl
  after_call-world (err e, v) = refl

  is_new-same :
      (id : Text) (w : W) → laws.sent (is_new state.redis state.dedup id w).1 ≡ laws.sent w
  unfolding is_new after_call
  is_new-same id w = elim (Bool-cases (byte_len id == 0 || ltb 512 (byte_len id))) [
    | inl refused ↦ rw (refused, is_new) refl
    | inr asked ↦
        rw (asked, is_new)
          (rw (after_call-world (state.redis.set_nx_ex (dedup_key id) state.dedup.ttl_secs w))
            (laws.set_nx_ex (dedup_key id) state.dedup.ttl_secs w))
  ]

  pub is_new-Asks : (id : Text) (w : W) → Asks id w (is_new state.redis state.dedup id w).1
  is_new-Asks id w =
      let (later, keeps) = is_new-keeps state.redis redis state.dedup id w in
      record { same = is_new-same id w; later = later; keeps = keeps }
