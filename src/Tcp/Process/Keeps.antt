-- ===== src/Tcp/Process/Keeps.antt =====
-- What `process_frame` of src/tcp_listener.rs leaves alone: all that Redis and the AMQP channel do.
use realtime_ingestion.Base.{
  ℕ, ◌≡◌, refl, ◌∙◌, Bool, true, false, ◌||◌, Option, [], Bytes, is_some, ◌==◌, ltb, inl, inr,
  Bool-cases,
}
use realtime_ingestion.Text.{Text, codes, byte_len}
use realtime_ingestion.Models.{QueueMessage}
use realtime_ingestion.External.{Result, ok, err, continue}
use realtime_ingestion.Dedup.{dedup_key, is_new}
use realtime_ingestion.Producer.{publish, persistent}
use realtime_ingestion.Parser.{parse_frame}
use realtime_ingestion.Receiver.{AppState}
use realtime_ingestion.Tcp.Process.{deliver, process_message, process_frame}

module _ {W C Json X : Type 0} (state : AppState W C Json) (part : W → X) where
  -- The services leave this part of the world alone.
  pub record ServicesKeep : Type 0 where
    pub set_nx_ex : (k : Text) (ttl : ℕ) (w : W) → part (state.redis.set_nx_ex k ttl w).1 ≡ part w
    pub basic_publish :
        (exchange key kind : Text) (mode : ℕ) (body : Bytes) (w : W)
        → part (state.amqp.basic_publish exchange key kind mode body w).1 ≡ part w
    pub confirmation : (tag : ℕ) (w : W) → part (state.amqp.confirmation tag w).1 ≡ part w

  module _ (keep : ServicesKeep) where
    answered : (r : Result (Option Text) × W) → (continue r (λ o v. (ok (is_some o), v))).1 ≡ r.1
    answered (ok o, v) = refl
    answered (err e, v) = refl

    is_new-keeps : (id : Text) (w : W) → part (is_new state.redis state.dedup id w).1 ≡ part w
    unfolding is_new
    is_new-keeps id w = elim (Bool-cases (byte_len id == 0 || ltb 512 (byte_len id))) [
      | inl refused ↦ rw (refused, is_new) refl
      | inr asked ↦
          let key = dedup_key id in
          rw (asked, is_new)
            (rw (answered (state.redis.set_nx_ex key state.dedup.ttl_secs w))
              (keep.set_nx_ex key state.dedup.ttl_secs w))
    ]

    ignored : (q : Result C × W) → (continue q (λ c v. (ok tt, v))).1 ≡ q.1
    ignored (ok c, v) = refl
    ignored (err e, v) = refl

    confirmed :
        (r : Result ℕ × W)
        → part
            (continue r
              (λ tag w. continue (state.amqp.confirmation tag w) (λ confirmation v. (ok tt, v)))).1
          ≡ part r.1
    confirmed (err e, v) = refl
    confirmed (ok tag, v) = rw (ignored (state.amqp.confirmation tag v)) (keep.confirmation tag v)

    publish-keeps :
        (m : QueueMessage Json) (w : W)
        → part (publish state.amqp state.json state.producer m w).1 ≡ part w
    unfolding publish
    publish-keeps m w = behind (state.json.to_vec m)
      where
        behind :
            (r : Result Bytes)
            → part
                (continue
                  (r, w)
                  (λ body v.
                    continue
                      (state.amqp.basic_publish state.producer.exchange []
                        (codes "application/json")
                        persistent
                        body
                        v)
                      (λ tag u.
                        continue (state.amqp.confirmation tag u) (λ confirmation x. (ok tt, x))))).1
              ≡ part w
        behind (err e) = refl
        behind (ok body) =
            confirmed (
              state.amqp.basic_publish state.producer.exchange [] (codes "application/json")
                persistent body w)
            ∙ keep.basic_publish _ _ _ _ body w

    deliver-keeps :
        (m : QueueMessage Json) (r : Result Bool × W) → part (deliver state m r) ≡ part r.1
    unfolding deliver
    deliver-keeps m (ok true, w) = publish-keeps m w
    deliver-keeps m (ok false, w) = refl
    deliver-keeps m (err e, w) = refl

    message-keeps :
        (frame : Bytes) (r : Result (QueueMessage Json)) (w : W)
        → part (process_message state frame r w).1 ≡ part w
    unfolding process_message
    message-keeps frame (err e) w = refl
    message-keeps frame (ok m) w =
        deliver-keeps m (is_new state.redis state.dedup m.id w) ∙ is_new-keeps m.id w

    pub process_frame-keeps :
        (frame : Bytes) (w : W) → part (process_frame state frame w).1 ≡ part w
    unfolding process_frame
    process_frame-keeps frame w =
        message-keeps frame (parse_frame state.euc_kr state.clock state.json frame w) w
