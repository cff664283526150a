-- ===== src/Intake/Frame.antt =====
-- What one frame of a terminal, `process_frame` of src/tcp_listener.rs, does to Redis and the queue.
use mathlib.Core.Bool.{false≢true}
use realtime_ingestion.Base.{
  arith, ◌+◌, ◌*◌, ◌≤◌, ◌≡◌, ◌≢◌, refl, sym, ap, ◌∙◌, subst, Bool, true, false, some, Bytes, length,
  inl, inr, Bool-cases, le→not_ltb,
}
use realtime_ingestion.Text.{Text}
use realtime_ingestion.Models.{QueueMessage}
use realtime_ingestion.External.{Result, ok, err, Error, RedisLaws}
use realtime_ingestion.Dedup.{dedup_key, is_new}
use realtime_ingestion.Dedup.Window.{marked, is_new_lem}
use realtime_ingestion.Parser.{field, parse_frame}
use realtime_ingestion.Producer.{publish}
use realtime_ingestion.Receiver.{AppState}
use realtime_ingestion.Tcp.Process.{deliver, process_message, process_frame}
use realtime_ingestion.Tcp.Process.Laws.{message_of}
use realtime_ingestion.Intake.{is_id, PublishLaws}
use realtime_ingestion.Intake.Sends.{how_many, same_number, publish-Sends, Asks, is_new-Asks}

module _ {W C Json : Type 0} (state : AppState W C Json) (redis : RedisLaws state.redis)
    (laws : PublishLaws state redis) where
  -- The id of the event, at its offset in the frame.
  abbrev pub event_of : Bytes → Text
  event_of frame = field state.euc_kr frame 12 12

  abbrev is_there : Bytes → W → Bool
  is_there frame w = marked state.redis redis state.dedup (event_of frame) w

  -- What became of the event of a frame: it was known, and nothing changed; or it was new, and is
  -- marked for the time to live, and at most one message was sent, of this event; or the duplicate
  -- check returned an error, and nothing was sent and every mark that was there stays.
  pub data Delivered (frame : Bytes) (w w' : W) : Type 0 where
    known :
        is_there frame w ≡ true
        → laws.sent w' ≡ laws.sent w
        → ((k : Text) → redis.expiry w' k ≡ redis.expiry w k)
        → Delivered frame w w'
    fresh :
        (m : QueueMessage Json) (v : W)
        → is_there frame w ≡ false
        → message_of state frame w ≡ ok m
        → w' ≡ (publish state.amqp state.json state.producer m v).1
        → redis.expiry w' (dedup_key (event_of frame))
          ≡ some (redis.now w + 1000 * state.dedup.ttl_secs)
        → ((k : Text) → k ≢ dedup_key (event_of frame) → redis.expiry w' k ≡ redis.expiry w k)
        → ((i : Text)
            → how_many state redis laws i w'
              ≤ how_many state redis laws i w + is_id i (some (event_of frame)))
        → Delivered frame w w'
    unanswered :
        (x : Error) (v : W)
        → is_new state.redis state.dedup (event_of frame) w ≡ (err x, v)
        → laws.sent w' ≡ laws.sent w
        → ((i : Text)
            → marked state.redis redis state.dedup i w ≡ true
            → redis.expiry w' (dedup_key i) ≡ redis.expiry w (dedup_key i))
        → Delivered frame w w'

  message_read :
      (frame : Bytes) (w : W)
      → 153 ≤ length frame
      → (m : QueueMessage Json) × (message_of state frame w ≡ ok m) × (m.id ≡ event_of frame)
  unfolding parse_frame
  message_read frame w long = rw (le→not_ltb (length frame) 153 long, parse_frame) (_, refl, refl)

  asks :
      (frame : Bytes) (w : W) (r : Result Bool × W)
      → is_new state.redis state.dedup (event_of frame) w ≡ r
      → Asks state redis laws (event_of frame) w r.1
  asks frame w r e =
      subst (λ (x : Result Bool × W). Asks state redis laws (event_of frame) w x.1) e
        (is_new-Asks state redis laws (event_of frame) w)

  deliver-Delivered :
      (frame : Bytes) (w : W) (m : QueueMessage Json) (r : Result Bool × W)
      → message_of state frame w ≡ ok m
      → m.id ≡ event_of frame
      → is_new state.redis state.dedup (event_of frame) w ≡ r
      → Delivered frame w (deliver state m r)
  unfolding deliver
  deliver-Delivered frame w m (err x, v) read own e =
      let a = asks frame w (err x, v) e in unanswered x v e a.same a.keeps
  deliver-Delivered frame w m (ok false, v) read own e =
      let (when_marked, when_not) = is_new_lem state.redis redis state.dedup _ w v false e in
      elim (Bool-cases (is_there frame w)) [
        | inl there ↦ known there (asks frame w (ok false, v) e).same (when_marked there).1
        | inr absent ↦ absurd (false≢true (when_not absent).0)
      ]
  deliver-Delivered frame w m (ok true, v) read own e =
      let (when_marked, when_not) = is_new_lem state.redis redis state.dedup _ w v true e in
      elim (Bool-cases (is_there frame w)) [
        | inl there ↦ absurd (false≢true (sym (when_marked there).0))
        | inr absent ↦
            let (said, mark, others) = when_not absent in
            let quiet = (publish-Sends state redis laws (event_of frame) m v).quiet in
            fresh m v absent read refl (quiet.marks (dedup_key (event_of frame)) ∙ mark)
              (λ k ne. quiet.marks k ∙ others k ne)
              (λ i. omega (
                arith,
                (publish-Sends state redis laws i m v).number_le,
                same_number state redis laws i w v (asks frame w (ok true, v) e).same,
                ap (λ j. is_id i (some j)) own,
              ))
      ]

  -- A frame of 153 bytes or more does one of three things, whatever Redis and the broker do. Its
  -- event was marked, and no mark changes and nothing is sent; or it was not, and it is marked for
  -- the time to live, no other mark changes, the message of the frame is published, and at most one
  -- message is sent, of this event; or the duplicate check returns an error, and nothing is sent,
  -- and every mark that was there stays. This holds for services that keep their marks and their
  -- queues apart.
  pub process_frame-Delivered :
      (frame : Bytes) (w : W)
      → 153 ≤ length frame
      → Delivered frame w (process_frame state frame w).1
  unfolding process_frame process_message
  process_frame-Delivered frame w long =
      let (m, read, own) = message_read frame w long in
      rw (read, own) (deliver-Delivered frame w m _ read own refl)
