-- ===== src/Intake/Effects.antt =====
-- What one call of `handle_event` of src/receiver.rs or of `process_frame` of src/tcp_listener.rs does
-- to the services.

use realtime_ingestion.Base.{
  ℕ, ◌≤◌, ◌≡◌, inl, inr, refl, sym, ap, Bool, true, false, Option, none, some, Bytes, Option-cases,
  arith,
}
use realtime_ingestion.Text.{Text}
use realtime_ingestion.Models.{IncomingEvent, QueueMessage}
use realtime_ingestion.External.{Result, ok, err, RedisLaws}
use realtime_ingestion.Dedup.{is_new}
use realtime_ingestion.Parser.{parse_frame, as_i64}
use realtime_ingestion.Receiver.{
  AppState, validate_event, to_message, enqueue, after_dedup, handle_event,
}
use realtime_ingestion.Tcp.Process.{deliver, process_message, process_frame}
use realtime_ingestion.Intake.{PublishLaws}
use realtime_ingestion.Intake.Sends.{Sends, publish-Sends, Quiet-refl, is_new-Asks}

module _ {W C Json : Type 0} (state : AppState W C Json) (redis : RedisLaws state.redis)
    (laws : PublishLaws state redis) where
  abbrev pub asked : Text → W → Result Bool × W
  asked id w = is_new state.redis state.dedup id w

  -- What one call of a handler does: nothing, or a call of `is_new`, behind which at most a message
  -- of an event that was found new is sent.
  pub data Effect (w w' : W) : Type 0 where
    nothing : w' ≡ w → Effect w w'
    not_new : (id : Text) → w' ≡ (asked id w).1 → Effect w w'
    is_sent :
        (id : Text) (v : W)
        → asked id w ≡ (ok true, v)
        → ((i : Text) → Sends state redis laws i id v w')
        → Effect w w'

  deliver-Effect :
      (m : QueueMessage Json) (w : W) (r : Result Bool × W)
      → asked m.id w ≡ r
      → Effect w (deliver state m r)
  unfolding deliver
  deliver-Effect m w (ok true, v) e = is_sent m.id v e (λ i. publish-Sends state redis laws i m v)
  deliver-Effect m w (ok false, v) e = not_new m.id (ap (λ (r : Result Bool × W). r.1) (sym e))
  deliver-Effect m w (err x, v) e = not_new m.id (ap (λ (r : Result Bool × W). r.1) (sym e))

  message-Effect :
      (frame : Bytes) (w : W) (r : Result (QueueMessage Json))
      → Effect w (process_message state frame r w).1
  unfolding process_message
  message-Effect frame w (err e) = nothing refl
  message-Effect frame w (ok m) = deliver-Effect m w (asked m.id w) refl

  pub process_frame-Effect : (frame : Bytes) (w : W) → Effect w (process_frame state frame w).1
  unfolding process_frame
  process_frame-Effect frame w =
      message-Effect frame w (parse_frame state.euc_kr state.clock state.json frame w)

  enqueue-Sends :
      (i : Text) (event : IncomingEvent Json) (now : Option ℕ) (w : W)
      → Sends state redis laws i event.id w (enqueue state event now w).1
  unfolding enqueue to_message
  enqueue-Sends i event none w = record {
    quiet = Quiet-refl state redis laws w;
    number_le = omega arith;
  }
  enqueue-Sends i event (some now) w =
      publish-Sends state redis laws i (to_message event (as_i64 now)) w

  after_dedup-Effect :
      (event : IncomingEvent Json) (w : W) (r : Result Bool × W)
      → asked event.id w ≡ r
      → Effect w (after_dedup state event r).1
  unfolding after_dedup
  after_dedup-Effect event w (ok true, v) e =
      is_sent event.id v e (λ i. enqueue-Sends i event (state.clock.since_epoch v) v)
  after_dedup-Effect event w (ok false, v) e =
      not_new event.id (ap (λ (r : Result Bool × W). r.1) (sym e))
  after_dedup-Effect event w (err x, v) e =
      not_new event.id (ap (λ (r : Result Bool × W). r.1) (sym e))

  pub handle_event-Effect :
      (event : IncomingEvent Json) (w : W) → Effect w (handle_event state event w).1
  unfolding handle_event
  handle_event-Effect event w = elim (Option-cases (validate_event event)) [
    | inl passes ↦ rw (passes, handle_event) (after_dedup-Effect event w (asked event.id w) refl)
    | inr (r, refuses) ↦ rw (refuses, handle_event) (nothing refl)
  ]

  pub Effect-later : (w w' : W) → Effect w w' → redis.now w ≤ redis.now w'
  Effect-later w w' (nothing e) = omega (arith, ap redis.now e)
  Effect-later w w' (not_new id e) =
      let a = is_new-Asks state redis laws id w in omega (arith, ap redis.now e, a.later)
  Effect-later w w' (is_sent id v e sends) =
      let a = is_new-Asks state redis laws id w in
      let s = sends id in
      omega (arith, s.quiet.later, a.later, ap (λ (r : Result Bool × W). redis.now r.1) e)
