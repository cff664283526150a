-- ===== src/Receiver/Handler.antt =====
-- What the answers of `handle_event`, src/receiver.rs, say.
use realtime_ingestion.Base.{
  ℕ, ◌↔◌, ◌∙◌, sym, ap, subst, ◌+◌, ◌*◌, ◌<◌, List, ℕ, ◌≡◌, refl, ap₂, Bool, true, false, Option,
  none, some, arith, inl, inr, Option-cases,
}
use realtime_ingestion.Models.{IncomingEvent}
use realtime_ingestion.External.{RedisLaws, Result, ok, err}
use realtime_ingestion.Dedup.{is_new}
use realtime_ingestion.Dedup.Window.{Calls, is_new_again}
use realtime_ingestion.Text.{Text}
use realtime_ingestion.Producer.{publish}
use realtime_ingestion.Parser.{as_i64}
use realtime_ingestion.Receiver.{
  AppState, Response, accepted, conflict, unprocessable_entity, validate_event, to_message,
  published, enqueue, after_dedup, handle_event,
}
use realtime_ingestion.Receiver.Validation.{IsValid, validate_event-IsValid}

-- The status code of a response; 0 stands for none.
abbrev pub code_of : {W : Type 0} → Option Response × W → ℕ
code_of (none, w) = 0
code_of (some r, w) = r.code

validate_event-code :
    {Json : Type 0} (event : IncomingEvent Json) {r : Response}
    → validate_event event ≡ some r
    → r.code ≡ unprocessable_entity
unfolding validate_event
validate_event-code event e = ground arith

module _ {W C Json : Type 0} (state : AppState W C Json) (event : IncomingEvent Json) where
  abbrev asked : W → Result Bool × W
  asked w = is_new state.redis state.dedup event.id w

  -- An invalid event gets 422 and touches nothing.
  pub handle_event_invalid :
      (w : W)
      → ¬ IsValid event
      → (code_of (handle_event state event w) ≡ unprocessable_entity)
        × ((handle_event state event w).1 ≡ w)
  unfolding handle_event
  handle_event_invalid w bad = elim (Option-cases (validate_event event)) [
    | inl passes ↦ absurd (bad ((validate_event-IsValid event).0 passes))
    | inr (r, refuses) ↦ rw (refuses, handle_event) (validate_event-code event refuses, refl)
  ]

  pub handle_event_valid :
      (w : W) → IsValid event → handle_event state event w ≡ after_dedup state event (asked w)
  unfolding handle_event
  handle_event_valid w v = rw ((validate_event-IsValid event).1 v, handle_event)

  -- The event was new, and publishing its message returned `Ok`.
  pub record Queued (w w' : W) : Type 0 where
    pub marked_world : W
    pub now : ℕ
    pub new : asked w ≡ (ok true, marked_world)
    pub clock : state.clock.since_epoch marked_world ≡ some now
    pub sent :
        publish state.amqp state.json state.producer (to_message event (as_i64 now)) marked_world
        ≡ (ok tt, w')

  published-accepted : (r : Result (Unit {0})) → (published event r).code ≡ accepted → r ≡ ok tt
  unfolding published
  published-accepted (ok tt) e = refl
  published-accepted (err x) e = absurd (omega arith)

  enqueue-accepted :
      (w : W) (o : Option ℕ)
      → code_of (enqueue state event o w) ≡ accepted
      → (now : ℕ) × (o ≡ some now)
        × (publish state.amqp state.json state.producer (to_message event (as_i64 now)) w
            ≡ (ok tt, (enqueue state event o w).1))
  unfolding enqueue
  enqueue-accepted w none e = absurd (omega arith)
  enqueue-accepted w (some now) e =
      (now, refl, ap₂ (λ (r : Result (Unit {0})) (v : W). (r, v)) (published-accepted _ e) refl)

  after_dedup-accepted :
      (w : W) (r : Result Bool × W)
      → asked w ≡ r
      → code_of (after_dedup state event r) ≡ accepted
      → Queued w (after_dedup state event r).1
  unfolding after_dedup
  after_dedup-accepted w (ok true, v) q e =
      let (now, clock, sent) = enqueue-accepted v (state.clock.since_epoch v) e in
      record { marked_world = v; now = now; new = q; clock = clock; sent = sent }
  after_dedup-accepted w (ok false, v) q e = absurd (omega arith)
  after_dedup-accepted w (err x, v) q e = absurd (omega arith)

  Queued-accepted :
      (w w' : W)
      → Queued w w'
      → after_dedup state event (asked w) ≡ (some (published event (ok tt)), w')
  unfolding after_dedup enqueue
  Queued-accepted w w' q = rw (q.new, q.clock, q.sent)

  handle_event_refused :
      (w : W) (r : Response)
      → validate_event event ≡ some r
      → handle_event state event w ≡ (some r, w)
  unfolding handle_event
  handle_event_refused w r q = rw (q, handle_event)

  accepted-Queued :
      (w : W)
      → code_of (handle_event state event w) ≡ accepted
      → IsValid event × Queued w (handle_event state event w).1
  accepted-Queued w e = elim (Option-cases (validate_event event)) [
    | inl passes ↦
        let v = (validate_event-IsValid event).0 passes in
        let step = handle_event_valid w v in
        (
          v,
          subst (λ (r : Option Response × W). Queued w r.1) (sym step)
              (after_dedup-accepted w (asked w) refl (ap code_of (sym step) ∙ e)),
        )
    | inr (r, refuses) ↦ absurd (
        omega (
          arith,
          e,
          validate_event-code event refuses,
          ap code_of (handle_event_refused w r refuses),
        ))
  ]

  -- The answer is 202 exactly if the event is valid, was new, and publishing its message with the
  -- time of the clock returned `Ok`.
  pub handle_event-accepted_iff :
      (w : W)
      → (code_of (handle_event state event w) ≡ accepted)
        ↔ (IsValid event × Queued w (handle_event state event w).1)
  unfolding published
  handle_event-accepted_iff w =
      (accepted-Queued w, λ (v, q). ap code_of (handle_event_valid w v ∙ Queued-accepted w _ q))

module _ {W C Json : Type 0} (state : AppState W C Json) (laws : RedisLaws state.redis) where
  -- Once an event was found new, a retry that Redis answers before the time to live is over gets
  -- 409 and publishes nothing, whatever became of the first: also if it could not be published.
  pub handle_event_retry :
      (event : IncomingEvent Json) (w : W) {w' v u : W} {cs : List (Text × Result Bool)} (b : Bool)
      → IsValid event
      → is_new state.redis state.dedup event.id w ≡ (ok true, w')
      → Calls state.redis laws state.dedup w' cs v
      → is_new state.redis state.dedup event.id v ≡ (ok b, u)
      → laws.now u < laws.now w + 1000 * state.dedup.ttl_secs
      → (code_of (handle_event state event v) ≡ conflict) × ((handle_event state event v).1 ≡ u)
  unfolding after_dedup
  handle_event_retry event w {v = v} {u = u} b valid first calls second h =
      let known = is_new_again state.redis laws state.dedup event.id w b first calls second h in
      let full =
        handle_event_valid state event v valid
        ∙ ap (after_dedup state event)
            (second ∙ ap {B = Result Bool × W} (λ (c : Bool). (ok c, u)) known) in
      (ap code_of full, ap (λ (r : Option Response × W). r.1) full)
