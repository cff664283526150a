-- ===== src/Intake/Once.antt =====
-- An event is published once within its time to live, whether it comes by `handle_event` of
-- src/receiver.rs or by `process_frame` of src/tcp_listener.rs.
use mathlib.Core.Bool.{false≢true}
use realtime_ingestion.Base.{
  ℕ, ◌+◌, ◌*◌, ◌≤◌, ◌<◌, ◌≡◌, ◌⊎◌, inl, inr, sym, ap, ◌∙◌, subst, Bool, true, false, some,
  Bool-cases, arith,
}
use realtime_ingestion.Text.{Text, text_eq}
use realtime_ingestion.Text.Laws.{text_eq_iff, text_eq_refl}
use realtime_ingestion.External.{Result, ok, RedisLaws}
use realtime_ingestion.Dedup.{dedup_key}
use realtime_ingestion.Dedup.Window.{marked, is_marked, is_new_lem}
use realtime_ingestion.Receiver.{AppState}
use realtime_ingestion.Intake.{is_id, PublishLaws, count, Served, done, on_event, on_frame, wait}
use realtime_ingestion.Intake.Sends.{how_many, Sends, same_number, is_new-Asks}
use realtime_ingestion.Intake.Effects.{
  asked, Effect, nothing, not_new, is_sent, process_frame-Effect, handle_event-Effect, Effect-later,
}

module _ {W C Json : Type 0} (state : AppState W C Json) (redis : RedisLaws state.redis)
    (laws : PublishLaws state redis) where
  module _ (i : Text) (n deadline : ℕ) where
    -- One message more than `n` was sent, and the event is marked until the deadline.
    record IsTold (w : W) : Type 0 where
      until : ℕ
      mark : redis.expiry w (dedup_key i) ≡ some until
      late : deadline ≤ until
      number_le : how_many state redis laws i w ≤ n + 1

    -- No more than `n` messages were sent, or one more.
    abbrev IsOnce : W → Type 0
    IsOnce w = (how_many state redis laws i w ≤ n) ⊎ IsTold w

    IsTold-marked :
        (w : W)
        → IsTold w
        → redis.now w < deadline
        → marked state.redis redis state.dedup i w ≡ true
    IsTold-marked w t h =
        is_marked state.redis redis state.dedup i w t.until t.mark (omega (arith, t.late))

    kept :
        (id : Text) (w : W)
        → redis.now (asked state redis laws id w).1 < deadline
        → IsOnce w
        → IsOnce (asked state redis laws id w).1
    kept id w h (inl few) =
        let a = is_new-Asks state redis laws id w in
        inl (omega (arith, same_number state redis laws i w (asked state redis laws id w).1 a.same))
    kept id w h (inr t) =
        let a = is_new-Asks state redis laws id w in
        inr (record {
          until = t.until;
          mark = a.keeps i (IsTold-marked w t (omega (arith, a.later))) ∙ t.mark;
          late = t.late;
          number_le = omega (
            arith,
            t.number_le,
            same_number state redis laws i w (asked state redis laws id w).1 a.same,
          );
        })

    like : is_id i (some i) ≡ 1
    like = rw (text_eq_refl i)

    unlike : (id : Text) → text_eq id i ≡ false → is_id i (some id) ≡ 0
    unlike id other = rw other

    quiet_after :
        (id : Text) (v w' : W)
        → text_eq id i ≡ false
        → Sends state redis laws i id v w'
        → IsOnce v
        → IsOnce w'
    quiet_after id v w' other s (inl few) = inl (omega (arith, few, s.number_le, unlike id other))
    quiet_after id v w' other s (inr t) = inr (record {
      until = t.until;
      mark = s.quiet.marks (dedup_key i) ∙ t.mark;
      late = t.late;
      number_le = omega (arith, t.number_le, s.number_le, unlike id other);
    })

    is_new-unmarked :
        (w v : W)
        → asked state redis laws i w ≡ (ok true, v)
        → (marked state.redis redis state.dedup i w ≡ false)
          × (redis.expiry v (dedup_key i) ≡ some (redis.now w + 1000 * state.dedup.ttl_secs))
    is_new-unmarked w v e = elim (Bool-cases (marked state.redis redis state.dedup i w)) [
      | inl m ↦
          absurd (false≢true (sym ((is_new_lem state.redis redis state.dedup i w v true e).0 m).0))
      | inr m ↦ (m, ((is_new_lem state.redis redis state.dedup i w v true e).1 m).1)
    ]

    told :
        (w v w' : W)
        → asked state redis laws i w ≡ (ok true, v)
        → Sends state redis laws i i v w'
        → redis.now w' < deadline
        → deadline ≤ redis.now w + 1000 * state.dedup.ttl_secs
        → IsOnce w
        → IsOnce w'
    told w v w' e s h d (inr t) =
        let a = is_new-Asks state redis laws i w in
        let world : (asked state redis laws i w).1 ≡ v = ap (λ (r : Result Bool × W). r.1) e in
        absurd (
          false≢true (
            sym (is_new-unmarked w v e).0
            ∙ IsTold-marked w t (omega (arith, s.quiet.later, a.later, ap redis.now world))))
    told w v w' e s h d (inl few) =
        let a = is_new-Asks state redis laws i w in
        let world : (asked state redis laws i w).1 ≡ v = ap (λ (r : Result Bool × W). r.1) e in
        inr (record {
          until = redis.now w + 1000 * state.dedup.ttl_secs;
          mark = s.quiet.marks (dedup_key i) ∙ (is_new-unmarked w v e).1;
          late = d;
          number_le = omega (
            arith,
            few,
            s.number_le,
            like,
            same_number state redis laws i w v (ap laws.sent (sym world) ∙ a.same),
          );
        })

    Effect-IsOnce :
        (w w' : W)
        → Effect state redis laws w w'
        → redis.now w' < deadline
        → deadline ≤ redis.now w + 1000 * state.dedup.ttl_secs
        → IsOnce w
        → IsOnce w'
    Effect-IsOnce w w' (nothing e) h d o = subst IsOnce (sym e) o
    Effect-IsOnce w w' (not_new id e) h d o =
        subst IsOnce (sym e) (kept id w (subst (λ x. redis.now x < deadline) e h) o)
    Effect-IsOnce w w' (is_sent id v e sends) h d o = elim (Bool-cases (text_eq id i)) [
      | inl same ↦
          let own = (text_eq_iff id i).0 same in
          told w v w' (subst (λ j. asked state redis laws j w ≡ (ok true, v)) own e)
            (subst (λ j. Sends state redis laws i j v w') own (sends i)) h d o
      | inr other ↦
          let world : (asked state redis laws id w).1 ≡ v = ap (λ (r : Result Bool × W). r.1) e in
          let s = sends i in
          quiet_after id v w' other s
            (subst IsOnce world (kept id w (omega (arith, s.quiet.later, ap redis.now world)) o))
    ]

  Served-later : {w v : W} → Served state redis laws w v → redis.now w ≤ redis.now v
  Served-later done = omega arith
  Served-later (on_event {w} event rest) = omega (
    arith,
    Effect-later state redis laws w _ (handle_event-Effect state redis laws event w),
    Served-later rest,
  )
  Served-later (on_frame {w} frame rest) = omega (
    arith,
    Effect-later state redis laws w _ (process_frame-Effect state redis laws frame w),
    Served-later rest,
  )
  Served-later (wait quiet same rest) = omega (arith, quiet.later, Served-later rest)

  Served-IsOnce :
      (i : Text) (n deadline : ℕ) {w v : W}
      → Served state redis laws w v
      → redis.now v < deadline
      → deadline ≤ redis.now w + 1000 * state.dedup.ttl_secs
      → IsOnce i n deadline w
      → IsOnce i n deadline v
  Served-IsOnce i n deadline done h d o = o
  Served-IsOnce i n deadline (on_event {w} event rest) h d o =
      let effect = handle_event-Effect state redis laws event w in
      Served-IsOnce i n deadline rest h (omega (arith, Effect-later state redis laws w _ effect))
        (Effect-IsOnce i n deadline w _ effect (omega (arith, Served-later rest)) d o)
  Served-IsOnce i n deadline (on_frame {w} frame rest) h d o =
      let effect = process_frame-Effect state redis laws frame w in
      Served-IsOnce i n deadline rest h (omega (arith, Effect-later state redis laws w _ effect))
        (Effect-IsOnce i n deadline w _ effect (omega (arith, Served-later rest)) d o)
  Served-IsOnce i n deadline (wait {w} {w'} quiet same rest) h d o =
      Served-IsOnce i n deadline rest h (omega (arith, quiet.later)) (waited o)
    where
      waited : IsOnce i n deadline w → IsOnce i n deadline w'
      waited (inl few) = inl (omega (arith, few, same_number state redis laws i w w' same))
      waited (inr t) = inr (record {
        until = t.until;
        mark = quiet.marks (dedup_key i) ∙ t.mark;
        late = t.late;
        number_le = omega (arith, t.number_le, same_number state redis laws i w w' same);
      })

  -- In any stretch of time shorter than the time to live, at most one message of an event is
  -- published, however events by HTTP and frames by TCP follow one another, and whether Redis and
  -- the broker answer or fail.
  pub Served-once :
      (i : Text) {w v : W}
      → Served state redis laws w v
      → redis.now v < redis.now w + 1000 * state.dedup.ttl_secs
      → count state redis laws i v ≤ count state redis laws i w + 1
  Served-once i {w} {v} calls h = at_end (
      Served-IsOnce i (how_many state redis laws i w) (redis.now w + 1000 * state.dedup.ttl_secs)
        calls h (omega arith) (inl (omega arith)))
    where
      at_end :
          IsOnce i (how_many state redis laws i w) (redis.now w + 1000 * state.dedup.ttl_secs) v
          → how_many state redis laws i v ≤ how_many state redis laws i w + 1
      at_end (inl few) = omega (arith, few)
      at_end (inr t) = omega (arith, t.number_le)
