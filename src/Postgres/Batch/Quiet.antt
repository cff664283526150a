-- ===== src/Postgres/Batch/Quiet.antt =====
-- The loop of src/consumer/postgres.rs while the channel is open and no message makes a panic.
use realtime_ingestion.Base.{
  ℕ, ◌<◌, ◌≡◌, refl, sym, ap, ◌∙◌, subst, Option, none, some, List, [], ◌∷◌, ◌++◌, append_assoc,
  length, length-append, is_empty, All, leb, inl, inr, Bool-cases, arith, nil_of_length,
  nil_of_empty, not_leb→lt,
}
use mathlib.Core.List.{Permᴰ}
use mathlib.Core.List.Permᴰ
use realtime_ingestion.Models.{QueueMessage}
use realtime_ingestion.External.{Result, ok, err, JsonLib}
use realtime_ingestion.Consumer.{
  Channel, HashOrder, Event, closed, channel_error, tick, delivered, Stop,
}
use realtime_ingestion.Consumer.Arrived.{arrived, arrived-cons, exchange}
use realtime_ingestion.Postgres.Row.{DailyRow, Chrono}
use realtime_ingestion.Postgres.Row.Returns.{HasAsciiTime}
use realtime_ingestion.Postgres.Totals.{AggKey}
use realtime_ingestion.Postgres.Batch.{
  PgPool, Batch, and_then, flushed, flush_if_full, store, step, run,
}
use realtime_ingestion.Postgres.Batch.Settle.{SettleLaws, flush-settles_once}

module _ {W D Json Date Time Offset : Type 0} (json : JsonLib Json)
    (chrono : Chrono Date Time Offset) (channel : Channel W D) where
  -- The timer, or a delivery: one that is no message, or a message with its time in ASCII.
  abbrev pub IsQuiet : Event D → Type 0
  IsQuiet tick = Unit
  IsQuiet (delivered d) =
      (msg : QueueMessage Json)
      → json.from_slice (channel.payload d) ≡ ok msg
      → HasAsciiTime chrono json msg
  IsQuiet closed = ⊥
  IsQuiet channel_error = ⊥

  -- The two vectors belong together, are shorter than a full batch, and make no panic.
  pub record IsFilling (batch_size : ℕ) (b : Batch W D Json) : Type 0 where
    pub paired : length b.deliveries ≡ length b.messages
    pub short : length b.messages < batch_size
    pub readable : All (HasAsciiTime chrono json) b.messages

All-append :
    {A : Type 0} (P : A → Type 0) (xs : List A) (x : A) → All P xs → P x → All P (xs ++ x ∷ [])
All-append P [] x h p = (p, tt)
All-append P (y ∷ xs) x h p = (h.0, All-append P xs x h.1 p)

module _ {W D Json Date Time Offset : Type 0} (json : JsonLib Json)
    (chrono : Chrono Date Time Offset) (channel : Channel W D) (pool : PgPool W)
    (order : HashOrder (AggKey × DailyRow)) (laws : SettleLaws channel pool) where
  abbrev pub known : Batch W D Json → List D
  known b = b.deliveries ++ laws.broker.settled b.world

  -- The loop goes on, and these deliveries became known.
  record GoesOn (n : ℕ) (ds : List D) (b : Batch W D Json) (r : Option Stop × Batch W D Json)
      : Type 0 where
    on : r.0 ≡ none
    filling : IsFilling json chrono channel n r.1
    balance : Permᴰ (known r.1) (ds ++ known b)

  -- The loop goes on with an empty batch, and what it had or got is settled.
  pub record AllSettled (ds : List D) (b : Batch W D Json) (r : Option Stop × Batch W D Json)
      : Type 0 where
    pub goes_on : r.0 ≡ none
    pub none_left : r.1.deliveries ≡ []
    pub no_messages : r.1.messages ≡ []
    pub settled : Permᴰ (laws.broker.settled r.1.world) (ds ++ known b)

  flushed-AllSettled :
      (b : Batch W D Json)
      → length b.deliveries ≡ length b.messages
      → All (HasAsciiTime chrono json) b.messages
      → AllSettled [] b (flushed json chrono channel pool order b)
  unfolding flushed
  flushed-AllSettled b e a =
      let (returns, all_settled) =
        flush-settles_once json chrono channel pool order laws b.deliveries b.messages b.world e
          a in
      record { goes_on = returns; none_left = refl; no_messages = refl; settled = all_settled }

  AllSettled-GoesOn :
      (n : ℕ) (b : Batch W D Json) (r : Option Stop × Batch W D Json)
      → 0 < n
      → AllSettled [] b r
      → GoesOn n [] b r
  AllSettled-GoesOn n b r h s = record {
    on = s.goes_on;
    filling = record {
      paired = ap length s.none_left ∙ sym (ap length s.no_messages);
      short = subst (λ ms. length ms < n) (sym s.no_messages) h;
      readable = subst (All (HasAsciiTime chrono json)) (sym s.no_messages) tt;
    };
    balance =
        subst (λ ds. Permᴰ (ds ++ laws.broker.settled r.1.world) (known b)) (sym s.none_left)
          s.settled;
  }

  flush_if_full-GoesOn :
      (n : ℕ) (b : Batch W D Json)
      → 0 < n
      → length b.deliveries ≡ length b.messages
      → All (HasAsciiTime chrono json) b.messages
      → GoesOn n [] b (flush_if_full json chrono channel pool order n b)
  unfolding flush_if_full
  flush_if_full-GoesOn n b h e a = elim (Bool-cases (leb n (length b.messages))) [
    | inl full ↦ rw full (AllSettled-GoesOn n b _ h (flushed-AllSettled b e a))
    | inr more ↦ rw more (record {
      on = refl;
      filling = record { paired = e; short = not_leb→lt n (length b.messages) more; readable = a };
      balance = Permᴰ.refl (known b);
    })
  ]

  -- A delivery behind its `match`: rejected, or in the batch.
  record Stored (d : D) (b b' : Batch W D Json) : Type 0 where
    paired : length b'.deliveries ≡ length b'.messages
    readable : All (HasAsciiTime chrono json) b'.messages
    balance : Permᴰ (known b') (d ∷ known b)

  store-Stored :
      (n : ℕ) (d : D) (b : Batch W D Json) (r : Result (QueueMessage Json))
      → IsFilling json chrono channel n b
      → ((msg : QueueMessage Json) → r ≡ ok msg → HasAsciiTime chrono json msg)
      → Stored d b (store json chrono channel pool order d r b)
  unfolding store
  store-Stored n d b (err e) i h = record {
    paired = i.paired;
    readable = i.readable;
    balance =
        rw (laws.broker.nack d b.world) (Permᴰ.middle d b.deliveries (laws.broker.settled b.world));
  }
  store-Stored n d b (ok msg) i h = record {
    paired =
        omega (
          arith,
          i.paired,
          length-append b.deliveries (d ∷ []),
          length-append b.messages (msg ∷ []),
        );
    readable = All-append (HasAsciiTime chrono json) b.messages msg i.readable (h msg refl);
    balance =
        rw (append_assoc b.deliveries (d ∷ []) (laws.broker.settled b.world))
          (Permᴰ.middle d b.deliveries (laws.broker.settled b.world));
  }

  timer-AllSettled :
      (n : ℕ) (b : Batch W D Json)
      → IsFilling json chrono channel n b
      → AllSettled [] b (step json chrono channel pool order n tick b)
  unfolding step
  timer-AllSettled n b i = elim (Bool-cases (is_empty b.messages)) [
    | inl empty ↦
        let no_messages = nil_of_empty b.messages empty in
        let no_deliveries = nil_of_length b.deliveries (i.paired ∙ ap length no_messages) in
        rw empty (record {
          goes_on = refl;
          none_left = no_deliveries;
          no_messages = no_messages;
          settled =
              subst (λ ds. Permᴰ (laws.broker.settled b.world) (ds ++ laws.broker.settled b.world))
                (sym no_deliveries) (Permᴰ.refl (laws.broker.settled b.world));
        })
    | inr filled ↦ rw filled (flushed-AllSettled b i.paired i.readable)
  ]

  step-GoesOn :
      (n : ℕ) (e : Event D) (b : Batch W D Json)
      → 0 < n
      → IsFilling json chrono channel n b
      → IsQuiet json chrono channel e
      → GoesOn n (arrived (e ∷ [])) b (step json chrono channel pool order n e b)
  unfolding step
  step-GoesOn n closed b h i q = absurd q
  step-GoesOn n channel_error b h i q = absurd q
  step-GoesOn n tick b h i q =
      unfold step in
      AllSettled-GoesOn n b (step json chrono channel pool order n tick b) h
        (timer-AllSettled n b i)
  step-GoesOn n (delivered d) b h i q =
      let b' = store json chrono channel pool order d (json.from_slice (channel.payload d)) b in
      let s = store-Stored n d b (json.from_slice (channel.payload d)) i q in
      let f = flush_if_full-GoesOn n b' h s.paired s.readable in
      record { on = f.on; filling = f.filling; balance = Permᴰ.trans f.balance s.balance }

  and_then-on :
      (again : Batch W D Json → Option Stop × Batch W D Json) (r : Option Stop × Batch W D Json)
      → r.0 ≡ none
      → and_then again r (λ x. x) ≡ again r.1
  and_then-on again (none, b) h = refl
  and_then-on again (some s, b) h = absurd (cc h)

  -- While the channel is open, and the messages have their times in ASCII, the loop does not stop,
  -- and its next timer leaves the batch empty: each delivery that came, or was in the batch, is then
  -- acknowledged or rejected once, besides those settled before. This holds for a batch size above
  -- 0, a batch at the start that is shorter and has a message, with its time in ASCII, for each
  -- delivery, and a broker whose record changes only by `ack` and `nack`; the database may answer
  -- with errors.
  pub run-settles_all :
      (n : ℕ) (es : List (Event D)) (b : Batch W D Json)
      → 0 < n
      → IsFilling json chrono channel n b
      → All (IsQuiet json chrono channel) es
      → AllSettled (arrived es) b (run json chrono channel pool order n (es ++ tick ∷ []) b)
  unfolding run
  run-settles_all n [] b h i q =
      let r = step json chrono channel pool order n tick b in
      let settled_now = timer-AllSettled n b i in
      subst (AllSettled [] b)
        (ap (λ (o : Option Stop). (o, r.1)) settled_now.goes_on
          ∙ sym (and_then-on (run json chrono channel pool order n []) r settled_now.goes_on))
        settled_now
  run-settles_all n (e ∷ es) b h i q =
      let r = step json chrono channel pool order n e b in
      let s = step-GoesOn n e b h i q.0 in
      let rest = run-settles_all n es r.1 h s.filling q.1 in
      subst (AllSettled (arrived (e ∷ es)) b)
        (sym (and_then-on (run json chrono channel pool order n (es ++ tick ∷ [])) r s.on))
        (record {
          goes_on = rest.goes_on;
          none_left = rest.none_left;
          no_messages = rest.no_messages;
          settled = Permᴰ.trans rest.settled (
              Permᴰ.trans (Permᴰ.append_left (arrived es) s.balance) (
                rw (arrived-cons e es (known b))
                  (exchange (arrived es) (arrived (e ∷ [])) (known b))));
        })
