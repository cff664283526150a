-- ===== src/Mysql/Batch/Quiet.antt =====
-- The loop of src/consumer/mysql.rs while the channel is open and no message makes a panic.
use realtime_ingestion.Base.{
  ℕ, ◌<◌, ◌≡◌, refl, sym, ap, ◌∙◌, subst, Option, none, some, List, [], ◌∷◌, ◌++◌, length, is_empty,
  All, Returns, inl, inr, Bool-cases, nil_of_length, nil_of_empty,
}
use realtime_ingestion.Consumer.Arrived.{arrived, arrived-cons, exchange}
use mathlib.Core.List.{Permᴰ}
use mathlib.Core.List.Permᴰ
use realtime_ingestion.Text.{Text}
use realtime_ingestion.Models.{QueueMessage}
use realtime_ingestion.External.{Result, ok, err, JsonLib}
use realtime_ingestion.Consumer.{
  Channel, HashOrder, Event, closed, channel_error, tick, delivered, Stop,
}
use realtime_ingestion.Mysql.Row.{KiccRow, to_kicc_row}
use realtime_ingestion.Mysql.Row.Returns.{HasAsciiTimes, to_kicc_row-Returns}
use realtime_ingestion.Mysql.Batch.{
  MySqlPool, Batch, store_row, store, after_store, step, after_step, run,
}
use realtime_ingestion.Mysql.Batch.Settle.{SettleLaws}
use realtime_ingestion.Mysql.Batch.Loop.{IsFilling, known, Stepped, flushed-known, step-Stepped}

module _ {W D Json : Type 0} (json : JsonLib Json) (channel : Channel W D) where
  -- The timer, or a delivery: one that is no message, or a message with its date and time in ASCII.
  abbrev pub IsQuiet : Event D → Type 0
  IsQuiet tick = Unit
  IsQuiet (delivered d) =
      (msg : QueueMessage Json)
      → json.from_slice (channel.payload d) ≡ ok msg
      → HasAsciiTimes json msg
  IsQuiet closed = ⊥
  IsQuiet channel_error = ⊥

module _ {W D Json : Type 0} (json : JsonLib Json) (channel : Channel W D) (pool : MySqlPool W)
    (order : HashOrder (Text × List (D × KiccRow))) where
  store-Returns :
      (d : D) (b : Batch W D) (r : Result (QueueMessage Json))
      → ((msg : QueueMessage Json) → r ≡ ok msg → HasAsciiTimes json msg)
      → Returns (store json channel pool order d r b)
  unfolding store store_row
  store-Returns d b (err e) h = (_, refl)
  store-Returns d b (ok msg) h =
      stored (to_kicc_row json msg) (to_kicc_row-Returns json msg (h msg refl))
    where
      stored :
          (r : Option (Option KiccRow))
          → Returns r
          → Returns (store_row json channel pool order d r b)
      stored none (r, e) = absurd (cc e)
      stored (some none) e = (_, refl)
      stored (some (some row)) e = (_, refl)

  step-none :
      (n : ℕ) (e : Event D) (b : Batch W D)
      → IsQuiet json channel e
      → (step json channel pool order n e b).0 ≡ none
  unfolding step after_store
  step-none n closed b q = absurd q
  step-none n channel_error b q = absurd q
  step-none n tick b q = refl
  step-none n (delivered d) b q =
      let (b', stored) = store-Returns d b (json.from_slice (channel.payload d)) q in rw stored refl

  after_step-none :
      (again : Batch W D → Option Stop × Batch W D) (r : Option Stop × Batch W D)
      → r.0 ≡ none
      → after_step json channel pool order again r ≡ again r.1
  after_step-none again (none, b) h = refl
  after_step-none again (some s, b) h = absurd (cc h)

module _ {W D Json : Type 0} (json : JsonLib Json) (channel : Channel W D) (pool : MySqlPool W)
    (order : HashOrder (Text × List (D × KiccRow))) (laws : SettleLaws channel pool) where
  abbrev batch_known : Batch W D → List D
  batch_known = known json channel pool order laws

  -- The loop goes on with an empty batch, and what it had or got is settled.
  pub record AllSettled (es : List (Event D)) (b : Batch W D) (r : Option Stop × Batch W D)
      : Type 0 where
    pub goes_on : r.0 ≡ none
    pub none_left : r.1.deliveries ≡ []
    pub no_rows : r.1.rows ≡ []
    pub settled : Permᴰ (laws.broker.settled r.1.world) (arrived es ++ batch_known b)

  unstopped :
      (n : ℕ) (e : Event D) (b : Batch W D) (r : Option Stop × Batch W D)
      → r.0 ≡ none
      → Stepped json channel pool order laws n e b r
      → IsFilling n r.1 × Permᴰ (batch_known r.1) (arrived (e ∷ []) ++ batch_known b)
  unstopped n e b (none, b') h s = s
  unstopped n e b (some x, b') h s = absurd (cc h)

  timer-AllSettled :
      (n : ℕ) (b : Batch W D)
      → IsFilling n b
      → AllSettled [] b (step json channel pool order n tick b)
  unfolding step
  timer-AllSettled n b i = elim (Bool-cases (is_empty b.rows)) [
    | inl empty ↦
        let no_rows = nil_of_empty b.rows empty in
        let no_deliveries = nil_of_length b.deliveries (i.paired ∙ ap length no_rows) in
        rw empty (record {
          goes_on = refl;
          none_left = no_deliveries;
          no_rows = no_rows;
          settled =
              subst (λ ds. Permᴰ (laws.broker.settled b.world) (ds ++ laws.broker.settled b.world))
                (sym no_deliveries) (Permᴰ.refl (laws.broker.settled b.world));
        })
    | inr filled ↦ rw filled (record {
      goes_on = refl;
      none_left = refl;
      no_rows = refl;
      settled = flushed-known json channel pool order laws b i.paired;
    })
  ]

  -- While the channel is open, and the messages have their dates and times in ASCII, the loop does
  -- not stop, and its next timer leaves the batch empty: each delivery that came, or was in the
  -- batch, is then acknowledged or rejected once, besides those settled before. This holds for a
  -- batch size above 0, a batch at the start that is shorter and has a row for each delivery, and a
  -- broker whose record changes only by `ack` and `nack`; the database may answer with errors.
  pub run-AllSettled :
      (n : ℕ) (es : List (Event D)) (b : Batch W D)
      → 0 < n
      → IsFilling n b
      → All (IsQuiet json channel) es
      → AllSettled es b (run json channel pool order n (es ++ tick ∷ []) b)
  unfolding run step
  run-AllSettled n [] b h i q =
      subst (AllSettled [] b)
        (sym (
          after_step-none json channel pool order (run json channel pool order n [])
            (step json channel pool order n tick b)
            (step-none json channel pool order n tick b tt)))
        (timer-AllSettled n b i)
  run-AllSettled n (e ∷ es) b h i q =
      let r = step json channel pool order n e b in
      let on = step-none json channel pool order n e b q.0 in
      let (filling, known_now) =
        unstopped n e b r on (step-Stepped json channel pool order laws n e b h i) in
      let rest = run-AllSettled n es r.1 h filling q.1 in
      subst (AllSettled (e ∷ es) b)
        (sym (
          after_step-none json channel pool order (run json channel pool order n (es ++ tick ∷ []))
            r on))
        (record {
          goes_on = rest.goes_on;
          none_left = rest.none_left;
          no_rows = rest.no_rows;
          settled = Permᴰ.trans rest.settled (
              Permᴰ.trans (Permᴰ.append_left (arrived es) known_now) (
                rw (arrived-cons e es (batch_known b))
                  (exchange (arrived es) (arrived (e ∷ [])) (batch_known b))));
        })
