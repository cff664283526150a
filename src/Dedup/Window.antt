-- ===== src/Dedup/Window.antt =====
-- `is_new` of src/dedup.rs over time.
use mathlib.Core.Bool.{false≢true}
use realtime_ingestion.Base.{
  refl, ◌++◌, ℕ, ◌<◌, sym, lt→ltb, ◌+◌, ◌*◌, ◌≡◌, ◌≢◌, ◌≤◌, inl, inr, ap, Bool, true, false, ◌||◌,
  Option, some, List, [], ◌∷◌, ltb, ◌==◌, arith, Bool-cases, ◌∙◌, is_some, All, subst,
}
use realtime_ingestion.Text.{Text, byte_len}
use realtime_ingestion.External.{Result, ok, err, pure, continue, Redis, RedisLaws, alive}
use realtime_ingestion.Dedup.{DedupChecker, dedup_key, is_new}

-- The ids that reach Redis.
abbrev pub InRange : Text → Type 0
InRange event_id = (byte_len event_id ≢ 0) × (byte_len event_id ≤ 512)

module _ {W : Type 0} (redis : Redis W) (laws : RedisLaws redis) (checker : DedupChecker) where
  open laws use {now, expiry, later, found, created, failed}

  -- Whether the mark of an event is there.
  abbrev pub marked : Text → W → Bool
  marked event_id w = alive (expiry w (dedup_key event_id)) (now w)

  abbrev after_set : Result (Option Text) × W → Result Bool × W
  after_set r = continue r (λ o. pure (is_some o))

  after_set-eq-ok :
      (r : Result (Option Text) × W) (b : Bool) (w' : W)
      → after_set r ≡ (ok b, w')
      → (o : Option Text) × (r ≡ (ok o, w')) × (b ≡ is_some o)
  after_set-eq-ok (ok o, v) b w' e = (o, ground arith, ground arith)
  after_set-eq-ok (err x, v) b w' e = absurd (ground arith)

  out_of_range : Text → Bool
  out_of_range event_id = byte_len event_id == 0 || ltb 512 (byte_len event_id)

  is_new-eq-ok :
      (event_id : Text) (w w' : W) (b : Bool)
      → is_new redis checker event_id w ≡ (ok b, w')
      → (o : Option Text) × (redis.set_nx_ex (dedup_key event_id) checker.ttl_secs w ≡ (ok o, w'))
        × (b ≡ is_some o)
  unfolding is_new out_of_range
  is_new-eq-ok event_id w w' b e = elim (Bool-cases (out_of_range event_id)) [
    | inl refused ↦ absurd (ground arith)
    | inr asked ↦
        after_set-eq-ok (redis.set_nx_ex (dedup_key event_id) checker.ttl_secs w) b w'
          (rw asked at e)
  ]

  -- What a call that Redis answers says and does: if the event is marked it is not new and no mark
  -- changes; else it is new, is marked for the time to live, and no other mark changes.
  pub is_new_lem :
      (event_id : Text) (w w' : W) (b : Bool)
      → is_new redis checker event_id w ≡ (ok b, w')
      → (marked event_id w ≡ true → (b ≡ false) × ((k : Text) → expiry w' k ≡ expiry w k))
        × (marked event_id w ≡ false
            → (b ≡ true)
              × (expiry w' (dedup_key event_id) ≡ some (now w + 1000 * checker.ttl_secs))
              × ((k : Text) → k ≢ dedup_key event_id → expiry w' k ≡ expiry w k))
  is_new_lem event_id w w' b e =
      let (o, s, b_eq) = is_new-eq-ok event_id w w' b e in
      (
        λ m.
            let (absent, same) = found (dedup_key event_id) checker.ttl_secs w w' o s m in
            (b_eq ∙ ap is_some absent, same),
        λ m.
            let (set, mark, same) = created (dedup_key event_id) checker.ttl_secs w w' o s m in
            (b_eq ∙ set, mark, same),
      )

  pub differ :
      (i j : Text) (w : W) → dedup_key i ≡ dedup_key j → marked i w ≡ true → marked j w ≡ false → ⊥
  differ i j w q own other =
      let same : marked i w ≡ marked j w = ap (λ k. alive (expiry w k) (now w)) q in cc

  after_set-world : (r : Result (Option Text) × W) → (after_set r).1 ≡ r.1
  after_set-world (ok o, v) = refl
  after_set-world (err e, v) = refl

  set-keeps :
      (id i : Text) (w : W) (r : Result (Option Text) × W)
      → redis.set_nx_ex (dedup_key id) checker.ttl_secs w ≡ r
      → marked i w ≡ true
      → expiry r.1 (dedup_key i) ≡ expiry w (dedup_key i)
  set-keeps id i w (err e, v) q m = failed (dedup_key id) checker.ttl_secs w v e q (dedup_key i) m
  set-keeps id i w (ok o, v) q m = elim (Bool-cases (marked id w)) [
    | inl own ↦ (found (dedup_key id) checker.ttl_secs w v o q own).1 (dedup_key i)
    | inr other ↦
        (created (dedup_key id) checker.ttl_secs w v o q other).2 (dedup_key i)
          (λ e. differ i id w e m other)
  ]

  -- Whatever a call returns, time does not go back, and a mark that is there stays as it is.
  pub is_new-keeps :
      (id : Text) (w : W)
      → (now w ≤ now (is_new redis checker id w).1)
        × ((i : Text)
            → marked i w ≡ true
            → expiry (is_new redis checker id w).1 (dedup_key i) ≡ expiry w (dedup_key i))
  unfolding is_new out_of_range
  is_new-keeps id w = elim (Bool-cases (out_of_range id)) [
    | inl refused ↦ rw (refused, is_new) (omega arith, λ i m. refl)
    | inr asked ↦
        let r = redis.set_nx_ex (dedup_key id) checker.ttl_secs w in
        rw (asked, is_new)
          (rw (after_set-world r)
            (later (dedup_key id) checker.ttl_secs w, λ i m. set-keeps id i w r refl m))
  ]

  -- Calls with what they return, errors too, and time that passes between them, in which marks may
  -- expire, from one state to another.
  pub data Calls : W → List (Text × Result Bool) → W → Type 0 where
    done : {w : W} → Calls w [] w
    call :
        {w w' v : W} {cs : List (Text × Result Bool)} (event_id : Text) (r : Result Bool)
        → is_new redis checker event_id w ≡ (r, w')
        → Calls w' cs v
        → Calls w ((event_id, r) ∷ cs) v
    wait :
        {w w' v : W} {cs : List (Text × Result Bool)}
        → now w ≤ now w'
        → ((k : Text) → alive (expiry w k) (now w') ≡ true → expiry w' k ≡ expiry w k)
        → Calls w' cs v
        → Calls w cs v

  call-keeps :
      (id : Text) (w w' : W) (r : Result Bool)
      → is_new redis checker id w ≡ (r, w')
      → (now w ≤ now w')
        × ((i : Text) → marked i w ≡ true → expiry w' (dedup_key i) ≡ expiry w (dedup_key i))
  call-keeps id w w' r e =
      subst
        (λ (x : Result Bool × W).
          (now w ≤ now x.1)
          × ((i : Text) → marked i w ≡ true → expiry x.1 (dedup_key i) ≡ expiry w (dedup_key i)))
        e (is_new-keeps id w)

  Calls-later : {w v : W} {cs : List (Text × Result Bool)} → Calls w cs v → now w ≤ now v
  Calls-later done = omega arith
  Calls-later (call {w} {w'} id r e rest) =
      omega (arith, (call-keeps id w w' r e).0, Calls-later rest)
  Calls-later (wait h same rest) = omega (arith, Calls-later rest)

  -- No call on this event was told that it is new.
  abbrev pub NoneNew : Text → List (Text × Result Bool) → Type 0
  NoneNew event_id = All (λ (c : Text × Result Bool). c.0 ≡ event_id → c.1 ≢ ok true)

  pub is_marked :
      (event_id : Text) (w : W) (t : ℕ)
      → expiry w (dedup_key event_id) ≡ some t
      → now w < t
      → marked event_id w ≡ true
  is_marked event_id w t m h = rw m (lt→ltb (now w) t h)

  -- An event that is marked is not found new.
  marked-known :
      (id : Text) (w w' : W) → marked id w ≡ true → is_new redis checker id w ≢ (ok true, w')
  marked-known id w w' m e = false≢true (sym ((is_new_lem id w w' true e).0 m).0)

  held :
      {w v : W} {cs : List (Text × Result Bool)} (event_id : Text) (t : ℕ)
      → Calls w cs v
      → expiry w (dedup_key event_id) ≡ some t
      → now v < t
      → NoneNew event_id cs
  held event_id t done m h = tt
  held event_id t (wait {w} {w'} g same rest) m h =
      let there : alive (expiry w (dedup_key event_id)) (now w') ≡ true =
        rw m (lt→ltb (now w') t (omega (arith, Calls-later rest))) in
      held event_id t rest (same (dedup_key event_id) there ∙ m) h
  held event_id t (call {w} {w'} id r e rest) m h =
      let (passes, keeps) = call-keeps id w w' r e in
      let own : marked event_id w ≡ true =
        is_marked event_id w t m (omega (arith, Calls-later rest)) in
      (
        λ same new.
            marked-known id w w' (subst (λ i. marked i w ≡ true) (sym same) own)
              (e ∙ ap {B = Result Bool × W} (λ (x : Result Bool). (x, w')) new),
        held event_id t rest (keeps event_id own ∙ m) h,
      )

  -- When an event was found new, no later call on it is told so before its time to live is over,
  -- whatever other calls stand between, whether they return or fail, and however time passes. This
  -- holds for a Redis that keeps a mark until it expires.
  pub is_new_once :
      (event_id : Text) (w : W) {w' v : W} {cs : List (Text × Result Bool)}
      → is_new redis checker event_id w ≡ (ok true, w')
      → Calls w' cs v
      → now v < now w + 1000 * checker.ttl_secs
      → NoneNew event_id cs
  is_new_once event_id w e calls h = elim (Bool-cases (marked event_id w)) [
    | inl m ↦ absurd (marked-known event_id w _ m e)
    | inr m ↦
        held event_id (now w + 1000 * checker.ttl_secs) calls
          ((is_new_lem event_id w _ true e).1 m).1 h
  ]

  Calls-snoc :
      {w v u : W} {cs : List (Text × Result Bool)} (event_id : Text) (r : Result Bool)
      → Calls w cs v
      → is_new redis checker event_id v ≡ (r, u)
      → Calls w (cs ++ (event_id, r) ∷ []) u
  Calls-snoc event_id r done e = call event_id r e done
  Calls-snoc event_id r (call i x q rest) e = call i x q (Calls-snoc event_id r rest e)
  Calls-snoc event_id r (wait h same rest) e = wait h same (Calls-snoc event_id r rest e)

  last_not_new :
      (event_id : Text) (b : Bool) (cs : List (Text × Result Bool))
      → NoneNew event_id (cs ++ (event_id, ok b) ∷ [])
      → b ≡ false
  last_not_new event_id true [] h = absurd (h.0 refl refl)
  last_not_new event_id false [] h = refl
  last_not_new event_id b (c ∷ cs) h = last_not_new event_id b cs h.1

  -- A call on a marked event that Redis answers in time is told that the event is not new.
  pub is_new_again :
      (event_id : Text) (w : W) {w' v u : W} {cs : List (Text × Result Bool)} (b : Bool)
      → is_new redis checker event_id w ≡ (ok true, w')
      → Calls w' cs v
      → is_new redis checker event_id v ≡ (ok b, u)
      → now u < now w + 1000 * checker.ttl_secs
      → b ≡ false
  is_new_again event_id w {cs = cs} b e calls q h =
      last_not_new event_id b cs (is_new_once event_id w e (Calls-snoc event_id (ok b) calls q) h)
