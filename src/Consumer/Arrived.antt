-- ===== src/Consumer/Arrived.antt =====
-- The deliveries that the loops of the two consumers see.
use realtime_ingestion.Base.{subst, append-nil, ◌≡◌, refl, List, [], ◌∷◌, ◌++◌, append_assoc}
use mathlib.Core.List.{Permᴰ}
use mathlib.Core.List.Permᴰ
use realtime_ingestion.Consumer.{Event, closed, channel_error, tick, delivered}

-- The deliveries among some events.
abbrev pub arrived : {D : Type 0} → List (Event D) → List D
arrived [] = []
arrived (delivered d ∷ es) = d ∷ arrived es
arrived (closed ∷ es) = arrived es
arrived (channel_error ∷ es) = arrived es
arrived (tick ∷ es) = arrived es

pub arrived-cons :
    {D : Type 0} (e : Event D) (es : List (Event D)) (ds : List D)
    → arrived (e ∷ es) ++ ds ≡ arrived (e ∷ []) ++ (arrived es ++ ds)
arrived-cons closed es ds = refl
arrived-cons channel_error es ds = refl
arrived-cons tick es ds = refl
arrived-cons (delivered d) es ds = refl

pub arrived-parts :
    {D : Type 0} (e : Event D) (es : List (Event D))
    → arrived (e ∷ es) ≡ arrived (e ∷ []) ++ arrived es
arrived-parts closed es = refl
arrived-parts channel_error es = refl
arrived-parts tick es = refl
arrived-parts (delivered d) es = refl

pub exchange : {D : Type 0} (xs ys zs : List D) → Permᴰ (xs ++ (ys ++ zs)) (ys ++ (xs ++ zs))
exchange xs ys zs =
    rw (← append_assoc xs ys zs, ← append_assoc ys xs zs)
      (Permᴰ.append_right zs (Permᴰ.append_comm xs ys))

-- From the deliveries `k` to the deliveries `k'`, these came: each is in `k'`, or is lost, and so is
-- each of `k`; and nothing else is in `k'`.
pub record Moves {D : Type 0} (k ds k' : List D) : Type 0 where
  pub lost : List D
  pub balance : Permᴰ (lost ++ k') (ds ++ k)

module _ {D : Type 0} where
  pub all_lost : (k ds : List D) → Moves k ds k
  all_lost k ds = record { lost = ds; balance = Permᴰ.refl (ds ++ k) }

  pub none_lost : (k ds k' : List D) → Permᴰ k' (ds ++ k) → Moves k ds k'
  none_lost k ds k' p = record { lost = []; balance = p }

  pub then_more : {k l m : List D} (s t : List D) → Moves k s l → Moves l t m → Moves k (s ++ t) m
  then_more {k} {l} {m} s t first second = record {
    lost = first.lost ++ second.lost;
    balance =
        rw (append_assoc first.lost second.lost m, append_assoc s t k)
          (Permᴰ.trans (Permᴰ.append_left first.lost second.balance) (
            Permᴰ.trans (exchange first.lost t l)
              (Permᴰ.trans (Permᴰ.append_left t first.balance) (exchange t s k))));
  }

  -- Behind the last that came.
  pub then_none : {k l m : List D} (s : List D) → Moves k s l → Moves l [] m → Moves k s m
  then_none {k} {l} {m} s first second =
      subst (λ ds. Moves k ds m) (append-nil s) (then_more s [] first second)
