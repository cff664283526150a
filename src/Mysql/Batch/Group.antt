-- ===== src/Mysql/Batch/Group.antt =====
-- Grouping the rows of a batch by table, in `flush` of src/consumer/mysql.rs: the
-- deliveries of all groups together.
use realtime_ingestion.Base.{
  ◌≡◌, refl, ap, List, [], ◌∷◌, ◌++◌, map, length, inl, inr, Bool-cases, arith,
}
use mathlib.Core.List.{Permᴰ}
use mathlib.Core.List.Permᴰ
use realtime_ingestion.Text.{Text, text_eq}
use realtime_ingestion.Consumer.Arrived.{exchange}
use realtime_ingestion.Mysql.Row.{KiccRow}
use realtime_ingestion.Mysql.Batch.{Groups, zip, push_group, group_rows}

module _ {D : Type 0} where
  abbrev pub deliveries_of : List (D × KiccRow) → List D
  deliveries_of group = map (λ (p : D × KiccRow). p.0) group

  abbrev pub all_of : Groups D → List D
  all_of [] = []
  all_of ((t, group) ∷ groups) = deliveries_of group ++ all_of groups

  deliveries_of-append :
      (xs ys : List (D × KiccRow)) → deliveries_of (xs ++ ys) ≡ deliveries_of xs ++ deliveries_of ys
  deliveries_of-append [] ys = refl
  deliveries_of-append (x ∷ xs) ys = ap (◌∷◌ x.0) (deliveries_of-append xs ys)

  snoc : (x : D) (xs ys : List D) → Permᴰ ((xs ++ x ∷ []) ++ ys) (x ∷ (xs ++ ys))
  snoc x [] ys = Permᴰ.refl (x ∷ ys)
  snoc x (y ∷ xs) ys = Permᴰ.trans (Permᴰ.cons refl (snoc x xs ys)) (Permᴰ.swap refl refl)

  push_group-all_of :
      (t : Text) (d : D) (r : KiccRow) (gs : Groups D)
      → Permᴰ (all_of (push_group t (d, r) gs)) (d ∷ all_of gs)
  unfolding push_group
  push_group-all_of t d r [] = Permᴰ.refl (d ∷ [])
  push_group-all_of t d r ((u, g) ∷ gs) = elim (Bool-cases (text_eq u t)) [
    | inl same ↦ rw (same, deliveries_of-append) (snoc d (deliveries_of g) (all_of gs))
    | inr other ↦ rw other (
        Permᴰ.trans (Permᴰ.append_left (deliveries_of g) (push_group-all_of t d r gs))
          (Permᴰ.middle d (deliveries_of g) (all_of gs)))
  ]

  pub group_rows-all_of :
      (gs : Groups D) (ps : List (D × KiccRow))
      → Permᴰ (all_of (group_rows gs ps)) (deliveries_of ps ++ all_of gs)
  unfolding group_rows
  group_rows-all_of gs [] = Permᴰ.refl (all_of gs)
  group_rows-all_of gs ((d, r) ∷ ps) =
      Permᴰ.trans (group_rows-all_of (push_group r.table (d, r) gs) ps) (
        Permᴰ.trans (Permᴰ.append_left (deliveries_of ps) (push_group-all_of r.table d r gs))
          (Permᴰ.middle d (deliveries_of ps) (all_of gs)))

  -- The order in which the groups are taken does not matter.
  pub all_of-Permᴰ : {gs hs : Groups D} → Permᴰ gs hs → Permᴰ (all_of gs) (all_of hs)
  all_of-Permᴰ Permᴰ.nil = Permᴰ.nil
  all_of-Permᴰ (Permᴰ.cons {a = (t, g)} {b = (u, h)} {l₂ = hs} e p) =
      rw (ap (λ (x : Text × List (D × KiccRow)). deliveries_of x.1) e)
        (Permᴰ.append_left (deliveries_of h) (all_of-Permᴰ p))
  all_of-Permᴰ (Permᴰ.swap {a = (t, g)} {b = (u, h)} {a' = (u', h')} {b' = (t', g')} {l = l} e f) =
      rw
        (
          ap (λ (x : Text × List (D × KiccRow)). deliveries_of x.1) e,
          ap (λ (x : Text × List (D × KiccRow)). deliveries_of x.1) f,
        )
        (exchange (deliveries_of g') (deliveries_of h') (all_of l))
  all_of-Permᴰ (Permᴰ.trans p q) = Permᴰ.trans (all_of-Permᴰ p) (all_of-Permᴰ q)

  pub zip-deliveries_of :
      (ds : List D) (rs : List KiccRow) → length ds ≡ length rs → deliveries_of (zip ds rs) ≡ ds
  unfolding zip
  zip-deliveries_of [] rs h = refl
  zip-deliveries_of (d ∷ ds) [] h = absurd (omega arith)
  zip-deliveries_of (d ∷ ds) (r ∷ rs) h = ap (◌∷◌ d) (zip-deliveries_of ds rs (omega arith))
