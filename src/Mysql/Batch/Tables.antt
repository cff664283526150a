-- ===== src/Mysql/Batch/Tables.antt =====
-- The groups that `flush` of src/consumer/mysql.rs makes, against a description of them.
use mathlib.Core.Bool.{false≢true}
use realtime_ingestion.Base.{
  ◌≡◌, refl, ap, sym, ◌∙◌, Bool, true, false, List, [], ◌∷◌, ◌++◌, append_assoc, append-nil,
  if◌then◌else◌, inl, inr, Bool-cases,
}
use realtime_ingestion.Text.{Text, text_eq}
use realtime_ingestion.Text.Laws.{text_eq_iff}
use realtime_ingestion.Mysql.Row.{KiccRow}
use realtime_ingestion.Mysql.Batch.{Groups, push_group, group_rows}

apart : (table t u : Text) → text_eq u t ≡ false → text_eq u table ≡ true → text_eq t table ≡ false
apart table t u other own = elim (Bool-cases (text_eq t table)) [
  | inl e ↦ absurd (
      false≢true (
        sym other
        ∙ (text_eq_iff u t).1 ((text_eq_iff u table).0 own ∙ sym ((text_eq_iff t table).0 e))))
  | inr e ↦ e
]

module _ {D : Type 0} (table : Text) where
  -- The group of the table, and the pairs whose row is for the table.
  abbrev pub group_of : Groups D → List (D × KiccRow)
  group_of [] = []
  group_of ((t, group) ∷ groups) = if text_eq t table then group else group_of groups

  abbrev pub rows_for : List (D × KiccRow) → List (D × KiccRow)
  rows_for [] = []
  rows_for ((d, r) ∷ pairs) = (if text_eq r.table table then (d, r) ∷ [] else []) ++ rows_for pairs

  push_group-group_of :
      (t : Text) (p : D × KiccRow) (gs : Groups D)
      → group_of (push_group t p gs) ≡ group_of gs ++ (if text_eq t table then p ∷ [] else [])
  unfolding push_group
  push_group-group_of t p [] = refl
  push_group-group_of t p ((u, g) ∷ gs) = elim (Bool-cases (text_eq u t)) [
    | inl same ↦ rw (same, (text_eq_iff u t).0 same) (extended (text_eq t table))
    | inr other ↦ elim (Bool-cases (text_eq u table)) [
      | inl own ↦ rw (other, own, apart table t u other own) (sym (append-nil g))
      | inr foreign ↦ rw (other, foreign) (push_group-group_of t p gs)
    ]
  ]
    where
      extended :
          (b : Bool)
          → (if b then g ++ p ∷ [] else group_of gs)
            ≡ (if b then g else group_of gs) ++ (if b then p ∷ [] else [])
      extended true = refl
      extended false = sym (append-nil (group_of gs))

  group_rows-group_of :
      (gs : Groups D) (ps : List (D × KiccRow))
      → group_of (group_rows gs ps) ≡ group_of gs ++ rows_for ps
  unfolding group_rows
  group_rows-group_of gs [] = sym (append-nil (group_of gs))
  group_rows-group_of gs ((d, r) ∷ ps) =
      group_rows-group_of (push_group r.table (d, r) gs) ps
      ∙ ap (λ x. x ++ rows_for ps) (push_group-group_of r.table (d, r) gs)
      ∙ append_assoc (group_of gs) _ (rows_for ps)

  -- The group that a batch has for a table is the pairs whose row is for that table, in their order.
  pub group_of-group_rows : (ps : List (D × KiccRow)) → group_of (group_rows [] ps) ≡ rows_for ps
  group_of-group_rows ps = group_rows-group_of [] ps
