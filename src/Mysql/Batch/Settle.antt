-- ===== src/Mysql/Batch/Settle.antt =====
-- Which deliveries `flush` of src/consumer/mysql.rs acknowledges or rejects.
use realtime_ingestion.Base.{
  ℕ, ◌≡◌, ◌∙◌, subst, List, [], ◌∷◌, ◌++◌, append_assoc, append-nil, map, length,
}
use mathlib.Core.List.{Permᴰ}
use mathlib.Core.List.Permᴰ
use realtime_ingestion.Text.{Text}
use realtime_ingestion.External.{Result, ok, err, JsonLib}
use realtime_ingestion.Consumer.{Channel, for_each, HashOrder}
use realtime_ingestion.Consumer.Broker.{BrokerLaws, After, accepted, rejected}
use realtime_ingestion.Mysql.Row.{KiccRow}
use realtime_ingestion.Mysql.Batch.{MySqlPool, Groups, zip, group_rows, settle, flush_group, flush}
use realtime_ingestion.Mysql.Batch.Group.{
  deliveries_of, all_of, group_rows-all_of, all_of-Permᴰ, zip-deliveries_of,
}

-- A statement settles nothing.
pub record SettleLaws {W D : Type 0} (channel : Channel W D) (pool : MySqlPool W) : Type 0 where
  pub broker : BrokerLaws channel
  pub execute :
      (t : Text) (rows : List KiccRow) (w : W)
      → broker.settled (pool.execute t rows w).1 ≡ broker.settled w

swapped : {D : Type 0} (xs ys zs : List D) → Permᴰ (ys ++ (xs ++ zs)) ((xs ++ ys) ++ zs)
swapped xs ys zs = rw (← append_assoc ys xs zs) (Permᴰ.append_right zs (Permᴰ.append_comm ys xs))

module _ {W D Json : Type 0} (json : JsonLib Json) (channel : Channel W D) (pool : MySqlPool W)
    (order : HashOrder (Text × List (D × KiccRow))) (laws : SettleLaws channel pool) where
  settle-settled :
      (t : Text) (ds : List D) (r : Result ℕ × W)
      → After channel laws.broker r.1 ds (settle json channel pool order t ds r)
  unfolding settle
  settle-settled t ds (ok n, w) = accepted channel laws.broker ds w
  settle-settled t ds (err e, w) = rejected channel laws.broker _ ds w

  flush_group-settled :
      (t : Text) (g : List (D × KiccRow)) (w : W)
      → After channel laws.broker w (deliveries_of g) (flush_group json channel pool order (t, g) w)
  unfolding flush_group
  flush_group-settled t g w =
      let rows = map (λ (p : D × KiccRow). p.1) g in
      rw (← laws.execute t rows w) (settle-settled t (deliveries_of g) (pool.execute t rows w))

  groups-settled :
      (gs : Groups D) (w : W)
      → After channel laws.broker w
          (all_of gs)
          (for_each (flush_group json channel pool order) gs w)
  unfolding for_each
  groups-settled [] w = Permᴰ.refl (laws.broker.settled w)
  groups-settled ((t, g) ∷ gs) w =
      let w' = flush_group json channel pool order (t, g) w in
      Permᴰ.trans (groups-settled gs w') (
        Permᴰ.trans (Permᴰ.append_left (all_of gs) (flush_group-settled t g w))
          (swapped (deliveries_of g) (all_of gs) (laws.broker.settled w)))

  -- With as many rows as deliveries, and a broker whose record changes only by `ack` and `nack`, a
  -- flush settles each delivery of its batch once and no other, whatever the database answers and
  -- in whatever order the groups are taken.
  pub flush-settled :
      (ds : List D) (rows : List KiccRow) (w : W)
      → length ds ≡ length rows
      → After channel laws.broker w ds (flush json channel pool order ds rows w)
  unfolding flush
  flush-settled ds rows w e =
      let groups = group_rows [] (zip ds rows) in
      Permᴰ.trans (groups-settled (order.into_iter groups) w) (
        Permᴰ.append_right (laws.broker.settled w) (
          Permᴰ.trans (all_of-Permᴰ (order.each_once groups)) (
            subst (λ xs. Permᴰ (all_of groups) xs)
              (append-nil (deliveries_of (zip ds rows)) ∙ zip-deliveries_of ds rows e)
              (group_rows-all_of [] (zip ds rows)))))
