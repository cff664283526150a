-- ===== src/Consumer/Broker.antt =====
-- What the broker is told by the consumers of src/consumer/mysql.rs and src/consumer/postgres.rs.
use realtime_ingestion.Base.{◌≡◌, List, [], ◌∷◌, ◌++◌}
use mathlib.Core.List.{Permᴰ}
use mathlib.Core.List.Permᴰ
use realtime_ingestion.Text.{Text}
use realtime_ingestion.Consumer.{Channel, for_each}

-- Each `ack` and each `nack` settles its delivery, and a notification settles none.
pub record BrokerLaws {W D : Type 0} (channel : Channel W D) : Type 0 where
  pub settled : W → List D
  pub ack : (d : D) (w : W) → settled (channel.ack d w) ≡ d ∷ settled w
  pub nack : (d : D) (w : W) → settled (channel.nack d w) ≡ d ∷ settled w
  pub notify : (t : Text) (w : W) → settled (channel.notify t w) ≡ settled w

module _ {W D : Type 0} (channel : Channel W D) (laws : BrokerLaws channel) where
  -- Between two worlds, these deliveries were settled.
  abbrev pub After : W → List D → W → Type 0
  After w ds w' = Permᴰ (laws.settled w') (ds ++ laws.settled w)

  each :
      (call : D → W → W)
      → ((d : D) (w : W) → laws.settled (call d w) ≡ d ∷ laws.settled w)
      → (ds : List D) (w : W) → After w ds (for_each call ds w)
  unfolding for_each
  each call one [] w = Permᴰ.refl (laws.settled w)
  each call one (d ∷ ds) w =
      Permᴰ.trans (each call one ds (call d w)) (rw (one d w) (Permᴰ.middle d ds (laws.settled w)))

  pub accepted : (ds : List D) (w : W) → After w ds (for_each channel.ack ds w)
  accepted ds w = each channel.ack laws.ack ds w

  pub rejected :
      (t : Text) (ds : List D) (w : W) → After w ds (for_each channel.nack ds (channel.notify t w))
  rejected t ds w = rw (← laws.notify t w) (each channel.nack laws.nack ds (channel.notify t w))
