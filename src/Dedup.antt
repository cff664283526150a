-- ===== src/Dedup.antt =====
-- src/dedup.rs: the duplicate filter over Redis. The connection manager is the world.
pub mod Window
use realtime_ingestion.Base.{ℕ, Bool, ◌||◌, ◌++◌, ltb, ◌==◌, if◌then◌else◌, is_some}
use realtime_ingestion.Text.{Text, codes, byte_len}
use realtime_ingestion.External.{
  Io, Result, ok, err, bad_event_id, pure, lift, continue, ◌>>=◌, Redis,
}

pub record DedupChecker : Type 0 where
  pub ttl_secs : ℕ

abbrev pub dedup_key : Text → Text
dedup_key event_id = codes "dedup:" ++ event_id

module _ {W : Type 0} (redis : Redis W) where
  unfoldable pub is_new : DedupChecker → Text → Io W Bool
  is_new checker event_id =
      if byte_len event_id == 0 || ltb 512 (byte_len event_id)
      then lift (err (bad_event_id (byte_len event_id)))
      else do result ← redis.set_nx_ex (dedup_key event_id) checker.ttl_secs; pure (is_some result)
