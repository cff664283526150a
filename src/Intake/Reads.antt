-- ===== src/Intake/Reads.antt =====
-- A read on a connection of src/tcp_listener.rs, as a history of frames.
use realtime_ingestion.Base.{
  ℕ, zero, suc, ◌+◌, ◌≡◌, refl, sym, subst, Bool, true, false, Option, none, some, [], length, ◌++◌,
  ◌∷◌, Bytes,
}
use realtime_ingestion.External.{RedisLaws, Socket}
use realtime_ingestion.Receiver.{AppState}
use realtime_ingestion.Tcp.Frame.{extract_frame, wrap_response}
use realtime_ingestion.Tcp.Process.{process_frame}
use realtime_ingestion.Tcp.Connection.{
  Read, received, read_error, idle_timeout, Exit, Connection, send, reply, serve, after_frame,
  round, drain, on_data, on_read,
}
use realtime_ingestion.Intake.{Quiet, PublishLaws, Served}

-- The socket touches neither Redis nor the queue.
pub record SocketLaws {W C Json : Type 0} (state : AppState W C Json)
    (redis : RedisLaws state.redis) (laws : PublishLaws state redis) (socket : Socket W)
    : Type 0 where
  pub write_quiet : (b : Bytes) (w : W) → Quiet state redis w (socket.write_all b w).1
  pub write_sent : (b : Bytes) (w : W) → laws.sent (socket.write_all b w).1 ≡ laws.sent w

module _ {W C Json : Type 0} (state : AppState W C Json) (redis : RedisLaws state.redis)
    (laws : PublishLaws state redis) (socket : Socket W)
    (outlet : SocketLaws state redis laws socket) (max_frame_bytes : ℕ) where
  abbrev pub Serves : W → W → Type 0
  Serves w v = Served state redis laws w v

  pub Served-trans : {u v w : W} → Serves u v → Serves v w → Serves u w
  Served-trans Served.done t = t
  Served-trans (Served.on_event e s) t = Served.on_event e (Served-trans s t)
  Served-trans (Served.on_frame f s) t = Served.on_frame f (Served-trans s t)
  Served-trans (Served.wait q e s) t = Served.wait q e (Served-trans s t)

  written : (b : Bytes) (w : W) → Serves w (socket.write_all b w).1
  written b w = Served.wait (outlet.write_quiet b w) (outlet.write_sent b w) Served.done

  send-world :
      (response : Bytes) (had_llll : Bool) (w : W)
      → (send state socket response had_llll w).1
        ≡ (socket.write_all (wrap_response (response, had_llll)) w).1
  unfolding send
  send-world response had_llll w = sent (socket.write_all (wrap_response (response, had_llll)) w)
    where
      sent :
          (r : Bool × W)
          → (elim r.0 as (λ b. Option Exit × W) [
            | true ↦ (none, r.1)
            | false ↦ (some Exit.failed, r.1)
          ]).1
            ≡ r.1
      sent (true, w) = refl
      sent (false, w) = refl

  reply-Served :
      (had_llll : Bool) (w : W) (r : Option Bytes × W)
      → Serves w r.1
      → Serves w (reply state socket had_llll r).1
  unfolding reply
  reply-Served had_llll w (none, v) s = s
  reply-Served had_llll w (some response, v) s = Served-trans s (
      subst (Serves v) (sym (send-world response had_llll v))
        (written (wrap_response (response, had_llll)) v))

  serve-Served : (f : Bytes × Bool) (w : W) → Serves w (serve state socket f w).1
  unfolding serve
  serve-Served (frame, had_llll) w =
      reply-Served had_llll w (process_frame state frame w) (Served.on_frame frame Served.done)

  after_frame-Served :
      (again : Connection W → Option Exit × Connection W) (c : Connection W) (buf : Bytes)
      (r : Option Exit × W)
      → Serves c.world r.1
      → ((d : Connection W) → Serves d.world (again d).1.world)
      → Serves c.world (after_frame (serve state socket) max_frame_bytes again c buf r).1.world
  after_frame-Served again c buf (some e, w) s g = s
  after_frame-Served again c buf (none, w) s g = Served-trans s (g _)

  round-Served :
      (again : Connection W → Option Exit × Connection W) (c : Connection W)
      (r : Option (Bytes × Bool) × Bytes)
      → ((d : Connection W) → Serves d.world (again d).1.world)
      → Serves c.world (round (serve state socket) max_frame_bytes again c r).1.world
  round-Served again c (none, buf) g = Served.done
  round-Served again c (some f, buf) g =
      after_frame-Served again c buf (serve state socket f c.world) (serve-Served f c.world) g

  drain-Served :
      (fuel : ℕ) (c : Connection W)
      → Serves c.world (drain (serve state socket) max_frame_bytes fuel c).1.world
  unfolding drain
  drain-Served zero c = Served.done
  drain-Served (suc fuel) c =
      round-Served (drain (serve state socket) max_frame_bytes fuel) c
        (extract_frame c.buf max_frame_bytes) (drain-Served fuel)

  pub on_read-Served :
      (r : Read) (c : Connection W)
      → Serves c.world (on_read (serve state socket) max_frame_bytes r c).1.world
  unfolding on_read on_data
  on_read-Served read_error c = Served.done
  on_read-Served idle_timeout c = Served.done
  on_read-Served (received []) c = Served.done
  on_read-Served (received (b ∷ bytes)) c =
      let buf = c.buf ++ b ∷ bytes in
      drain-Served (suc (length buf))
        (record c { buf = buf; total_bytes = c.total_bytes + length (b ∷ bytes) })
