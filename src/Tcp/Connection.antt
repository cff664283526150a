-- ===== src/Tcp/Connection.antt =====
-- `handle_connection` of src/tcp_listener.rs. The results of its successive reads are a list; the
-- loop has not returned when they run out.
pub mod Drain
pub mod Chunks
pub mod Alike
pub mod Transcript
use realtime_ingestion.Base.{
  ℕ, zero, suc, ◌+◌, Bool, true, false, Option, none, some, List, [], ◌∷◌, ◌++◌, Bytes, length,
}
use realtime_ingestion.External.{Socket}
use realtime_ingestion.Receiver.{AppState}
use realtime_ingestion.Tcp.Frame.{extract_frame, wrap_response}
use realtime_ingestion.Tcp.Process.{process_frame}

-- One read with its timeout of 30 seconds. No bytes are the end of the stream.
pub data Read : Type 0 where
  received : Bytes → Read
  read_error idle_timeout : Read

-- How the function ends: `Ok(())`, `Err`, or a panic.
pub data Exit : Type 0 where
  closed failed panicked : Exit

-- The variables of the loop, and the world. The counters are far below 2 ^ 64.
pub record Connection (W : Type 0) : Type 0 where
  pub buf : Bytes
  pub total_bytes : ℕ
  pub frame_count : ℕ
  pub world : W

abbrev pub opened : {W : Type 0} → W → Connection W
opened w = record { buf = []; total_bytes = 0; frame_count = 0; world = w }

module _ {W C Json : Type 0} (state : AppState W C Json) (socket : Socket W) where
  unfoldable pub send : Bytes → Bool → W → Option Exit × W
  send response had_llll w =
      let (sent, w') = socket.write_all (wrap_response (response, had_llll)) w in
      elim sent [ true ↦ (none, w') | false ↦ (some failed, w') ]

  unfoldable pub reply : Bool → Option Bytes × W → Option Exit × W
  unfolding send
  reply had_llll (none, w) = (some panicked, w)
  reply had_llll (some response, w) = send response had_llll w

  -- The body of the `while let`: process one frame and write its response.
  unfoldable pub serve : Bytes × Bool → W → Option Exit × W
  unfolding reply
  serve (frame, had_llll) w = reply had_llll (process_frame state frame w)

module _ {W : Type 0} (serve_frame : Bytes × Bool → W → Option Exit × W) (max_frame_bytes : ℕ) where
  -- The state behind a round: the frame is counted, and `buf` is what its extraction left.
  abbrev pub served : Connection W → Bytes → W → Connection W
  served c buf w = record {
    buf = buf;
    total_bytes = c.total_bytes;
    frame_count = c.frame_count + 1;
    world = w;
  }

  abbrev Loop : Type 0
  Loop = Connection W → Option Exit × Connection W

  -- A round behind its frame: the function returns, or the loop goes on by `again`.
  abbrev pub after_frame :
      Loop → Connection W → Bytes → Option Exit × W → Option Exit × Connection W
  after_frame again c buf (some e, w) = (some e, served c buf w)
  after_frame again c buf (none, w) = again (served c buf w)

  -- A round on the result of `extract_frame`.
  abbrev pub round :
      Loop → Connection W → Option (Bytes × Bool) × Bytes → Option Exit × Connection W
  round again c (none, buf) = (none, record c { buf = buf })
  round again c (some frame, buf) = after_frame again c buf (serve_frame frame c.world)

  -- `while let Some((frame, had_llll)) = extract_frame(&mut buf, max_frame_bytes)`
  unfoldable pub drain : ℕ → Connection W → Option Exit × Connection W
  drain zero c = (none, c)
  drain (suc fuel) c = round (drain fuel) c (extract_frame c.buf max_frame_bytes)

  -- Each frame takes bytes off the buffer, so its length bounds the rounds.
  unfoldable pub on_data : Bytes → Connection W → Option Exit × Connection W
  unfolding drain
  on_data bytes c =
      let buf = c.buf ++ bytes in
      drain (suc (length buf)) (record c { buf = buf; total_bytes = c.total_bytes + length bytes })

  unfoldable pub on_read : Read → Connection W → Option Exit × Connection W
  unfolding on_data
  on_read read_error c = (some failed, c)
  on_read idle_timeout c = (some closed, c)
  on_read (received []) c = (some closed, c)
  on_read (received (b ∷ bytes)) c = on_data (b ∷ bytes) c

  abbrev pub after_read : Loop → Option Exit × Connection W → Option Exit × Connection W
  after_read again (some e, c) = (some e, c)
  after_read again (none, c) = again c

  unfoldable pub read_loop : List Read → Connection W → Option Exit × Connection W
  unfolding on_read
  read_loop [] c = (none, c)
  read_loop (r ∷ rs) c = after_read (read_loop rs) (on_read r c)

unfoldable pub handle_connection :
    {W C Json : Type 0}
    → AppState W C Json
    → Socket W
    → ℕ
    → List Read
    → W
    → Option Exit × Connection W
unfolding serve read_loop
handle_connection state socket max_frame_bytes reads w =
    read_loop (serve state socket) max_frame_bytes reads (opened w)
