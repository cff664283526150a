-- ===== src/Tcp/Connection/Transcript.antt =====
-- What a terminal gets from `handle_connection` of src/tcp_listener.rs, against a specification that
-- knows its bytes alone.
use realtime_ingestion.Base.{
  ℕ, All, ap₂, ◌≡◌, refl, ◌∙◌, subst, Bool, true, false, Option, none, some, List, [], ◌∷◌, ◌++◌,
  Bytes, if◌then◌else◌, inl, inr, Bool-cases,
}
use realtime_ingestion.External.{JsonLaws, EucKr, Socket}
use realtime_ingestion.Receiver.{AppState}
use realtime_ingestion.Tcp.Frame.{wrap_response, IsWellFormed}
use realtime_ingestion.Tcp.Response.{build_response}
use realtime_ingestion.Tcp.Process.{process_frame}
use realtime_ingestion.Tcp.Process.Laws.{answered_type, process_frame_answer}
use realtime_ingestion.Tcp.Process.Keeps.{ServicesKeep, process_frame-keeps}
use realtime_ingestion.Tcp.Connection.{
  Read, Exit, failed, panicked, Connection, opened, send, reply, serve, on_read, read_loop,
  after_read,
}
use realtime_ingestion.Tcp.Connection.Chunks.{BringsBytes, stream, wire, serve_all, stream-Serves}
use realtime_ingestion.Tcp.Connection.Alike.{Alike, Ended, on_read-Ended}

-- The specification: the answer to a frame is made of its bytes, and is written behind the answers
-- before it, if the socket takes it.
module _ (euc_kr : EucKr) (takes : List Bytes → Bytes → Bool) where
  abbrev written_down : Bool → Option Bytes → List Bytes → Option Exit × List Bytes
  written_down had_llll none log = (some panicked, log)
  written_down had_llll (some response) log =
      let bytes = wrap_response (response, had_llll) in
      if takes log bytes then (none, log ++ bytes ∷ []) else (some failed, log)

  abbrev pub answer : Bytes × Bool → List Bytes → Option Exit × List Bytes
  answer (frame, had_llll) log =
      written_down had_llll (build_response frame (answered_type euc_kr frame)) log

  -- The end and the answers of a connection whose reads are these.
  abbrev pub transcript : ℕ → List Read → List Bytes → Option Exit × Connection (List Bytes)
  transcript max_frame_bytes reads log = read_loop answer max_frame_bytes reads (opened log)

-- The socket of the connection: the answers that were written whole, and whether it takes one more,
-- which depends on them alone.
pub record SocketLog {W : Type 0} (socket : Socket W) : Type 0 where
  pub log : W → List Bytes
  pub takes : List Bytes → Bytes → Bool
  pub result : (b : Bytes) (w : W) → (socket.write_all b w).0 ≡ takes (log w) b
  pub taken :
      (b : Bytes) (w : W) → takes (log w) b ≡ true → log (socket.write_all b w).1 ≡ log w ++ b ∷ []
  pub refused : (b : Bytes) (w : W) → takes (log w) b ≡ false → log (socket.write_all b w).1 ≡ log w

module _ {W C Json : Type 0} (state : AppState W C Json) (json : JsonLaws state.json)
    (socket : Socket W) (line : SocketLog socket) (keep : ServicesKeep state line.log) where
  abbrev Logged : W → List Bytes → Type 0
  Logged w log = line.log w ≡ log

  abbrev spec : Bytes × Bool → List Bytes → Option Exit × List Bytes
  spec = answer state.euc_kr line.takes

  written-Logged :
      (response : Bytes) (had_llll : Bool) (w : W) (log : List Bytes)
      → Logged w log
      → ((send state socket response had_llll w).0
          ≡ (written_down state.euc_kr line.takes had_llll (some response) log).0)
        × Logged
            (send state socket response had_llll w).1
            (written_down state.euc_kr line.takes had_llll (some response) log).1
  unfolding send
  written-Logged response had_llll w log e =
      let bytes = wrap_response (response, had_llll) in
      elim (Bool-cases (line.takes (line.log w) bytes)) [
        | inl is_taken ↦
            rw (← e, is_taken, line.result bytes w ∙ is_taken, send)
              (refl, line.taken bytes w is_taken)
        | inr is_refused ↦
            rw (← e, is_refused, line.result bytes w ∙ is_refused, send)
              (refl, line.refused bytes w is_refused)
      ]

  reply-Logged :
      (had_llll : Bool) (r : Option Bytes × W) (o : Option Bytes) (log : List Bytes)
      → r.0 ≡ o
      → Logged r.1 log
      → ((reply state socket had_llll r).0
          ≡ (written_down state.euc_kr line.takes had_llll o log).0)
        × Logged
            (reply state socket had_llll r).1
            (written_down state.euc_kr line.takes had_llll o log).1
  unfolding reply
  reply-Logged had_llll (none, w) none log q e = (refl, e)
  reply-Logged had_llll (none, w) (some x) log q e = absurd (cc q)
  reply-Logged had_llll (some response, w) none log q e = absurd (cc q)
  reply-Logged had_llll (some response, w) (some x) log q e =
      subst
        (λ o.
          ((send state socket response had_llll w).0
            ≡ (written_down state.euc_kr line.takes had_llll o log).0)
          × Logged (send state socket response had_llll w).1
              (written_down state.euc_kr line.takes had_llll o log).1)
        q (written-Logged response had_llll w log e)

  serve-Logged :
      (f : Bytes × Bool) (w : W) (log : List Bytes)
      → Logged w log
      → ((serve state socket f w).0 ≡ (spec f log).0)
        × Logged (serve state socket f w).1 (spec f log).1
  unfolding serve
  serve-Logged (frame, had_llll) w log e =
      reply-Logged had_llll (process_frame state frame w) _ log
        (process_frame_answer state json frame w)
        (process_frame-keeps state line.log keep frame w ∙ e)

  module _ (max_frame_bytes : ℕ) where
    -- The reads of a connection, and what other tasks do to the world in between, which does not
    -- touch its socket.
    pub data Lived : Connection W → List Read → Option Exit × Connection W → Type 0 where
      waits : {c : Connection W} → Lived c [] (none, c)
      others :
          {c : Connection W} {rs : List Read} {e : Option Exit × Connection W} (w : W)
          → line.log w ≡ line.log c.world
          → Lived (record c { world = w }) rs e
          → Lived c rs e
      ends :
          {c : Connection W} {rs : List Read} (r : Read) (x : Exit) (d : Connection W)
          → on_read (serve state socket) max_frame_bytes r c ≡ (some x, d)
          → Lived c (r ∷ rs) (some x, d)
      goes_on :
          {c : Connection W} {rs : List Read} {e : Option Exit × Connection W} (r : Read)
          (d : Connection W)
          → on_read (serve state socket) max_frame_bytes r c ≡ (none, d)
          → Lived d rs e
          → Lived c (r ∷ rs) e

    abbrev Same : Connection W → Connection (List Bytes) → Type 0
    Same c d = Alike (serve state socket) spec Logged serve-Logged max_frame_bytes c d

    abbrev SameEnd : Option Exit × Connection W → Option Exit × Connection (List Bytes) → Type 0
    SameEnd r s = Ended (serve state socket) spec Logged serve-Logged max_frame_bytes r s

    stopped :
        (again : Connection (List Bytes) → Option Exit × Connection (List Bytes)) (x : Exit)
        (d : Connection W) (s : Option Exit × Connection (List Bytes))
        → SameEnd (some x, d) s
        → SameEnd (some x, d) (after_read spec max_frame_bytes again s)
    stopped again x d (some y, c) h = h
    stopped again x d (none, c) h = absurd (cc (h.0))

    continued :
        (again : Connection (List Bytes) → Option Exit × Connection (List Bytes)) (d : Connection W)
        (e : Option Exit × Connection W) (s : Option Exit × Connection (List Bytes))
        → SameEnd (none, d) s
        → ((c : Connection (List Bytes)) → Same d c → SameEnd e (again c))
        → SameEnd e (after_read spec max_frame_bytes again s)
    continued again d e (some y, c) h g = absurd (cc (h.0))
    continued again d e (none, c) h g = g c h.1

    one_read :
        (r : Read) (c : Connection W) (d : Connection (List Bytes))
        → Same c d
        → SameEnd
            (on_read (serve state socket) max_frame_bytes r c)
            (on_read spec max_frame_bytes r d)
    one_read = on_read-Ended (serve state socket) spec Logged serve-Logged max_frame_bytes

    Lived-SameEnd :
        {c : Connection W} {rs : List Read} {e : Option Exit × Connection W}
        (d : Connection (List Bytes))
        → Lived c rs e
        → Same c d
        → SameEnd e (read_loop spec max_frame_bytes rs d)
    unfolding read_loop
    Lived-SameEnd d waits a = (refl, a)
    Lived-SameEnd d (others w same rest) a = Lived-SameEnd d rest (record {
      buf = a.buf;
      total_bytes = a.total_bytes;
      frame_count = a.frame_count;
      world = same ∙ a.world;
    })
    Lived-SameEnd d (ends {c} {rs} r x c' q) a =
        stopped (read_loop spec max_frame_bytes rs) x c' (on_read spec max_frame_bytes r d)
          (subst (λ p. SameEnd p (on_read spec max_frame_bytes r d)) q (one_read r c d a))
    Lived-SameEnd d (goes_on {c} {rs} {e} r c' q rest) a =
        continued (read_loop spec max_frame_bytes rs) c' e (on_read spec max_frame_bytes r d)
          (subst (λ p. SameEnd p (on_read spec max_frame_bytes r d)) q (one_read r c d a))
          (λ x b. Lived-SameEnd x rest b)

    -- What a terminal gets depends on its own bytes and its own socket alone, whatever other
    -- connections, Redis and the broker do in the meantime: the connection ends as the specification
    -- does on the same reads, and the answers that were written, in their order, are those of the
    -- specification. This holds for a socket whose log changes by its own writes only, and which
    -- takes an answer or fails depending on its log.
    pub Lived-transcript :
        (w : W) {rs : List Read} {e : Option Exit × Connection W}
        → Lived (opened w) rs e
        → let (end, spoken) = transcript state.euc_kr line.takes max_frame_bytes rs (line.log w) in
          (e.0 ≡ end) × (line.log e.1.world ≡ spoken.world)
    Lived-transcript w lived =
        let (same, alike) =
          Lived-SameEnd (opened (line.log w)) lived
            (record { buf = refl; total_bytes = refl; frame_count = refl; world = refl }) in
        (same, alike.world)

    -- However the network cuts the stream of a terminal's well-formed frames into reads, none of them
    -- empty, a timeout or an error, and whatever other connections, Redis and the broker do in the
    -- meantime: the answers that were written are those to its frames in their order, up to the first
    -- that panics or that the socket does not take, and the connection goes on if there is none.
    -- This holds for a socket whose log changes by its own writes only, and which takes an answer or
    -- fails depending on its log.
    pub Lived-answers :
        (w : W) {rs : List Read} (fs : List (Bytes × Bool)) {e : Option Exit × Connection W}
        → Lived (opened w) rs e
        → All BringsBytes rs
        → All (IsWellFormed max_frame_bytes) fs
        → stream rs ≡ wire fs
        → (e.0, line.log e.1.world)
          ≡ serve_all (answer state.euc_kr line.takes) max_frame_bytes fs (line.log w)
    Lived-answers w {rs} fs lived b wf s =
        let (same, log) = Lived-transcript w lived in
        ap₂ (λ (x : Option Exit) (y : List Bytes). (x, y)) same log
        ∙ (stream-Serves spec max_frame_bytes rs fs (line.log w) b wf s).0
