-- ===== src/Tcp/Connection/Chunks.antt =====
-- The frames that `handle_connection` of src/tcp_listener.rs serves, and how the stream is cut.
use native.Mathlib.Decide.{dec_lt}
use realtime_ingestion.Base.{
  ℕ, zero, suc, ◌+◌, ◌≤◌, ◌<◌, ◌≡◌, refl, Bool, Option, none, some, List, [], ◌∷◌, ◌++◌, Bytes,
  length, arith, ap, ◌∙◌, sym, All, append_assoc, length-append, nil_of_length,
}
use realtime_ingestion.External.{Socket}
use realtime_ingestion.Receiver.{AppState}
use realtime_ingestion.Tcp.Frame.{extract_frame, wrap_response, IsWellFormed}
use realtime_ingestion.Tcp.Frame.Extract.{
  extract_frame-wrap_response, extract_frame_part, extract_frame_short,
}
use realtime_ingestion.Tcp.Frame.Invert.{wrap_response-pos}
use realtime_ingestion.Tcp.Connection.{
  Read, received, Connection, Exit, served, after_frame, round, drain, after_read, read_loop,
  opened, serve, handle_connection,
}

-- The stream that the frames make, and the one that reads of it have brought.
abbrev pub wire : List (Bytes × Bool) → Bytes
wire [] = []
wire (f ∷ fs) = wrap_response f ++ wire fs

abbrev pub stream : List Read → Bytes
stream [] = []
stream (received bytes ∷ rs) = bytes ++ stream rs
stream (r ∷ rs) = stream rs

-- Every read brings bytes.
abbrev pub BringsBytes : Read → Type 0
BringsBytes (received (b ∷ bytes)) = Unit
BringsBytes r = ⊥

-- What is left of the stream behind the common front `xs`.
cut_front :
    (xs buf rest ys : Bytes)
    → buf ++ rest ≡ xs ++ ys
    → length xs ≤ length buf
    → (tail : Bytes) × (buf ≡ xs ++ tail) × (tail ++ rest ≡ ys)
cut_front [] buf rest ys e h = (buf, refl, e)
cut_front (x ∷ xs) [] rest ys e h = absurd (omega arith)
cut_front (x ∷ xs) (b ∷ buf) rest ys e h =
    let (tail, p, q) = cut_front xs buf rest ys (ap drop_one e) (omega arith) in
    (tail, ground (arith, p, ap first e), q)
  where
    drop_one : Bytes → Bytes
    drop_one [] = []
    drop_one (z ∷ zs) = zs

    first : Bytes → ℕ
    first [] = 0
    first (z ∷ zs) = z

module _ {W : Type 0} (serve_frame : Bytes × Bool → W → Option Exit × W) (max : ℕ) where
  abbrev pub after_one : (W → Option Exit × W) → Option Exit × W → Option Exit × W
  after_one again (some e, w) = (some e, w)
  after_one again (none, w) = again w

  -- The frames one after the other, up to the first that ends the connection.
  unfoldable pub serve_all : List (Bytes × Bool) → W → Option Exit × W
  serve_all [] w = (none, w)
  serve_all (f ∷ fs) w = after_one (serve_all fs) (serve_frame f w)

  -- The buffer is a front part of the first frame, and not all of it.
  abbrev Pending : List (Bytes × Bool) → Bytes → Type 0
  Pending [] buf = buf ≡ []
  Pending (f ∷ fs) buf = length buf < length (wrap_response f)

  -- What the inner loop did: it waits in front of the frames `left`, or a frame ended it.
  data Drained (fs : List (Bytes × Bool)) (w : W) (rest : Bytes)
      : Option Exit × Connection W → Type 0 where
    paused :
        (left : List (Bytes × Bool)) (c : Connection W)
        → serve_all fs w ≡ serve_all left c.world
        → c.buf ++ rest ≡ wire left
        → All (IsWellFormed max) left
        → Pending left c.buf
        → Drained fs w rest (none, c)
    stopped :
        (e : Exit) (c : Connection W)
        → serve_all fs w ≡ (some e, c.world)
        → Drained fs w rest (some e, c)

  abbrev loop : ℕ → Connection W → Option Exit × Connection W
  loop = drain serve_frame max

  loop-round :
      (n : ℕ) (c : Connection W) {r : Option (Bytes × Bool) × Bytes}
      → extract_frame c.buf max ≡ r
      → loop (suc n) c ≡ round serve_frame max (loop n) c r
  unfolding drain
  loop-round n c e = ap (round serve_frame max (loop n) c) e

  after_frame-Drained :
      (n : ℕ) (c : Connection W) (f : Bytes × Bool) (fs : List (Bytes × Bool)) (buf rest : Bytes)
      (r : Option Exit × W)
      → serve_frame f c.world ≡ r
      → ((w : W) → Drained fs w rest (loop n (served serve_frame max c buf w)))
      → Drained (f ∷ fs) c.world rest (after_frame serve_frame max (loop n) c buf r)
  unfolding serve_all
  after_frame-Drained n c f fs buf rest (some e, w) s ih =
      stopped e _ (ap (after_one (serve_all fs)) s)
  after_frame-Drained n c f fs buf rest (none, w) s ih = weaken (ih w)
    where
      weaken :
          {o : Option Exit × Connection W} → Drained fs w rest o → Drained (f ∷ fs) c.world rest o
      weaken (paused left c' p q wf k) = paused left c' (ap (after_one (serve_all fs)) s ∙ p) q wf k
      weaken (stopped e c' p) = stopped e c' (ap (after_one (serve_all fs)) s ∙ p)

  drain-Drained :
      (n : ℕ) (c : Connection W) (fs : List (Bytes × Bool)) (rest : Bytes)
      → length c.buf < n
      → All (IsWellFormed max) fs
      → c.buf ++ rest ≡ wire fs
      → Drained fs c.world rest (loop n c)
  drain-Drained zero c fs rest h wf e = absurd (omega arith)
  drain-Drained (suc n) c [] rest h wf e =
      let none_left : c.buf ≡ [] =
        nil_of_length c.buf (omega (arith, ap length e, length-append c.buf rest)) in
      rw (loop-round n c (extract_frame_short max c.buf (omega (arith, ap length none_left))))
        (paused [] c refl e tt none_left)
  drain-Drained (suc n) c (f ∷ fs) rest h wf e =
      elim (dec_lt (length c.buf) (length (wrap_response f))) [
        | yes part ↦
            rw (loop-round n c (extract_frame_part max f c.buf rest (wire fs) wf.0 e part))
              (paused (f ∷ fs) c refl e wf part)
        | no whole ↦
            let (tail, p, q) = cut_front (wrap_response f) c.buf rest (wire fs) e (omega arith) in
            rw
              (loop-round n c (
                ap (λ (b : Bytes). extract_frame b max) p
                ∙ extract_frame-wrap_response max f tail wf.0))
              (after_frame-Drained n c f fs tail rest (serve_frame f c.world) refl λ w.
                drain-Drained n (served serve_frame max c tail w) fs rest
                  (omega (
                    arith,
                    ap length p,
                    length-append (wrap_response f) tail,
                    wrap_response-pos max f wf.0,
                  ))
                  wf.1 q)
      ]

  abbrev pub outcome : Option Exit × Connection W → Option Exit × W
  outcome (exit, c) = (exit, c.world)

  -- The loop ends as serving the frames does, and if it goes on no byte is left over.
  abbrev pub Serves : List (Bytes × Bool) → W → Option Exit × Connection W → Type 0
  Serves fs w o = (outcome o ≡ serve_all fs w) × (o.0 ≡ none → o.1.buf ≡ [])

  after_read-Serves :
      (rs : List Read) (fs : List (Bytes × Bool)) (w : W) {o : Option Exit × Connection W}
      → Drained fs w (stream rs) o
      → ((left : List (Bytes × Bool)) (c : Connection W)
          → All (IsWellFormed max) left
          → c.buf ++ stream rs ≡ wire left
          → Pending left c.buf
          → Serves left c.world (read_loop serve_frame max rs c))
      → Serves fs w (after_read serve_frame max (read_loop serve_frame max rs) o)
  after_read-Serves rs fs w (paused left c p q wf k) ih = rw p (ih left c wf q k)
  after_read-Serves rs fs w (stopped e c p) ih = (sym p, λ h. cc)

  read_loop-Serves :
      (rs : List Read) (fs : List (Bytes × Bool)) (c : Connection W)
      → All BringsBytes rs
      → All (IsWellFormed max) fs
      → c.buf ++ stream rs ≡ wire fs
      → Pending fs c.buf
      → Serves fs c.world (read_loop serve_frame max rs c)
  unfolding read_loop serve_all
  read_loop-Serves [] [] c b wf e k = (refl, λ h. k)
  read_loop-Serves [] (f ∷ fs) c b wf e k = absurd (
      omega (arith, ap length e, length-append c.buf [], length-append (wrap_response f) (wire fs)))
  read_loop-Serves (received [] ∷ rs) fs c b wf e k = absurd b.0
  read_loop-Serves (received (x ∷ bytes) ∷ rs) fs c b wf e k =
      after_read-Serves rs fs c.world
        (drain-Drained (suc (length (c.buf ++ x ∷ bytes)))
          (record c { buf = c.buf ++ x ∷ bytes; total_bytes = c.total_bytes + length (x ∷ bytes) })
          fs (stream rs) (omega arith) wf (append_assoc c.buf (x ∷ bytes) (stream rs) ∙ e))
        (λ left c' wf' q k'. read_loop-Serves rs left c' b.1 wf' q k')
  read_loop-Serves (r ∷ rs) fs c b wf e k = absurd b.0

Pending-start :
    {W : Type 0} (serve_frame : Bytes × Bool → W → Option Exit × W) (max : ℕ)
    (fs : List (Bytes × Bool))
    → All (IsWellFormed max) fs
    → Pending serve_frame max fs []
Pending-start serve_frame max [] wf = refl
Pending-start serve_frame max (f ∷ fs) wf = wrap_response-pos max f wf.0

-- From an empty buffer, whatever serves the frames.
pub stream-Serves :
    {W : Type 0} (serve_frame : Bytes × Bool → W → Option Exit × W) (max : ℕ) (reads : List Read)
    (fs : List (Bytes × Bool)) (w : W)
    → All BringsBytes reads
    → All (IsWellFormed max) fs
    → stream reads ≡ wire fs
    → Serves serve_frame max fs w (read_loop serve_frame max reads (opened w))
stream-Serves serve_frame max reads fs w b wf e =
    read_loop-Serves serve_frame max reads fs (opened w) b wf e
      (Pending-start serve_frame max fs wf)

-- However the network cuts a stream of well-formed frames into reads, none of them empty, a timeout
-- or an error, the connection serves
-- exactly these frames in their order, ends as serving them one after the other does, and keeps
-- no byte if it goes on.
pub handle_connection-Serves :
    {W C Json : Type 0} (state : AppState W C Json) (socket : Socket W) (max_frame_bytes : ℕ)
    (reads : List Read) (fs : List (Bytes × Bool)) (w : W)
    → All BringsBytes reads
    → All (IsWellFormed max_frame_bytes) fs
    → stream reads ≡ wire fs
    → Serves
        (serve state socket)
        max_frame_bytes
        fs
        w
        (handle_connection state socket max_frame_bytes reads w)
unfolding handle_connection
handle_connection-Serves state socket max reads fs w b wf e =
    stream-Serves (serve state socket) max reads fs w b wf e
