-- ===== src/Tcp/Connection/Alike.antt =====
-- Two runs of the loops of `handle_connection`, src/tcp_listener.rs, in which each frame is served
-- alike.
use realtime_ingestion.Base.{
  ℕ, zero, suc, ◌+◌, ◌≡◌, refl, ap, subst, Bool, Option, none, some, List, [], ◌∷◌, ◌++◌, Bytes,
  length,
}
use realtime_ingestion.Tcp.Frame.{extract_frame}
use realtime_ingestion.Tcp.Connection.{
  Read, received, read_error, idle_timeout, Exit, Connection, served, after_frame, round, drain,
  on_data, on_read, after_read, read_loop,
}

module _ {W V : Type 0} (serve : Bytes × Bool → W → Option Exit × W)
    (serve' : Bytes × Bool → V → Option Exit × V) (R : W → V → Type 0)
    (alike : (f : Bytes × Bool) (w : W) (v : V)
      → R w v
      → ((serve f w).0 ≡ (serve' f v).0) × R (serve f w).1 (serve' f v).1)
    (max : ℕ) where
  -- The same variables, and related worlds.
  pub record Alike (c : Connection W) (d : Connection V) : Type 0 where
    pub buf : c.buf ≡ d.buf
    pub total_bytes : c.total_bytes ≡ d.total_bytes
    pub frame_count : c.frame_count ≡ d.frame_count
    pub world : R c.world d.world

  -- The same end, or none.
  abbrev pub Ended : Option Exit × Connection W → Option Exit × Connection V → Type 0
  Ended r s = (r.0 ≡ s.0) × Alike r.1 s.1

  abbrev Agree :
      (Connection W → Option Exit × Connection W)
      → (Connection V → Option Exit × Connection V)
      → Type 0
  Agree again again' =
      (c : Connection W) (d : Connection V) → Alike c d → Ended (again c) (again' d)

  after_frame-Ended :
      (again : Connection W → Option Exit × Connection W)
      (again' : Connection V → Option Exit × Connection V) (c : Connection W) (d : Connection V)
      (buf : Bytes) (r : Option Exit × W) (s : Option Exit × V)
      → Agree again again'
      → Alike c d
      → r.0 ≡ s.0
      → R r.1 s.1
      → Ended (after_frame serve max again c buf r) (after_frame serve' max again' d buf s)
  after_frame-Ended again again' c d buf (some e, w) (some x, v) g a p q = (
    p,
    record {
      buf = refl;
      total_bytes = a.total_bytes;
      frame_count = ap (λ (n : ℕ). n + 1) a.frame_count;
      world = q;
    },
  )
  after_frame-Ended again again' c d buf (some e, w) (none, v) g a p q = absurd (cc p)
  after_frame-Ended again again' c d buf (none, w) (some x, v) g a p q = absurd (cc p)
  after_frame-Ended again again' c d buf (none, w) (none, v) g a p q =
      g (served serve max c buf w) (served serve' max d buf v) (record {
        buf = refl;
        total_bytes = a.total_bytes;
        frame_count = ap (λ (n : ℕ). n + 1) a.frame_count;
        world = q;
      })

  round-Ended :
      (again : Connection W → Option Exit × Connection W)
      (again' : Connection V → Option Exit × Connection V) (c : Connection W) (d : Connection V)
      (r : Option (Bytes × Bool) × Bytes)
      → Agree again again'
      → Alike c d
      → Ended (round serve max again c r) (round serve' max again' d r)
  round-Ended again again' c d (none, buf) g a = (
    refl,
    record {
      buf = refl;
      total_bytes = a.total_bytes;
      frame_count = a.frame_count;
      world = a.world;
    },
  )
  round-Ended again again' c d (some f, buf) g a =
      let (p, q) = alike f c.world d.world a.world in
      after_frame-Ended again again' c d buf (serve f c.world) (serve' f d.world) g a p q

  drain-Ended :
      (fuel : ℕ) (c : Connection W) (d : Connection V)
      → Alike c d
      → Ended (drain serve max fuel c) (drain serve' max fuel d)
  unfolding drain
  drain-Ended zero c d a = (refl, a)
  drain-Ended (suc fuel) c d a =
      subst
        (λ buf.
          Ended (round serve max (drain serve max fuel) c (extract_frame c.buf max))
            (round serve' max (drain serve' max fuel) d (extract_frame buf max)))
        a.buf
        (round-Ended (drain serve max fuel) (drain serve' max fuel) c d (extract_frame c.buf max)
          (drain-Ended fuel) a)

  on_data-Ended :
      (bytes : Bytes) (c : Connection W) (d : Connection V)
      → Alike c d
      → Ended (on_data serve max bytes c) (on_data serve' max bytes d)
  unfolding on_data
  on_data-Ended bytes c d a =
      subst
        (λ buf. Ended (on_data serve max bytes c) (
          drain serve' max (suc (length (buf ++ bytes)))
            (record d { buf = d.buf ++ bytes; total_bytes = d.total_bytes + length bytes })))
        a.buf
        (drain-Ended (suc (length (c.buf ++ bytes))) _ _ (record {
          buf = ap (λ (b : Bytes). b ++ bytes) a.buf;
          total_bytes = ap (λ (n : ℕ). n + length bytes) a.total_bytes;
          frame_count = a.frame_count;
          world = a.world;
        }))

  pub on_read-Ended :
      (r : Read) (c : Connection W) (d : Connection V)
      → Alike c d
      → Ended (on_read serve max r c) (on_read serve' max r d)
  unfolding on_read
  on_read-Ended read_error c d a = (refl, a)
  on_read-Ended idle_timeout c d a = (refl, a)
  on_read-Ended (received []) c d a = (refl, a)
  on_read-Ended (received (b ∷ bytes)) c d a = on_data-Ended (b ∷ bytes) c d a

  after_read-Ended :
      (again : Connection W → Option Exit × Connection W)
      (again' : Connection V → Option Exit × Connection V) (r : Option Exit × Connection W)
      (s : Option Exit × Connection V)
      → Agree again again'
      → Ended r s
      → Ended (after_read serve max again r) (after_read serve' max again' s)
  after_read-Ended again again' (some e, c) (some x, d) g h = h
  after_read-Ended again again' (some e, c) (none, d) g h = absurd (cc (h.0))
  after_read-Ended again again' (none, c) (some x, d) g h = absurd (cc (h.0))
  after_read-Ended again again' (none, c) (none, d) g h = g c d h.1

  pub read_loop-Ended :
      (rs : List Read) (c : Connection W) (d : Connection V)
      → Alike c d
      → Ended (read_loop serve max rs c) (read_loop serve' max rs d)
  unfolding read_loop
  read_loop-Ended [] c d a = (refl, a)
  read_loop-Ended (r ∷ rs) c d a =
      after_read-Ended (read_loop serve max rs) (read_loop serve' max rs) (on_read serve max r c)
        (on_read serve' max r d) (read_loop-Ended rs) (on_read-Ended r c d a)
