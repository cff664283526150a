-- ===== src/Tcp/Connection/Drain.antt =====
-- The fuel of the inner loop of `handle_connection`, src/tcp_listener.rs.
use realtime_ingestion.Base.{
  ℕ, zero, suc, ◌<◌, ◌≡◌, refl, Bool, Option, none, some, Bytes, length, arith, ◌∙◌,
}
use realtime_ingestion.Tcp.Frame.{extract_frame}
use realtime_ingestion.Tcp.Frame.Invert.{extract_frame_shrinks}
use realtime_ingestion.Tcp.Connection.{Connection, Exit, served, after_frame, round, drain}

module _ {W : Type 0} (serve_frame : Bytes × Bool → W → Option Exit × W) (max : ℕ) where
  abbrev again_from : ℕ → Connection W → Option Exit × Connection W
  again_from n = drain serve_frame max n

  after_frame_same :
      (m n : ℕ) (c : Connection W) (buf : Bytes) (r : Option Exit × W)
      → ((w : W)
          → again_from m (served serve_frame max c buf w)
            ≡ again_from n (served serve_frame max c buf w))
      → after_frame serve_frame max (again_from m) c buf r
        ≡ after_frame serve_frame max (again_from n) c buf r
  after_frame_same m n c buf (some e, w) same = refl
  after_frame_same m n c buf (none, w) same = same w

  round_same :
      (m n : ℕ) (c : Connection W) (r : Option (Bytes × Bool) × Bytes)
      → extract_frame c.buf max ≡ r
      → ((w : W) (buf : Bytes)
          → length buf < length c.buf
          → again_from m (served serve_frame max c buf w)
            ≡ again_from n (served serve_frame max c buf w))
      → round serve_frame max (again_from m) c r ≡ round serve_frame max (again_from n) c r
  round_same m n c (none, buf) e same = refl
  round_same m n c (some f, buf) e same =
      after_frame_same m n c buf (serve_frame f c.world)
        (λ w. same w buf (extract_frame_shrinks max c.buf buf f e))

  -- Any fuel above the length of the buffer gives the same result.
  pub drain-fuel :
      (m n : ℕ) (c : Connection W)
      → length c.buf < m
      → length c.buf < n
      → drain serve_frame max m c ≡ drain serve_frame max n c
  unfolding drain
  drain-fuel zero n c h k = absurd (omega arith)
  drain-fuel (suc m) zero c h k = absurd (omega arith)
  drain-fuel (suc m) (suc n) c h k =
      round_same m n c (extract_frame c.buf max) refl
        (λ w buf l. drain-fuel m n (served serve_frame max c buf w) (omega arith) (omega arith))

  -- With more fuel than bytes in the buffer the loop satisfies the equation of the `while let`: a
  -- round on what `extract_frame` gives, with the same loop behind it. So it never runs out of fuel.
  pub drain_equation :
      (fuel : ℕ) (c : Connection W)
      → length c.buf < fuel
      → drain serve_frame max fuel c
        ≡ round serve_frame max (drain serve_frame max fuel) c (extract_frame c.buf max)
  drain_equation fuel c h = drain-fuel fuel (suc fuel) c h (omega arith) ∙ unfold drain in refl
