-- ===== src/Playloop/Fill.antt =====
-- acq400_drv.c, the loop of `xo400_fill_fifo`: the samples from the cursor on go to the FIFO, each once
-- and in order.
use acq400drv.Prelude.{ℕ, suc, ◌^◌, ◌<◌, ◌≡◌, ◌⊎◌, inl, inr, Bool, true, false, refl, arith, ap}
use acq400drv.Playloop.{
  Settings, XoDev, Filled, broke, filled, fill_once, wants_more, fill_loop, fifo_headroom,
}
use acq400drv.Playloop.Stream.{Whole}
use acq400drv.Playloop.Round.{InLoop, Plays, after}

module _ (cfg : Settings) (w : Whole cfg) where
  pub fifo_headroom-lt : (n : ℕ) → fifo_headroom cfg n < 2 ^ 31
  unfolding fifo_headroom
  fifo_headroom-lt n = ground (arith, w.fifo, w.fifo_int)

  pub same_length : (x y : XoDev) → Plays cfg x y → y.playloop.length ≡ x.playloop.length
  same_length x y p = ap (λ v. v.playloop.length) p.rest

  pub Plays-InLoop : (x y : XoDev) → Plays cfg x y → InLoop cfg x → InLoop cfg y
  Plays-InLoop x y p h =
      let e = same_length x y p in
      record { loop_int = rw e h.loop_int; length_int = rw e h.length_int; inside = rw e p.within }

  pub wants_more_lem :
      (headroom : ℕ) (x : XoDev)
      → wants_more cfg headroom x ≡ true
      → (x.playloop.cursor < x.playloop.length) × (0 < headroom)
  unfolding wants_more
  wants_more_lem headroom x h = ground arith

  pub Filled-cases : (f : Filled) → (f ≡ broke (after f)) ⊎ (f ≡ filled (after f))
  Filled-cases (broke x) = inl refl
  Filled-cases (filled x) = inr refl

  -- The three ways on from the top of the loop.
  pub fill_loop-stops :
      (samples : ℕ → ℕ) (n : ℕ) (x : XoDev) (rc : Bool)
      → wants_more cfg (fifo_headroom cfg (samples n)) x ≡ false
      → fill_loop cfg samples (suc n) x rc ≡ (x, rc)
  unfolding fill_loop
  fill_loop-stops samples n x rc e = rw (e, fill_loop) refl

  pub fill_loop-breaks :
      (samples : ℕ → ℕ) (n : ℕ) (x x' : XoDev) (rc : Bool)
      → wants_more cfg (fifo_headroom cfg (samples n)) x ≡ true
      → fill_once cfg (fifo_headroom cfg (samples n)) x ≡ broke x'
      → fill_loop cfg samples (suc n) x rc ≡ (x', true)
  unfolding fill_loop
  fill_loop-breaks samples n x x' rc e b = rw (e, b, fill_loop) refl

  pub fill_loop-goes_on :
      (samples : ℕ → ℕ) (n : ℕ) (x x' : XoDev) (rc : Bool)
      → wants_more cfg (fifo_headroom cfg (samples n)) x ≡ true
      → fill_once cfg (fifo_headroom cfg (samples n)) x ≡ filled x'
      → fill_loop cfg samples (suc n) x rc ≡ fill_loop cfg samples n x' true
  unfolding fill_loop
  fill_loop-goes_on samples n x x' rc e b = rw (e, b, fill_loop) refl
