-- ===== src/Playloop/Shots.antt =====
-- acq400_drv.c, `xo400_fill_fifo` as a whole: when a call sends all that is left, when it can send
-- nothing, and how one-shots end.
use native.Mathlib.Nat.{mul-le-mul_right}
use acq400drv.Prelude.{
  ℕ, zero, suc, ◌+◌, ◌-◌, ◌*◌, ◌%◌, ◌^◌, ◌≤◌, ◌<◌, max, ◌≡◌, ◌⊎◌, ◌∙◌, inl, inr, Bool, true, false,
  ◌||◌, ◌&&◌, refl, arith, lt_int, min_int, sub32, ◌==◌, sub32-le, sym,
}
use acq400drv.Playloop.{
  Settings, XoDev, broke, fill_block, fill_once, wants_more, fill_loop, fifo_headroom,
  fill_threshold, end_of_fill, fill_fifo, Look, Wanting, check_fiferr, to_cursor,
}
use acq400drv.Playloop.Stream.{Whole}
use acq400drv.Playloop.Round.{InLoop, after, fill_once-Round}
use acq400drv.Playloop.Fill.{
  fill_loop-breaks, fill_loop-stops, fill_loop-goes_on, fifo_headroom-lt, Plays-InLoop, same_length,
  wants_more_lem,
}

-- No block is ever sent by DMA.
abbrev pub NoDma : Settings → Type 0
NoDma cfg = (cfg.has_chan0 ≡ false) ⊎ (cfg.max_fill_block ≤ max cfg.min_dma_bytes cfg.dma_threshold)

-- Before the end of the loop only the FIFO's errors are looked at.
end_of_fill-unfinished :
    (fifo_sta : ℕ) (x : XoDev) (rc : Bool)
    → x.playloop.cursor < x.playloop.length
    → end_of_fill fifo_sta (x, rc) ≡ (check_fiferr fifo_sta x, rc)
unfolding end_of_fill
end_of_fill-unfinished fifo_sta x rc h = ground arith

module _ (cfg : Settings) (w : Whole cfg) where
  fill_block-starved :
      (x : XoDev) (headroom left n : ℕ)
      → NoDma cfg
      → n ≤ cfg.max_fill_block
      → headroom < left
      → left < 2 ^ 31
      → fill_block cfg headroom left n x ≡ broke x
  unfolding fill_block
  fill_block-starved x headroom left n no_dma le more small =
      let e : cfg.has_chan0 && lt_int (max cfg.min_dma_bytes cfg.dma_threshold) n ≡ false =
        ground (arith, no_dma, w.dma_int, w.threshold_int, w.block_int) in
      let r : lt_int headroom left ≡ true = ground arith in rw (e, r, fill_block) refl

  fill_once-starved :
      (x : XoDev) (headroom : ℕ)
      → InLoop cfg x
      → NoDma cfg
      → 0 < headroom
      → headroom < x.playloop.length - x.playloop.cursor
      → fill_once cfg headroom x ≡ broke x
  unfolding fill_once
  fill_once-starved x headroom h no_dma room more =
      let c = x.playloop.cursor in
      let l = x.playloop.length in
      let left : sub32 l c ≡ l - c = sub32-le l c h.inside (omega (arith, h.length_int)) in
      let least : min_int (l - c) headroom ≡ headroom = ground (arith, h.length_int) in
      let some : (headroom == 0) ≡ false = ground arith in
      let small : headroom * cfg.aoss < 2 ^ 31 =
        omega (arith, mul-le-mul_right {m = headroom} {n = l} cfg.aoss (omega arith), h.loop_int) in
      rw (left, least, some, fill_once)
        (fill_block-starved x headroom (l - c) _ no_dma (at_most (headroom * cfg.aoss) small) more
          (omega (arith, h.length_int)))
    where
      at_most : (b : ℕ) → b < 2 ^ 31 → min_int (b % 2 ^ 32) cfg.max_fill_block ≤ cfg.max_fill_block
      at_most b small = ground (arith, w.block_int)

  -- Let the blocks not be above the DMA threshold, or there be no DMA channel, let the mutex be
  -- obtained, samples be left and the FIFO's room be above the fill threshold, but let more samples be
  -- left than there is room for. Then `xo400_fill_fifo` sends nothing, however empty the FIFO is, and
  -- asks for the next interrupt: the device is as it was but for an error that the FIFO shows.
  pub fill_fifo-starved :
      (look : Look) (x : XoDev)
      → InLoop cfg x
      → NoDma cfg
      → look.no_lock ≡ false
      → let headroom = fifo_headroom cfg (look.samples 999) in
        wants_more cfg headroom x ≡ true
        → headroom < x.playloop.length - x.playloop.cursor
        → fill_fifo cfg look x ≡ (check_fiferr look.fifo_sta x, true)
  unfolding fill_fifo
  fill_fifo-starved look x h no_dma lock wants more =
      let headroom = fifo_headroom cfg (look.samples 999) in
      let (_, room) = wants_more_lem cfg w headroom x wants in
      let e =
        fill_loop-breaks cfg w look.samples 999 x x false wants
          (fill_once-starved x headroom h no_dma room more) in
      rw (lock, e, fill_fifo) (end_of_fill-unfinished look.fifo_sta x true (omega arith))

-- The play reaches the end of the loop, and `xo400_fill_fifo` its last lines.
abbrev pub reach_end : ℕ → XoDev → Wanting
reach_end fifo_sta x = end_of_fill fifo_sta (to_cursor x.playloop.length x, true)

-- The play has reached the end `n` times.
pub play_shots : ℕ → ℕ → XoDev → XoDev
play_shots fifo_sta zero x = x
play_shots fifo_sta (suc n) x = (reach_end fifo_sta (play_shots fifo_sta n x)).0

-- `y` plays the loop of `x`, with `r` repeats left.
pub record Playing (x : XoDev) (r : ℕ) (y : XoDev) : Type 0 where
  pub same_length : y.playloop.length ≡ x.playloop.length
  pub same_oneshot : y.playloop.oneshot ≡ x.playloop.oneshot
  pub repeats_left : y.playloop.repeats ≡ r
  pub same_interrupt : y.interrupt ≡ x.interrupt
  pub same_rearms : y.rearms ≡ x.rearms
  pub rewound : y.playloop.cursor ≡ 0

-- `z` is `x` after its last shot.
pub record Over (x z : XoDev) : Type 0 where
  pub disabled : z.interrupt ≡ false
  pub rearmed : z.rearms ≡ x.rearms + 1
  pub none_left : z.playloop.repeats ≡ 0

module _ (fifo_sta : ℕ) (x : XoDev) where
  reach_end-Playing :
      (r : ℕ) (y : XoDev)
      → Playing x r y
      → 0 < x.playloop.length
      → 0 < x.playloop.oneshot
      → 1 < r
      → Playing x (r - 1) (reach_end fifo_sta y).0 × ((reach_end fifo_sta y).1 ≡ true)
  unfolding end_of_fill check_fiferr
  reach_end-Playing r y p l o more = ground (arith, p)

  reach_end-Over :
      (r : ℕ) (y : XoDev)
      → Playing x r y
      → 0 < x.playloop.length
      → 0 < x.playloop.oneshot
      → r ≤ 1
      → Over x (reach_end fifo_sta y).0 × ((reach_end fifo_sta y).1 ≡ false)
  unfolding end_of_fill
  reach_end-Over r y p l o last = ground (arith, p)

  play_shots-Playing :
      (n r : ℕ)
      → x.playloop.repeats ≡ r + n
      → x.playloop.cursor ≡ 0
      → 0 < r
      → 0 < x.playloop.length
      → 0 < x.playloop.oneshot
      → Playing x r (play_shots fifo_sta n x)
  unfolding play_shots
  play_shots-Playing zero r e start pos l o = ground (arith)
  play_shots-Playing (suc n) r e start pos l o =
      let (p, _) =
        reach_end-Playing (suc r) (play_shots fifo_sta n x)
          (play_shots-Playing n (suc r) (omega arith) start (omega arith) l o) l o (omega arith) in
      let e : suc r - 1 ≡ r = omega arith in rw e at p

-- A one-shot of a loop that is not empty, from its cursor at 0, comes to the end of the loop as often
-- as `repeats` says, and once if it says 0: before the last time each end puts the cursor back to 0,
-- so that the loop is played again from its start, takes one repeat, and leaves the length, the
-- interrupt and the rearming as they were; after the last time the interrupt is off, the rearming has
-- begun, and no repeat is left.
pub play_shots-Over :
    (fifo_sta : ℕ) (x : XoDev)
    → x.playloop.cursor ≡ 0
    → 0 < x.playloop.length
    → 0 < x.playloop.oneshot
    → let r = x.playloop.repeats in
      ((n : ℕ) → n < max r 1 → Playing x (r - n) (play_shots fifo_sta n x))
      × Over x (play_shots fifo_sta (max r 1) x)
unfolding play_shots
play_shots-Over fifo_sta x start l o =
    let k = max x.playloop.repeats 1 - 1 in
    let e : max x.playloop.repeats 1 ≡ suc k = omega arith in (before, rw e (over k (sym e)))
  where
    before :
        (n : ℕ)
        → n < max x.playloop.repeats 1
        → Playing x (x.playloop.repeats - n) (play_shots fifo_sta n x)
    before zero h = ground arith
    before (suc n) h =
        play_shots-Playing fifo_sta x (suc n) (x.playloop.repeats - suc n) (omega arith) start
          (omega arith) l o

    over : (k : ℕ) → suc k ≡ max x.playloop.repeats 1 → Over x (play_shots fifo_sta (suc k) x)
    over k e =
        let last = x.playloop.repeats - k in
        (reach_end-Over fifo_sta x last (play_shots fifo_sta k x) (before k (omega arith)) l o
          (omega arith)).0

module _ (cfg : Settings) (w : Whole cfg) where
  wants_more-cases :
      (headroom : ℕ) (x : XoDev)
      → fill_threshold cfg < headroom
      → ((wants_more cfg headroom x ≡ true) × (x.playloop.cursor < x.playloop.length))
        ⊎ ((wants_more cfg headroom x ≡ false) × (x.playloop.length ≤ x.playloop.cursor))
  unfolding wants_more
  wants_more-cases headroom x room = ground arith

  -- With a DMA channel, and a FIFO whose room is above the fill threshold and enough for all that is
  -- left whenever it is looked at, a loop of `n` rounds (the code's has 1000) over blocks, DMA sizes
  -- and buffers of whole samples brings a shot with at most `n` samples left to its end.
  pub fill_loop-all :
      (samples : ℕ → ℕ) (n : ℕ) (x : XoDev) (rc : Bool)
      → InLoop cfg x
      → cfg.has_memcpy_chan || cfg.has_chan0 ≡ true
      → ((i : ℕ)
          → (fill_threshold cfg < fifo_headroom cfg (samples i))
            × (x.playloop.length - x.playloop.cursor ≤ fifo_headroom cfg (samples i)))
      → x.playloop.length - x.playloop.cursor ≤ n
      → (fill_loop cfg samples n x rc).0.playloop.cursor ≡ x.playloop.length
  unfolding fill_loop
  fill_loop-all samples zero x rc h channel room enough = omega (arith, h.inside)
  fill_loop-all samples (suc n) x rc h channel room enough =
      let headroom = fifo_headroom cfg (samples n) in
      let f = fill_once cfg headroom x in
      elim (wants_more-cases headroom x (room n).0) [
        | inr (e, done) ↦ rw (fill_loop-stops cfg w samples n x rc e) (omega (arith, h.inside))
        | inl (e, more) ↦
            let (p, _, o) =
              fill_once-Round cfg w x headroom h more (omega (arith, room n))
                (fifo_headroom-lt cfg w (samples n)) in
            elim o [
              | inl (_, inl c) ↦ absurd (cc)
              | inl (_, inr short) ↦ absurd (omega (arith, room n))
              | inr (b, onward) ↦
                  let y = after f in
                  let len = same_length cfg w x y p in
                  rw (fill_loop-goes_on cfg w samples n x y rc e b) (
                    fill_loop-all samples n y true (Plays-InLoop cfg w x y p h) channel
                      (λ i. ((room i).0, omega (arith, room i, len))) (omega (arith, len))
                    ∙ len)
            ]
      ]
