-- ===== src/Playloop/Round.antt =====
-- acq400_drv.c, one round of `xo400_fill_fifo`: the samples from the cursor on go to the FIFO, and no
-- more of them than the FIFO has room for.
use Prim.Native.Nat.{◌∣◌}
use native.Mathlib.Nat.{
  dvd-mul_left, dvd-mul_left_of_dvd, div-mul_cancel, div-mul-le_self, le_of_mul-le-mul_right,
  mul-le-mul_right, add-mul, div-mul-le_self,
}
use acq400drv.Prelude.{
  ℕ, zero, suc, ◌+◌, ◌-◌, ◌*◌, ◌/◌, ◌%◌, ◌^◌, ◌≤◌, ◌<◌, min, max, ◌≡◌, ◌⊎◌, inl, inr, Bool, true,
  false, List, [], ◌∷◌, ◌++◌, ◌||◌, ◌&&◌, refl, arith, Bool-cases, lt_int, min_int, sub32, ◌==◌,
  sub32-le, ap,
}
use acq400drv.Playloop.{
  Piece, Settings, Sent, XoDev, Filled, broke, filled, write_fifo_dma, advance, fill_block,
  fill_once,
}
use acq400drv.Playloop.Stream.{
  hb_len, Covers, Whole, Transfers, rounded_pos, write_fifo_dma-Transfers,
}

-- The loop's samples fit in 2 GB, and the cursor has not passed its end.
pub record InLoop (cfg : Settings) (x : XoDev) : Type 0 where
  pub loop_int : x.playloop.length * cfg.aoss < 2 ^ 31
  pub length_int : x.playloop.length < 2 ^ 31
  pub inside : x.playloop.cursor ≤ x.playloop.length

-- From `x` to `x'` the samples from the old cursor up to the new one went to the FIFO, and nothing
-- else changed.
pub record Plays (cfg : Settings) (x x' : XoDev) : Type 0 where
  pub pieces : List Piece
  pub log : x'.sent ≡ x.sent ++ pieces
  pub stretch :
      Covers (hb_len cfg) (x.playloop.cursor * cfg.aoss) pieces (x'.playloop.cursor * cfg.aoss)
  pub onward : x.playloop.cursor ≤ x'.playloop.cursor
  pub within : x'.playloop.cursor ≤ x.playloop.length
  pub rest :
      x'
      ≡ (record x { playloop = record x.playloop { cursor = x'.playloop.cursor }; sent = x'.sent })

-- What `x` became, however the round ended.
abbrev pub after : Filled → XoDev
after (broke x) = x
after (filled x) = x

module _ (cfg : Settings) (w : Whole cfg) where
  -- The cursor after `n` bytes of whole samples, `k` samples at most.
  cursor_after :
      (c k n l : ℕ)
      → cfg.aoss ∣ n
      → n ≤ k * cfg.aoss
      → c + k ≤ l
      → l < 2 ^ 31
      → ((c + n / cfg.aoss) % 2 ^ 32 ≡ c + n / cfg.aoss)
        × (n / cfg.aoss ≤ k)
        × ((c + n / cfg.aoss) * cfg.aoss ≡ c * cfg.aoss + n)
  cursor_after c k n l d le fits small =
      let e : n / cfg.aoss * cfg.aoss ≡ n = div-mul_cancel cfg.aoss d in
      let q : n / cfg.aoss ≤ k =
        le_of_mul-le-mul_right {k = cfg.aoss} (omega (arith, e)) w.sample in
      (omega (arith, q), q, omega (arith, e, add-mul c (n / cfg.aoss) cfg.aoss))

  pos_factor : (q s n : ℕ) → q * s ≡ n → 0 < n → 0 < q
  pos_factor zero s n e h = absurd (omega arith)
  pos_factor (suc q) s n e h = omega arith

  abbrev pub has_channel : Bool
  has_channel = cfg.has_memcpy_chan || cfg.has_chan0

  -- A round: what it plays, at most `k` samples, and one at least unless it breaks off, which wants a
  -- reason.
  abbrev pub Round : XoDev → ℕ → Type 0 → Filled → Type 0
  Round x k Reason f =
      Plays cfg x (after f)
      × ((after f).playloop.cursor ≤ x.playloop.cursor + k)
      × (((f ≡ broke (after f)) × Reason)
          ⊎ ((f ≡ filled (after f)) × (x.playloop.cursor < (after f).playloop.cursor)))

  -- Nothing is sent.
  pub Plays-refl : (x : XoDev) → InLoop cfg x → Plays cfg x x
  Plays-refl x h = record {
    pieces = [];
    log = nil x.sent;
    stretch = refl;
    onward = omega arith;
    within = h.inside;
    rest = refl;
  }
    where
      nil : (ps : List Piece) → ps ≡ ps ++ []
      nil [] = refl
      nil (p ∷ ps) = ap (◌∷◌ p) (nil ps)

  advance-Round :
      (x : XoDev) (k bytes : ℕ) (Reason : Type 0) (s : Sent)
      → (has_channel ≡ false → Reason)
      → InLoop cfg x
      → x.playloop.cursor + k ≤ x.playloop.length
      → bytes ≤ k * cfg.aoss
      → bytes < 2 ^ 31
      → Transfers cfg (x.playloop.cursor * cfg.aoss) bytes s
      → Round x k Reason (advance cfg x s)
  unfolding advance
  advance-Round x k bytes Reason (ps, n) failing h fits le small (inl (e, m, c)) =
      rw (m, e)
        (
          record {
            pieces = [];
            log = refl;
            stretch = refl;
            onward = omega arith;
            within = h.inside;
            rest = refl;
          },
          omega arith,
          inl (refl, failing c),
        )
  advance-Round x k bytes Reason (ps, n) failing h fits le small (inr (cov, d, nle, pos)) =
      let c = x.playloop.cursor in
      let (wrap, q, prod) =
        cursor_after c k n x.playloop.length d (omega arith) fits h.length_int in
      let sign : lt_int n 0 ≡ false = ground arith in
      rw (sign, wrap)
        (
          record {
            pieces = ps;
            log = refl;
            stretch = rw prod cov;
            onward = omega arith;
            within = omega (arith, q);
            rest = refl;
          },
          omega (arith, q),
          inr (
            refl,
            omega (arith, pos_factor (n / cfg.aoss) cfg.aoss n (div-mul_cancel cfg.aoss d) pos),
          ),
        )

  -- The block that a round sends: whole samples, of what is left and fits.
  block_lem :
      (k : ℕ)
      → 0 < k
      → k * cfg.aoss < 2 ^ 31
      → let n = min_int (k * cfg.aoss % 2 ^ 32) cfg.max_fill_block in
        (cfg.aoss ∣ n) × (n ≤ k * cfg.aoss) × (0 < n)
  block_lem k pos small =
      let pk : 0 < k * cfg.aoss = omega (arith, mul-le-mul_right {n = k} cfg.aoss pos, w.sample) in
      elim (block-cases (k * cfg.aoss) small) [
        | inl (e, le) ↦ rw e (dvd-mul_left cfg.aoss k, omega arith, pk)
        | inr (e, le) ↦ rw e (w.blocks, le, w.block)
      ]
    where
      block-cases :
          (b : ℕ)
          → b < 2 ^ 31
          → ((min_int (b % 2 ^ 32) cfg.max_fill_block ≡ b) × (b ≤ b))
            ⊎ ((min_int (b % 2 ^ 32) cfg.max_fill_block ≡ cfg.max_fill_block)
                × (cfg.max_fill_block ≤ b))
      block-cases b h = ground (arith, w.block_int)

  Round-weaken :
      (x : XoDev) (j k : ℕ) (Reason : Type 0) (f : Filled)
      → j ≤ k
      → Round x j Reason f
      → Round x k Reason f
  Round-weaken x j k Reason f le (p, c, o) = (p, omega arith, o)

  -- The DMA or PIO transfer of a block from the cursor on.
  transfer-Round :
      (x : XoDev) (k n : ℕ) (Reason : Type 0)
      → (has_channel ≡ false → Reason)
      → InLoop cfg x
      → x.playloop.cursor + k ≤ x.playloop.length
      → k * cfg.aoss < 2 ^ 31
      → cfg.aoss ∣ n
      → n ≤ k * cfg.aoss
      → 0 < n
      → Round x k Reason (advance cfg x (write_fifo_dma cfg (x.playloop.cursor * cfg.aoss) n))
  transfer-Round x k n Reason failing h fits small d le pos =
      let from : cfg.aoss ∣ x.playloop.cursor * cfg.aoss =
        dvd-mul_left cfg.aoss x.playloop.cursor in
      advance-Round x k n Reason _ failing h fits le (omega arith)
        (write_fifo_dma-Transfers cfg w (x.playloop.cursor * cfg.aoss) n from d pos (omega arith))

  -- A block of `n` bytes, of `k` samples at most, whichever way it goes.
  fill_block-Round :
      (x : XoDev) (headroom left k n : ℕ) (Reason : Type 0)
      → (has_channel ≡ false → Reason)
      → (lt_int headroom left ≡ true → Reason)
      → InLoop cfg x
      → x.playloop.cursor + k ≤ x.playloop.length
      → k * cfg.aoss < 2 ^ 31
      → cfg.aoss ∣ n
      → n ≤ k * cfg.aoss
      → 0 < n
      → Round x k Reason (fill_block cfg headroom left n x)
  unfolding fill_block
  fill_block-Round x headroom left k n Reason failing short h fits small d le pos =
      let m = cfg.min_dma_bytes in
      let wrap : x.playloop.cursor * cfg.aoss % 2 ^ 32 ≡ x.playloop.cursor * cfg.aoss =
        omega (arith, mul-le-mul_right {m = x.playloop.cursor} cfg.aoss h.inside, h.loop_int) in
      elim (Bool-cases (cfg.has_chan0 && lt_int (max m cfg.dma_threshold) n)) [
        | inl e ↦
            rw (wrap, e)
              (transfer-Round x k (n / m * m) Reason failing h fits small
                (dvd-mul_left_of_dvd cfg.aoss w.dmas (n / m)) (omega (arith, div-mul-le_self n m))
                (rounded_pos n m w.dma (ground (arith, w.dma_int, w.threshold_int))))
        | inr e ↦ elim (Bool-cases (lt_int headroom left)) [
          | inl r ↦ rw (wrap, e, r) (Plays-refl x h, omega arith, inl (refl, short r))
          | inr r ↦ rw (wrap, e, r) (transfer-Round x k n Reason failing h fits small d le pos)
        ]
      ]

  -- A round that finds room plays whole samples from the cursor on, within the loop and the room. It
  -- breaks off only for want of a DMA channel or of room for all that is left.
  pub fill_once-Round :
      (x : XoDev) (headroom : ℕ)
      → InLoop cfg x
      → x.playloop.cursor < x.playloop.length
      → 0 < headroom
      → headroom < 2 ^ 31
      → Round x headroom
          ((has_channel ≡ false) ⊎ (headroom < x.playloop.length - x.playloop.cursor))
          (fill_once cfg headroom x)
  unfolding fill_once
  fill_once-Round x headroom h more some_room room_int =
      let c = x.playloop.cursor in
      let l = x.playloop.length in
      let k = min (l - c) headroom in
      let left : sub32 l c ≡ l - c = sub32-le l c h.inside (omega (arith, h.length_int)) in
      let least : min_int (l - c) headroom ≡ k = ground (arith, h.length_int) in
      let some : (k == 0) ≡ false = ground arith in
      let small : k * cfg.aoss < 2 ^ 31 =
        omega (arith, mul-le-mul_right {m = k} {n = l} cfg.aoss (omega arith), h.loop_int) in
      let (d, le, pos) = block_lem k (omega arith) small in
      rw (left, least, some)
        (Round-weaken x k headroom _ _ (omega arith) (
          fill_block-Round x headroom (l - c) k (min_int (k * cfg.aoss % 2 ^ 32) cfg.max_fill_block)
            _ (λ e. inl e) (λ e. inr (ground (arith, h.length_int))) h (omega arith) small d le
            pos))
