-- ===== src/Playloop/Stream.antt =====
-- acq400_drv.c, `xo400_write_fifo_dma`: what goes to the FIFO, as a stretch of the bytes that the
-- buffers hold one after the other.
use Prim.Native.Nat.{◌∣◌}
use native.Mathlib.Nat.{
  dvd_trans, dvd-sub, dvd-mul_left_of_dvd, div-mul-le_self, mul-div_cancel', lt-div-mul-add,
}
use acq400drv.Prelude.{
  ℕ, ◌+◌, ◌-◌, ◌*◌, ◌/◌, ◌^◌, ◌≤◌, ◌<◌, ◌≡◌, ◌⊎◌, inl, inr, true, false, List, [], ◌∷◌, ◌++◌, ◌||◌,
  refl, arith, Bool-cases, le_int,
}
use acq400drv.Playloop.{
  Piece, by_dma, by_pio, Settings, Sent, dma_memcpy, write_fifo, fit_buffer, write_fifo_dma,
}

-- The size of a buffer.
abbrev pub hb_len : Settings → ℕ
hb_len cfg = (cfg.hb 0).len

-- Where a piece begins in the row of buffers of `len` bytes, and its bytes.
abbrev pub start : ℕ → Piece → ℕ
start len (by_dma ib offset bytes) = ib * len + offset
start len (by_pio ib word nwords) = ib * len + 4 * word

abbrev pub size : Piece → ℕ
size (by_dma ib offset bytes) = bytes
size (by_pio ib word nwords) = 4 * nwords

-- The pieces are the bytes from `a` up to `b`, in order, with no gap and no byte twice.
abbrev pub Covers : ℕ → ℕ → List Piece → ℕ → Type 0
Covers len a [] b = a ≡ b
Covers len a (p ∷ ps) b = (start len p ≡ a) × Covers len (a + size p) ps b

pub Covers-append :
    (len a b c : ℕ) (ps qs : List Piece)
    → Covers len a ps b
    → Covers len b qs c
    → Covers len a (ps ++ qs) c
Covers-append len a b c [] qs h k = rw h k
Covers-append len a b c (p ∷ ps) qs h k = (h.0, Covers-append len (a + size p) b c ps qs h.1 k)

-- Samples are whole words, and blocks, DMA lengths and buffers are whole samples, below 2 GB, and so is the FIFO.
pub record Whole (cfg : Settings) : Type 0 where
  pub sample : 0 < cfg.aoss
  pub words : 4 ∣ cfg.aoss
  pub blocks : cfg.aoss ∣ cfg.max_fill_block
  pub block : 0 < cfg.max_fill_block
  pub dmas : cfg.aoss ∣ cfg.min_dma_bytes
  pub dma : 0 < cfg.min_dma_bytes
  pub buffers : cfg.aoss ∣ hb_len cfg
  pub buffer : 0 < hb_len cfg
  pub block_int : cfg.max_fill_block < 2 ^ 31
  pub dma_int : cfg.min_dma_bytes < 2 ^ 31
  pub threshold_int : cfg.dma_threshold < 2 ^ 31
  pub buffer_int : hb_len cfg < 2 ^ 31
  pub fifo : 8 ≤ cfg.max_fifo_samples
  pub fifo_int : cfg.max_fifo_samples < 2 ^ 31

-- A transfer of at most `bytes` from `frombyte` on: none, with a negative result, or a stretch of
-- whole samples from there, of the length returned.
abbrev pub Transfers : Settings → ℕ → ℕ → Sent → Type 0
Transfers cfg frombyte bytes (ps, n) =
    ((ps ≡ []) × (n ≡ 2 ^ 32 - 1) × (cfg.has_memcpy_chan || cfg.has_chan0 ≡ false))
    ⊎ (Covers (hb_len cfg) frombyte ps (frombyte + n) × (cfg.aoss ∣ n) × (n ≤ bytes) × (0 < n))

pub rounded_pos : (n m : ℕ) → 0 < m → m ≤ n → 0 < n / m * m
rounded_pos n m pos le = omega (arith, lt-div-mul-add {a = n} {b = m} pos)

module _ (cfg : Settings) (w : Whole cfg) (frombyte : ℕ) where
  abbrev pub offset : ℕ
  offset = frombyte - frombyte / hb_len cfg * hb_len cfg

  pub whole_block : frombyte / hb_len cfg * hb_len cfg ≤ frombyte
  whole_block = div-mul-le_self frombyte (hb_len cfg)

  pub offset-lt : offset < hb_len cfg
  offset-lt = omega (arith, lt-div-mul-add {a = frombyte} {b = hb_len cfg} w.buffer, whole_block)

  pub offset_sample : cfg.aoss ∣ frombyte → cfg.aoss ∣ offset
  offset_sample h =
      dvd-sub cfg.aoss h (dvd-mul_left_of_dvd cfg.aoss w.buffers (frombyte / hb_len cfg))

  memcpy-Transfers :
      (n bytes : ℕ)
      → cfg.aoss ∣ n
      → n ≤ bytes
      → 0 < n
      → Transfers cfg frombyte bytes (dma_memcpy cfg (frombyte / hb_len cfg) offset n)
  unfolding dma_memcpy
  memcpy-Transfers n bytes d le pos = elim (Bool-cases (cfg.has_memcpy_chan || cfg.has_chan0)) [
    | inl e ↦ rw e (inr ((omega (arith, whole_block), refl), d, le, pos))
    | inr e ↦ rw e (inl (refl, refl, refl))
  ]

  pio-Transfers :
      (n bytes : ℕ)
      → cfg.aoss ∣ frombyte
      → cfg.aoss ∣ n
      → n ≤ bytes
      → 0 < n
      → Transfers cfg frombyte bytes (write_fifo cfg frombyte n)
  unfolding write_fifo
  pio-Transfers n bytes f d le pos =
      let o : 4 * (offset / 4) ≡ offset =
        mul-div_cancel' 4 (dvd_trans 4 w.words (offset_sample f)) in
      let m : 4 * (n / 4) ≡ n = mul-div_cancel' 4 (dvd_trans 4 w.words d) in
      inr ((omega (arith, o, whole_block), omega (arith, m)), d, le, pos)

  fit_buffer-cases :
      (bytes : ℕ)
      → bytes < 2 ^ 31
      → let n = fit_buffer cfg (frombyte / hb_len cfg) offset bytes in
        (n ≡ bytes) ⊎ ((n ≡ hb_len cfg - offset) × (hb_len cfg < offset + bytes))
  unfolding fit_buffer
  fit_buffer-cases bytes small = ground (arith, offset-lt, w.buffer_int)

  -- What is left of a transfer after the cut at the end of the buffer.
  fit_buffer_lem :
      (bytes : ℕ)
      → cfg.aoss ∣ frombyte
      → cfg.aoss ∣ bytes
      → 0 < bytes
      → bytes < 2 ^ 31
      → let n = fit_buffer cfg (frombyte / hb_len cfg) offset bytes in
        (cfg.aoss ∣ n) × (n ≤ bytes) × (0 < n)
  fit_buffer_lem bytes f d pos small = elim (fit_buffer-cases bytes small) [
    | inl e ↦ rw e (d, omega arith, pos)
    | inr (e, over) ↦
        rw e (dvd-sub cfg.aoss w.buffers (offset_sample f), omega arith, omega (arith, offset-lt))
  ]

  le_int-cases :
      (n : ℕ)
      → n < 2 ^ 31
      → ((le_int cfg.min_dma_bytes n ≡ true) × (cfg.min_dma_bytes ≤ n))
        ⊎ (le_int cfg.min_dma_bytes n ≡ false)
  le_int-cases n small = ground (arith, w.dma_int)

  Transfers-weaken :
      (m n : ℕ) (s : Sent) → m ≤ n → Transfers cfg frombyte m s → Transfers cfg frombyte n s
  Transfers-weaken m n s le (inl t) = inl t
  Transfers-weaken m n s le (inr (c, d, k, p)) = inr (c, d, omega arith, p)

  -- A transfer of whole samples sends a stretch of whole samples from its start, or fails for want of
  -- a DMA channel.
  pub write_fifo_dma-Transfers :
      (bytes : ℕ)
      → cfg.aoss ∣ frombyte
      → cfg.aoss ∣ bytes
      → 0 < bytes
      → bytes < 2 ^ 31
      → Transfers cfg frombyte bytes (write_fifo_dma cfg frombyte bytes)
  unfolding write_fifo_dma
  write_fifo_dma-Transfers bytes f d pos small =
      let n = fit_buffer cfg (frombyte / hb_len cfg) offset bytes in
      let (dn, le, npos) = fit_buffer_lem bytes f d pos small in
      let min = cfg.min_dma_bytes in
      elim (le_int-cases n (omega arith)) [
        | inl (e, big) ↦ rw e (
            Transfers-weaken n bytes _ le (
              memcpy-Transfers (n / min * min) n (dvd-mul_left_of_dvd cfg.aoss w.dmas (n / min))
                (div-mul-le_self n min) (rounded_pos n min w.dma big)))
        | inr e ↦ rw e (pio-Transfers n bytes f dn le npos)
      ]
