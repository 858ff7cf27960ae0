-- ===== src/Playloop.antt =====
-- acq400_drv.c, the analog outputs played from memory through the FIFO: `xo400_fill_fifo` and what it
-- calls, with `xo400_write_fifo` of acq400_core.c and `dma_memcpy` of dma_shims.c. The buffers of
-- `adev->cursor.hb` are a function of the index. What goes to the FIFO is logged as pieces of the
-- buffers. How many samples the FIFO holds is read from the device each time: a parameter. Sizes of
-- type `int` are two's complement words; the module parameters are not negative. The interrupt is bit
-- 0 of ADC_INT_CSR. Priorities, log lines and the histogram have no state here.
pub mod Stream
pub mod Round
pub mod Fill
pub mod Shots
use acq400drv.Prelude.{
  ℕ, zero, suc, ◌+◌, ◌-◌, ◌*◌, ◌/◌, ◌%◌, ◌^◌, max, bit_and, Bool, true, false, not, ◌&&◌, ◌||◌,
  List, [], ◌∷◌, ◌++◌, ltb, leb, ◌==◌, if◌then◌else◌, sub32, lt_int, le_int, min_int,
}
use acq400drv.Device.{Hbm, truthy, incr32}

-- `struct AOPlayloop`, the part that playing uses; `oneshot` is 0 for AO_continuous, 1 for AO_oneshot
-- and 2 for AO_oneshot_rearm.
pub record AoPlayloop : Type 0 where
  pub length : ℕ
  pub cursor : ℕ
  pub oneshot : ℕ
  pub repeats : ℕ

-- One transfer to the FIFO: by DMA, `bytes` from physical address `pa` of buffer `ib` plus `offset`;
-- by PIO, `nwords` words of buffer `ib` from `word` on.
pub data Piece : Type 0 where
  by_dma : (ib offset bytes : ℕ) → Piece
  by_pio : (ib word nwords : ℕ) → Piece

-- `struct XO_dev`, with what has been sent to the FIFO and written to its status register.
pub record XoDev : Type 0 where
  pub playloop : AoPlayloop
  pub sent : List Piece
  pub fsr_writes : List ℕ
  pub fifo_errors : ℕ
  pub interrupt : Bool
  pub rearms : ℕ

-- The device's fixed properties and the module parameters. `aoss` is AOSS, the bytes of a sample.
pub record Settings : Type 0 where
  pub hb : ℕ → Hbm
  pub aoss : ℕ
  pub max_fifo_samples : ℕ
  pub max_fill_block : ℕ
  pub min_dma_bytes : ℕ
  pub dma_threshold : ℕ
  pub contiguous_pa : Bool
  -- `dma_chan[0]` and `dma_chan[DMACHAN_MEMCPY]` are there
  pub has_chan0 : Bool
  pub has_memcpy_chan : Bool
  pub use_distributor : Bool

-- A piece, and the `int` that the transfer returns.
abbrev pub Sent : Type 0
Sent = List Piece × ℕ

-- How the body of the loop ends: by `break`, or in its last line.
pub data Filled : Type 0 where
  broke filled : XoDev → Filled

module _ (cfg : Settings) where
  -- `dma_memcpy`: the length, or -1 without a channel. It does not tell how the wait ended.
  pub dma_memcpy : ℕ → ℕ → ℕ → Sent
  dma_memcpy ib offset bytes =
      if cfg.has_memcpy_chan || cfg.has_chan0
      then (by_dma ib offset bytes ∷ [], bytes)
      else ([], 2 ^ 32 - 1)

  pub write_fifo : ℕ → ℕ → Sent
  write_fifo frombyte bytes =
      let len = (cfg.hb 0).len in
      let ib = frombyte / len in
      let offset = frombyte - ib * len in (by_pio ib (offset / 4) (bytes / 4) ∷ [], bytes)

  -- A transfer that would run past the buffer's end stops there, unless the next one follows on.
  pub fit_buffer : ℕ → ℕ → ℕ → ℕ
  fit_buffer ib offset bytes =
      let len = (cfg.hb 0).len in
      if not (ltb len ((offset + bytes) % 2 ^ 32))
      then bytes
      else if cfg.contiguous_pa && ((cfg.hb ib).pa + len) % 2 ^ 32 == (cfg.hb (ib + 1)).pa
      then bytes
      else len - offset

  -- `xo400_write_fifo_dma`
  pub write_fifo_dma : ℕ → ℕ → Sent
  write_fifo_dma frombyte bytes =
      let len = (cfg.hb 0).len in
      let ib = frombyte / len in
      let offset = frombyte - ib * len in
      let bytes1 = fit_buffer ib offset bytes in
      if le_int cfg.min_dma_bytes bytes1
      then dma_memcpy ib offset (bytes1 / cfg.min_dma_bytes * cfg.min_dma_bytes)
      else write_fifo frombyte bytes1

  -- `xo400_getFillThreshold`
  unfoldable pub fill_threshold : ℕ
  fill_threshold = cfg.max_fifo_samples / 128

  -- `ao420_getFifoHeadroom`, for the number of samples that the FIFO holds.
  unfoldable pub fifo_headroom : ℕ → ℕ
  fifo_headroom samples =
      let maxsam = sub32 cfg.max_fifo_samples 8 in
      if ltb maxsam samples then 0 else maxsam - samples

  -- The cursor moves on by what was sent.
  pub advance : XoDev → Sent → Filled
  advance x (pieces, lenbytes) =
      let x1 = record x { sent = x.sent ++ pieces } in
      if lt_int lenbytes 0
      then broke x1
      else filled (record x1 {
        playloop = record x1.playloop {
          cursor = (x1.playloop.cursor + lenbytes / cfg.aoss) % 2 ^ 32;
        };
      })

  -- The body of the loop of `xo400_fill_fifo`, once `lenbytes` are found to be wanted: `left` samples
  -- are left.
  pub fill_block : ℕ → ℕ → ℕ → XoDev → Filled
  fill_block headroom left lenbytes x =
      let cursor = x.playloop.cursor * cfg.aoss % 2 ^ 32 in
      if cfg.has_chan0 && lt_int (max cfg.min_dma_bytes cfg.dma_threshold) lenbytes
      then advance x (write_fifo_dma cursor (lenbytes / cfg.min_dma_bytes * cfg.min_dma_bytes))
      else if lt_int headroom left
      then broke x
      else advance x (write_fifo_dma cursor lenbytes)

  -- The body of the loop.
  pub fill_once : ℕ → XoDev → Filled
  fill_once headroom x =
      let left = sub32 x.playloop.length x.playloop.cursor in
      let remaining = min_int left headroom in
      if remaining == 0
      then filled x
      else fill_block headroom left (min_int (remaining * cfg.aoss % 2 ^ 32) cfg.max_fill_block) x

  -- The loop's condition, for the headroom found.
  unfoldable pub wants_more : ℕ → XoDev → Bool
  wants_more headroom x =
      truthy x.playloop.length
      && ltb fill_threshold headroom
      && ltb x.playloop.cursor x.playloop.length

  -- The loop with `maxiter` rounds left, with the code's `rc`; `samples` says what the device reads
  -- for each round.
  pub fill_loop : (ℕ → ℕ) → ℕ → XoDev → Bool → XoDev × Bool
  fill_loop samples zero x rc = (x, rc)
  fill_loop samples (suc n) x rc =
      let headroom = fifo_headroom (samples n) in
      elim (wants_more headroom x) [
        | false ↦ (x, rc)
        | true ↦ elim (fill_once headroom x) [
          | broke x' ↦ (x', true)
          | filled x' ↦ fill_loop samples n x' true
        ]
      ]

-- `xo_check_fiferr`, for the status read: an error is counted and its flags written back.
pub check_fiferr : ℕ → XoDev → XoDev
check_fiferr fifo_sta x =
    if bit_and fifo_sta 0x10 == 0
    then x
    else if truthy (bit_and fifo_sta 0xf)
    then record x {
      fsr_writes = x.fsr_writes ++ bit_and fifo_sta 0xf ∷ [];
      fifo_errors = incr32 x.fifo_errors;
    }
    else x

-- A part of `xo400_fill_fifo` under way, and whether it asks for further interrupts.
abbrev pub Wanting : Type 0
Wanting = XoDev × Bool

-- The shot is over: the interrupt is disabled and the thread that arms the next one started.
abbrev pub shot_over : XoDev → XoDev
shot_over x = record x { interrupt = false; rearms = x.rearms + 1 }

abbrev pub to_cursor : ℕ → XoDev → XoDev
to_cursor c x = record x { playloop = record x.playloop { cursor = c } }

-- The end of `xo400_fill_fifo`: at the end of the loop a continuous or repeated shot starts again,
-- and a last one is over.
pub end_of_fill : ℕ → Wanting → Wanting
end_of_fill fifo_sta (x, rc) =
    let again : Wanting = (check_fiferr fifo_sta (to_cursor 0 x), rc) in
    if not (ltb 0 x.playloop.length && leb x.playloop.length x.playloop.cursor)
    then (check_fiferr fifo_sta x, rc)
    else if not (truthy x.playloop.oneshot)
    then again
    else if x.playloop.repeats == 0
    then (shot_over x, false)
    else (let repeats = x.playloop.repeats - 1 in
        let x1 = record x { playloop = record x.playloop { repeats = repeats } } in
        if repeats == 0
        then (shot_over x1, false)
        else (check_fiferr fifo_sta (to_cursor 0 x1), rc))

-- What the device and the system show to one call: whether the wait for the mutex was interrupted,
-- the samples in the FIFO for each round, and its status.
pub record Look : Type 0 where
  pub no_lock : Bool
  pub samples : ℕ → ℕ
  pub fifo_sta : ℕ

pub fill_fifo : Settings → Look → XoDev → Wanting
fill_fifo cfg look x =
    if look.no_lock
    then (x, false)
    else end_of_fill look.fifo_sta (fill_loop cfg look.samples 1000 x false)

-- `xo400_dma`, the interrupt's thread; `lotide` is `adev->lotide`.
pub xo_dma : Settings → Bool → Look → XoDev → XoDev
xo_dma cfg lotide look x =
    if cfg.use_distributor
    then x
    else if truthy x.playloop.length
    then (let (x1, more) = fill_fifo cfg look x in
        if more && lotide then record x1 { interrupt = true } else x1)
    else x
