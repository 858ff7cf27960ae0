-- ===== src/Registers.antt =====
-- acq400_core.c: register access of a device through its register cache, and the functions that
-- change a few bits of a register. A `Bank` is one device's registers by byte offset, which read
-- back what was written, with the cache beside them; `none` is the fault of a cache lookup. The
-- traps compiled out and the debug output of `acq400wr32` have no state.
pub mod Coherence
pub mod Bitfields
pub mod Aggregator
use acq400drv.Prelude.{
  ℕ, ◌+◌, ◌-◌, ◌*◌, ◌/◌, Bool, true, false, Option, none, some, ◌==◌, ltb, if◌then◌else◌, bit_and,
  bit_or,
}
use acq400drv.Bits.{shl32, not32}
use acq400drv.Bits.Masks.{has_bit}
use acq400drv.RegCache.{RegCache, hit, miss, fault, read, written, not_cached, faulted, write}

pub record Bank : Type 0 where
  pub cache : RegCache
  pub regs : ℕ → ℕ
  -- `booleans.sod_mode`
  pub sod_mode : Bool

-- `iowrite32`
abbrev pub store : (ℕ → ℕ) → ℕ → ℕ → ℕ → ℕ
store regs offset value q = if q == offset then value else regs q

-- `acq400wr32`
pub wr32 : Bank → ℕ → ℕ → Option Bank
wr32 b offset value = elim (write b.cache offset value) [
  | written rc ↦ some (record b { cache = rc; regs = store b.regs offset value })
  | not_cached ↦ some (record b { regs = store b.regs offset value })
  | faulted ↦ none
]

-- `_acq400rd32`
pub rd32_cached : Bank → ℕ → Bool → Option ℕ
rd32_cached b offset nocache =
    if nocache
    then some (b.regs offset)
    else elim (read b.cache offset) [ hit v ↦ some v | miss ↦ some (b.regs offset) | fault ↦ none ]

pub rd32 : Bank → ℕ → Option ℕ
unfolding rd32_cached
rd32 b offset = rd32_cached b offset false

pub rd32_nocache : Bank → ℕ → Option ℕ
unfolding rd32_cached
rd32_nocache b offset = rd32_cached b offset true

-- `acq400_enable_trg`, with its result, whether the trigger was enabled. The two bits are
-- TIM_CTRL_MODE_HW_TRG_EN and, below, TIM_CTRL_MODE_EV0_EN.
abbrev pub tim_ctrl : ℕ
tim_ctrl = 0x08

abbrev pub trg_bit : ℕ
trg_bit = 2

abbrev pub ev0_bit : ℕ
ev0_bit = 3

-- `x |= 1 << k` or `x &= ~(1 << k)`
abbrev pub put_bit : ℕ → ℕ → Bool → ℕ
put_bit x k on = if on then bit_or x (shl32 1 k) else bit_and x (not32 (shl32 1 k))

pub enable_trg : Bank → Bool → Option (Bank × Bool)
unfolding rd32 wr32
enable_trg b enable = elim (rd32 b tim_ctrl) [
  | none ↦ none
  | some timcon ↦
      let was_enabled = has_bit timcon trg_bit in
      if b.sod_mode
      then some (b, was_enabled)
      else elim (wr32 b tim_ctrl (put_bit timcon trg_bit enable)) [
        | none ↦ none
        | some b' ↦ some (b', was_enabled)
      ]
]

-- A register read, one bit of it changed, and written.
pub change_bit : Bank → ℕ → ℕ → Bool → Option Bank
unfolding rd32 wr32
change_bit b offset k on = elim (rd32 b offset) [
  | none ↦ none
  | some x ↦ wr32 b offset (put_bit x k on)
]

-- `acq400_enable_event0`
pub enable_event0 : Bank → Bool → Option Bank
unfolding change_bit
enable_event0 b enable = change_bit b tim_ctrl ev0_bit enable

abbrev pub mcr : ℕ
mcr = 0x04

-- `acq400_soft_trigger`, on the bank of site 0.
pub soft_trigger : Bank → Bool → Option Bank
unfolding change_bit
soft_trigger b enable = change_bit b mcr 4 enable

-- `acq2006_aggregator_disable`, without its global flag.
abbrev pub aggregator : ℕ
aggregator = 0x08

pub aggregator_disable : Bank → Option Bank
unfolding change_bit
aggregator_disable b = change_bit b aggregator 0 false

-- `sc_data_engine_disable`
pub data_engine_disable : Bank → ℕ → Option Bank
unfolding change_bit
data_engine_disable b dex = change_bit b dex 0 false

-- `sc_data_engine_reset_enable`: the enable bit is cleared, then set.
pub data_engine_reset_enable : Bank → ℕ → Option Bank
unfolding rd32 wr32
data_engine_reset_enable b dex = elim (rd32 b dex) [
  | none ↦ none
  | some x ↦
      let off = put_bit x 0 false in
      elim (wr32 b dex off) [ none ↦ none | some b' ↦ wr32 b' dex (put_bit off 0 true) ]
]

-- The length of an AXI DMA, in blocks of AXI_DMA_BLOCK bytes.
abbrev pub axi_dma_engine_data : ℕ
axi_dma_engine_data = 0x18

abbrev pub block_bytes : ℕ
block_bytes = 0x800

abbrev pub max_blocks : ℕ
max_blocks = 65536

-- The number of blocks that `acq400_set_AXI_DMA_len` programs.
pub clamp_blocks : ℕ → ℕ
clamp_blocks len =
    let blocks = len / block_bytes in
    let upper = if ltb max_blocks blocks then max_blocks else blocks in
    if ltb upper 1 then 1 else upper

-- `acq400_set_AXI_DMA_len`, for a length that is not negative, with its result.
pub set_axi_dma_len : Bank → ℕ → Option (Bank × ℕ)
unfolding wr32 clamp_blocks
set_axi_dma_len b len =
    let blocks = clamp_blocks len in
    elim (wr32 b axi_dma_engine_data (blocks - 1)) [
      | none ↦ none
      | some b' ↦ some (b', blocks * block_bytes)
    ]

-- `acq400_get_AXI_DMA_len`
pub get_axi_dma_len : Bank → Option ℕ
unfolding rd32
get_axi_dma_len b = elim (rd32 b axi_dma_engine_data) [
  | none ↦ none
  | some x ↦ some ((x + 1) * block_bytes)
]

-- `set_spadN` and `get_spadN`
abbrev pub spad_offset : ℕ → ℕ
spad_offset n = 0x80 + n * 4

pub set_spad : Bank → ℕ → ℕ → Option Bank
unfolding wr32
set_spad b n value = wr32 b (spad_offset n) value

pub get_spad : Bank → ℕ → Option ℕ
unfolding rd32
get_spad b n = rd32 b (spad_offset n)

-- `set_XOspadN` and `get_XOspadN`
abbrev pub xo_spad_offset : ℕ → ℕ
xo_spad_offset n = 0xC0 + n * 4

pub set_xo_spad : Bank → ℕ → ℕ → Option Bank
unfolding wr32
set_xo_spad b n value = wr32 b (xo_spad_offset n) value

pub get_xo_spad : Bank → ℕ → Option ℕ
unfolding rd32
get_xo_spad b n = rd32 b (xo_spad_offset n)
