-- ===== src/Registers/Aggregator.antt =====
-- acq400_core.c: the aggregator and the distributor of a system controller, written in several steps.
pub mod Resets
use acq400drv.Prelude.{
  ℕ, ◌+◌, ◌/◌, ◌%◌, ◌-◌, ◌^◌, Bool, Option, none, some, ◌==◌, if◌then◌else◌, bit_and, bit_or,
}
use acq400drv.Bits.{shl32, not32}
use acq400drv.Registers.{Bank, rd32, wr32, aggregator}

abbrev pub distributor : ℕ
distributor = 0x40

-- AGG_FIFO_RESET|AGG_ENABLE
abbrev reset_enable : ℕ
reset_enable = 0x3

-- AGG_SITES_MASK<<AGGREGATOR_MSHIFT
abbrev pub sites_mask : ℕ
sites_mask = 0xfc0000

-- Two writes, and a read whose value is not used.
pub write_twice : Bank → ℕ → ℕ → ℕ → Option Bank
write_twice b offset x y = elim (wr32 b offset x) [
  | none ↦ none
  | some b1 ↦ elim (wr32 b1 offset y) [
    | none ↦ none
    | some b2 ↦ elim (rd32 b2 offset) [ none ↦ none | some v ↦ some b2 ]
  ]
]

-- `acq2106_distributor_reset_enable`
pub distributor_reset_enable : Bank → Option Bank
unfolding write_twice
distributor_reset_enable b = elim (rd32 b distributor) [
  | none ↦ none
  | some x ↦
      let dst = bit_and x (not32 reset_enable) in
      elim (wr32 b distributor dst) [
        | none ↦ none
        | some b' ↦ write_twice b' distributor (bit_or dst 2) (bit_or dst 1)
      ]
]

-- The value that `acq2106_aggregator_reset` goes on with, when it has read `agg`: if no site is set it
-- reads again and adds the sites demanded, `setmask`, unless they are there by now.
pub combover : Bank → ℕ → ℕ → Option ℕ
combover b setmask agg =
    if bit_and agg sites_mask == 0
    then elim (rd32 b aggregator) [
      | none ↦ none
      | some agg2 ↦ some (if bit_and agg2 sites_mask == setmask then agg2 else bit_or agg2 setmask)
    ]
    else some agg

-- `acq2106_aggregator_reset`; `setmask` is the mask of the aggregator set.
pub aggregator_reset : Bank → ℕ → Option Bank
unfolding combover write_twice
aggregator_reset b setmask = elim (rd32 b aggregator) [
  | none ↦ none
  | some x ↦ elim (combover b setmask x) [
    | none ↦ none
    | some y ↦
        let agg = bit_and y (not32 reset_enable) in
        elim (wr32 b aggregator agg) [
          | none ↦ none
          | some b' ↦ write_twice b' aggregator (bit_or agg 2) agg
        ]
  ]
]

-- `enum { SP_OFF, SP_EN, SP_FRAME }`
pub data SpadEn : Type 0 where
  sp_off sp_en sp_frame : SpadEn

-- `enum { SD_SEW, SD_DI4, SD_DI32 }`
pub data SpadDix : Type 0 where
  sd_sew sd_di4 sd_di32 : SpadDix

-- `struct Spad`
pub record Spad : Type 0 where
  pub spad_en : SpadEn
  pub len : ℕ
  pub di_x : SpadDix

-- AGG_SPAD_ALL_MASK
abbrev pub spad_all_mask : ℕ
spad_all_mask = 0xc00300f0

-- SET_AGG_SPAD_LEN
pub spad_len_bits : ℕ → ℕ
spad_len_bits len = shl32 (bit_and ((len + 2 ^ 32 - 1) % 2 ^ 32) 15) 4

-- The switch on `diX`, with AGG_SNAP_DI_4 and AGG_SNAP_DI_32 at bit 30.
pub snap_bits : SpadDix → ℕ → ℕ
snap_bits sd_sew agg = agg
snap_bits sd_di4 agg = bit_or agg (shl32 2 30)
snap_bits sd_di32 agg = bit_or agg (shl32 3 30)

-- The scratchpad settings added to `agg`; `halve` says that the device has a 64-bit AXI DMA that is
-- not `axi_dma_agg32`.
pub spad_bits : Bool → Spad → ℕ → ℕ
unfolding spad_len_bits snap_bits
spad_bits halve s agg = elim s.spad_en [
  | sp_off ↦ agg
  | sp_en ↦
      let len = if halve then s.len / 2 else s.len in
      snap_bits s.di_x (bit_or (bit_or agg (spad_len_bits len)) (shl32 1 17))
  | sp_frame ↦ snap_bits s.di_x (bit_or agg (bit_or (shl32 1 17) (shl32 1 16)))
]

-- `acq2006_aggregator_enable`, without its global flag.
pub aggregator_enable : Bool → Spad → Bank → Option Bank
unfolding spad_bits
aggregator_enable halve s b = elim (rd32 b aggregator) [
  | none ↦ none
  | some x ↦
      let agg = spad_bits halve s (bit_and x (not32 spad_all_mask)) in
      wr32 b aggregator (bit_or agg (shl32 1 0))
]
