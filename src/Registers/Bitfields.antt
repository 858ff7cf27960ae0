-- ===== src/Registers/Bitfields.antt =====
-- Functions that change single bits of a register change nothing else.
use acq400drv.Prelude.{
  ℕ, ◌-◌, ◌*◌, ◌/◌, ◌^◌, ◌<◌, ◌≡◌, refl, Bool, true, false, ◌&&◌, some, ◌==◌, if◌then◌else◌, arith,
  inl, inr, Bool-cases, ==_iff,
}
use Prim.Native.Nat.{min, max}
use acq400drv.Bits.{bit, shl32, not32, bit-bit_and, bit_above, bit-lt-two}
use acq400drv.Bits.Masks.{bit-not32, bit-shl32-one, bit-set_bit, has_bit_lem}
use acq400drv.RegCache.Laws.{IsValid}
use acq400drv.Registers.{
  Bank, put_bit, trg_bit, enable_trg, change_bit, clamp_blocks, set_axi_dma_len, get_axi_dma_len,
  block_bytes, max_blocks,
}
use acq400drv.Registers.Coherence.{value, rd32-value, Stored, wr32-Stored}

abbrev pub as_bit : Bool → ℕ
as_bit on = if on then 1 else 0

bit-put_bit :
    (x k i : ℕ) (on : Bool)
    → x < 2 ^ 32
    → k < 32
    → bit (put_bit x k on) i ≡ (if i == k then as_bit on else bit x i)
bit-put_bit x k i true hx hk = bit-set_bit x k i hk
bit-put_bit x k i false hx hk = ground (
  arith,
  bit-bit_and x (not32 (shl32 1 k)) i,
  bit-not32 (shl32 1 k) i (omega arith),
  bit-shl32-one k i hk,
  bit_above x 32 i,
  bit-lt-two x i,
)

-- Register `r` has bit `k` as asked for, and all else is as it was.
pub record BitChanged (b : Bank) (r k : ℕ) (on : Bool) (b' : Bank) : Type 0 where
  pub valid : IsValid b'.cache
  pub bits :
      (q i : ℕ)
      → bit (value b' q) i ≡ (if (q == r) && (i == k) then as_bit on else bit (value b q) i)

Stored-BitChanged :
    (b : Bank) (r k : ℕ) (on : Bool) (s : Stored b r (put_bit (value b r) k on))
    → value b r < 2 ^ 32
    → k < 32
    → BitChanged b r k on s.after
Stored-BitChanged b r k on s hx hk = record {
  valid = s.valid;
  bits = λ q i. elim (Bool-cases (q == r)) [
    | inl e ↦
        let same : q ≡ r = (==_iff q r).0 e in
        rw (s.values q, e, same) (bit-put_bit (value b r) k i on hx hk)
    | inr e ↦ rw (s.values q, e) refl
  ];
}

-- `change_bit`, which the enable and disable functions are made of, succeeds and sets or clears
-- the bit asked for of the register asked for; every other bit of every register is as it was.
change_bit-BitChanged :
    (b : Bank) (r k : ℕ) (on : Bool)
    → IsValid b.cache
    → r < 128
    → k < 32
    → value b r < 2 ^ 32
    → (b' : Bank) × (change_bit b (r * 4) k on ≡ some b') × BitChanged b r k on b'
unfolding change_bit
change_bit-BitChanged b r k on v hr hk hx =
    let s = wr32-Stored b r (put_bit (value b r) k on) v hr in
    (s.after, ground (arith, rd32-value b r v hr, s.returned), Stored-BitChanged b r k on s hx hk)

chosen : (A B : Type 0) (c : Bool) → c ≡ true → A → (if c then A else B)
chosen A B true e a = a
chosen A B false e a = absurd (cc)

not_chosen : (A B : Type 0) (c : Bool) → c ≡ false → B → (if c then A else B)
not_chosen A B true e b = absurd (cc)
not_chosen A B false e b = b

-- `acq400_enable_trg` tells whether the trigger was enabled, and enables or disables it, changing no
-- other bit; in sample-on-demand mode it changes nothing.
pub enable_trg-BitChanged :
    (b : Bank) (on : Bool)
    → IsValid b.cache
    → value b 2 < 2 ^ 32
    → (b' : Bank) × (enable_trg b on ≡ some (b', bit (value b 2) trg_bit == 1))
      × (if b.sod_mode then b' ≡ b else BitChanged b 2 trg_bit on b')
unfolding enable_trg
enable_trg-BitChanged b on v hx =
    let was = has_bit_lem (value b 2) trg_bit hx (omega arith) in
    let s = wr32-Stored b 2 (put_bit (value b 2) trg_bit on) v (omega arith) in
    let found = rd32-value b 2 v (omega arith) in
    elim (Bool-cases b.sod_mode) [
      | inl m ↦ (b, ground (arith, found, m, was), chosen _ _ b.sod_mode m refl)
      | inr m ↦ (
        s.after,
        ground (arith, found, m, was, s.returned),
        not_chosen _ _ b.sod_mode m (Stored-BitChanged b 2 trg_bit on s hx (omega arith)),
      )
    ]

-- What `acq400_set_AXI_DMA_len` returns is what `acq400_get_AXI_DMA_len` reads back: the length asked
-- for rounded down to whole blocks, kept between one block and the limit.
pub get-set_axi_dma_len :
    (b : Bank) (len : ℕ)
    → IsValid b.cache
    → (b' : Bank) × (set_axi_dma_len b len
        ≡ some (b', max 1 (min max_blocks (len / block_bytes)) * block_bytes))
      × (get_axi_dma_len b' ≡ some (max 1 (min max_blocks (len / block_bytes)) * block_bytes))
unfolding set_axi_dma_len get_axi_dma_len clamp_blocks
get-set_axi_dma_len b len v =
    let s = wr32-Stored b 6 (clamp_blocks len - 1) v (omega arith) in
    (
      s.after,
      ground (arith, s.returned),
      ground (arith, rd32-value s.after 6 s.valid (omega arith), s.values 6),
    )
