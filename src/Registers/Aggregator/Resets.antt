-- ===== src/Registers/Aggregator/Resets.antt =====
-- What the resets of the aggregator leave behind.
use acq400drv.Prelude.{
  Bool, ℕ, ◌≢◌, ◌*◌, ◌<◌, ◌≡◌, not, ◌&&◌, some, ◌==◌, if◌then◌else◌, bit_and, bit_or, arith,
}
use acq400drv.Bits.Masks.{bit-set_bit}
use acq400drv.Bits.{bit, shl32, not32}
use acq400drv.RegCache.Laws.{IsValid}
use acq400drv.Registers.{Bank}
use acq400drv.Registers.Coherence.{value, rd32-value, wr32-Stored}
use acq400drv.Registers.Aggregator.{
  sites_mask, write_twice, distributor_reset_enable, combover, aggregator_reset, Spad,
  spad_all_mask, spad_bits, aggregator_enable,
}

-- The bank after two writes of register `r`, the second of `y`.
record WroteTwice (b : Bank) (r x y : ℕ) : Type 0 where
  after : Bank
  returned : write_twice b (r * 4) x y ≡ some after
  valid : IsValid after.cache
  values : (q : ℕ) → value after q ≡ (if q == r then y else value b q)

write_twice-WroteTwice : (b : Bank) (r x y : ℕ) → IsValid b.cache → r < 128 → WroteTwice b r x y
unfolding write_twice
write_twice-WroteTwice b r x y v h =
    let s = wr32-Stored b r x v h in
    let t = wr32-Stored s.after r y s.valid h in
    record {
      after = t.after;
      returned = ground (arith, s.returned, t.returned, rd32-value t.after r t.valid h);
      valid = t.valid;
      values = λ q. ground (arith, t.values q, s.values q);
    }

-- `acq2106_distributor_reset_enable` ends with the reset off and the enable on, and touches no other
-- register.
distributor_reset-values :
    (b : Bank)
    → IsValid b.cache
    → (b' : Bank) × (distributor_reset_enable b ≡ some b')
      × ((q : ℕ)
          → value b' q ≡ (if q == 16 then bit_or (bit_and (value b 16) (not32 3)) 1 else value b q))
unfolding distributor_reset_enable
distributor_reset-values b v =
    let dst = bit_and (value b 16) (not32 3) in
    let s = wr32-Stored b 16 dst v (omega arith) in
    let t = write_twice-WroteTwice s.after 16 (bit_or dst 2) (bit_or dst 1) s.valid (omega arith) in
    (
      t.after,
      ground (arith, rd32-value b 16 v (omega arith), s.returned, t.returned),
      λ q. ground (arith, t.values q, s.values q),
    )

-- The sites that `acq2106_aggregator_reset` goes on with: those of the register, or those demanded if
-- it has none.
abbrev pub demanded : ℕ → ℕ → ℕ
demanded setmask x =
    if (bit_and x sites_mask == 0) && not (setmask == 0) then bit_or x setmask else x

-- `acq2106_aggregator_reset` leaves the aggregator with its reset and enable off and at least one
-- site if any was set or demanded, and touches no other register.
pub aggregator_reset-values :
    (b : Bank) (setmask : ℕ)
    → IsValid b.cache
    → (b' : Bank) × (aggregator_reset b setmask ≡ some b')
      × ((q : ℕ)
          → value b' q
            ≡ (if q == 2 then bit_and (demanded setmask (value b 2)) (not32 3) else value b q))
unfolding aggregator_reset combover
aggregator_reset-values b setmask v =
    let x = value b 2 in
    let agg = bit_and (demanded setmask x) (not32 3) in
    let s = wr32-Stored b 2 agg v (omega arith) in
    let t = write_twice-WroteTwice s.after 2 (bit_or agg 2) agg s.valid (omega arith) in
    (
      t.after,
      ground (arith, rd32-value b 2 v (omega arith), s.returned, t.returned),
      λ q. ground (arith, t.values q, s.values q),
    )

-- `acq2006_aggregator_enable` succeeds and sets the enable bit whatever the scratchpad settings, and
-- touches no other register.
aggregator_enable-values :
    (halve : Bool) (s : Spad) (b : Bank)
    → IsValid b.cache
    → (b1 : Bank) × (aggregator_enable halve s b ≡ some b1)
      × (bit (value b1 2) 0 ≡ 1)
      × ((q : ℕ) → q ≢ 2 → value b1 q ≡ value b q)
unfolding aggregator_enable
aggregator_enable-values halve s b v =
    let agg = spad_bits halve s (bit_and (value b 2) (not32 spad_all_mask)) in
    let w = wr32-Stored b 2 (bit_or agg (shl32 1 0)) v (omega arith) in
    (
      w.after,
      ground (arith, rd32-value b 2 v (omega arith), w.returned),
      ground (arith, w.values 2, bit-set_bit agg 0 0),
      λ q ne. ground (arith, w.values q),
    )
