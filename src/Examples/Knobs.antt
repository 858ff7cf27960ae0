-- ===== src/Examples/Knobs.antt =====
-- Files of register 2 of the device of `Banks`, with conversions of one character a number.
use native.Mathlib.Nat.{pow-suc, pow-le-pow_right}
use acq400drv.Prelude.{
  ℕ, zero, suc, ◌+◌, ◌-◌, ◌*◌, ◌/◌, ◌^◌, ◌≤◌, ◌<◌, ◌≡◌, refl, some, none, Option, List, [], ◌∷◌,
  arith, bit_and, ap, sym, ◌∙◌,
}
use acq400drv.Bits.{bit, zero-bit, bit-complement, bit_above}
use acq400drv.Registers.{Bank}
use acq400drv.Fields.{
  accepted, store_bits, show_bits, store_dnum, show_dnum, store_bit_n, show_bit_n, count_set_bits,
  get_shl, Triplet, by_number, no_triplet, triplet_values,
}
use acq400drv.Fields.Knobs.{Field, FieldIs, store_bits-FieldIs}
use acq400drv.Fields.Signed.{Signed, store_dnum-shown, store_bit_n-shown}
use acq400drv.Fields.Masks.{population, count_set_bits-population}
use acq400drv.Fields.Triplets.{Fits, Part}
use acq400drv.Examples.Banks.{bank, not_cached_lem}
use acq400drv.Examples.Caching.{used-IsValid}

-- The first character is the number.
abbrev scan : List ℕ → Option ℕ
scan [] = none
scan (x ∷ xs) = some x

low_bits : (k i : ℕ) → bit (2 ^ k - 1) i ≡ 1 → i < k
low_bits zero i e = absurd (omega (arith, zero-bit i))
low_bits (suc k) zero e = omega arith
low_bits (suc k) (suc i) e =
    let half : (2 ^ suc k - 1) / 2 ≡ 2 ^ k - 1 = omega (arith, pow-suc 2 k) in
    omega (arith, low_bits k i (ap (λ t. bit t i) (sym half) ∙ e))

-- The field of `k` bits from bit 4 on.
nibble : (k : ℕ) → k ≤ 8 → Field bank 2 4 (2 ^ k - 1)
nibble k h = record {
  cache = used-IsValid;
  in_cache = omega arith;
  word = omega (arith, not_cached_lem);
  mask_word = omega (arith, pow-le-pow_right {n = 2} (omega arith) {i = k} {j = 8} h);
  fits = λ i e. omega (arith, low_bits k i e);
}

store_bits-FieldIs_example :
    (b' : Bank) × (store_bits scan bank (2 * 4) 4 7 (5 ∷ []) ≡ accepted (b' ∷ []))
    × FieldIs bank 2 4 7 5 b'
    × ((sprintf : ℕ → List ℕ) → show_bits sprintf b' (2 * 4) 4 7 ≡ some (sprintf (bit_and 5 7)))
store_bits-FieldIs_example =
    store_bits-FieldIs bank 2 4 7 scan (5 ∷ []) 5 (nibble 3 (omega arith))
      (λ e. absurd (omega (arith, e))) (λ e. absurd (omega (arith, e))) refl

-- Minus two.
minus_two-Signed : Signed 3 (2 ^ 32 - 2)
minus_two-Signed i h k =
    omega
      (arith, bit-complement 32 1 i (omega arith) k, bit_above 1 1 i (omega arith) (omega arith))

store_dnum-shown_example :
    (b' : Bank) × (store_dnum scan bank (2 * 4) 4 15 ((2 ^ 32 - 2) ∷ []) ≡ accepted (b' ∷ []))
    × FieldIs bank 2 4 15 (2 ^ 32 - 2) b'
    × ((sprintf : ℕ → List ℕ) → show_dnum sprintf b' (2 * 4) 4 15 ≡ some (sprintf (2 ^ 32 - 2)))
store_dnum-shown_example =
    store_dnum-shown bank 2 4 scan ((2 ^ 32 - 2) ∷ []) 3 (2 ^ 32 - 2) (omega arith)
      (nibble 4 (omega arith)) refl (omega arith) minus_two-Signed

store_bit_n-shown_example :
    (b' : Bank) × (store_bit_n scan bank (2 * 4) 4 1 (0 ∷ []) ≡ accepted (b' ∷ []))
    × FieldIs bank 2 4 1 1 b'
    × ((sprintf : ℕ → List ℕ) → show_bit_n sprintf b' (2 * 4) 4 1 ≡ some (sprintf 0))
store_bit_n-shown_example = store_bit_n-shown bank 2 4 scan (0 ∷ []) 0 (nibble 1 (omega arith)) refl

count_set_bits-population_example : count_set_bits 0x0f0f0f0f ≡ some (population 32 0x0f0f0f0f)
count_set_bits-population_example = count_set_bits-population 0x0f0f0f0f (omega arith)

triplet_apart : (i : ℕ) → bit 1 i + bit 6 i + bit 8 i ≤ 1
triplet_apart zero = omega arith
triplet_apart (suc zero) = omega arith
triplet_apart (suc (suc zero)) = omega arith
triplet_apart (suc (suc (suc zero))) = omega arith
triplet_apart (suc (suc (suc (suc i)))) = omega (arith, zero-bit i)

-- The mask of `k` bits has room for what is below `2 ^ k`.
one-Fits : (t s : ℕ) → bit t (0 + s) ≡ 1 → Fits 1 t s
one-Fits t s e zero h = e
one-Fits t s e (suc i) h = absurd (omega (arith, h, zero-bit i))

two-Fits : Fits 2 6 1
two-Fits zero h = absurd (omega (arith, h))
two-Fits (suc zero) h = refl
two-Fits (suc (suc i)) h = absurd (omega (arith, h, zero-bit i))

one_Part : (t s : ℕ) → get_shl t ≡ some s → t < 2 ^ 32 → bit t (0 + s) ≡ 1 → Part t s 1
one_Part t s e h b = record { shift = e; mask_word = h; word = omega arith; fit = one-Fits t s b }

shift_6 : get_shl 6 ≡ some 1
unfolding get_shl
shift_6 = refl

shift_1 : get_shl 1 ≡ some 0
unfolding get_shl
shift_1 = refl

shift_8 : get_shl 8 ≡ some 3
unfolding get_shl
shift_8 = refl

abbrev scan_triplet : List ℕ → Triplet
scan_triplet (x ∷ y ∷ z ∷ []) = by_number x y z
scan_triplet _ = no_triplet

read_lem : triplet_values (λ c. c) (by_number 1 2 1) ≡ some (1, 2, 1)
unfolding triplet_values
read_lem = refl
