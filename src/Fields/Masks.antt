-- ===== src/Fields/Masks.antt =====
-- acq400_structs.h, `getSHL`: the shift of a mask is the place of its lowest bit. acq400_sysfs_utils.c,
-- `count_set_bits`: clearing the lowest bit until none is left counts them.
use native.Mathlib.Nat.{pow-suc}
use acq400drv.Prelude.{
  ℕ, zero, suc, ◌+◌, ◌-◌, ◌*◌, ◌/◌, ◌%◌, ◌^◌, ◌≤◌, ◌<◌, ◌≡◌, refl, some, ◌==◌, arith, inl, inr,
  Bool-cases, bit_and, ◌∙◌, ap,
}
use acq400drv.Bits.{bit, bit_and_self, bit_and-le}
use acq400drv.Bits.Step.{bit_and_step}
use acq400drv.Fields.{shift_of, get_shl, clear_lowest, count_set_bits}

-- `s` is the place of the lowest bit of `mask`.
pub record Lowest (mask s : ℕ) : Type 0 where
  pub set : bit mask s ≡ 1
  pub none_below : (i : ℕ) → i < s → bit mask i ≡ 0

Lowest-half : (mask s : ℕ) → mask % 2 ≡ 0 → Lowest (mask / 2) s → Lowest mask (suc s)
Lowest-half mask s even l = record { set = l.set; none_below = below }
  where
    below : (i : ℕ) → i < suc s → bit mask i ≡ 0
    below zero h = even
    below (suc i) h = l.none_below i (omega arith)

shift_of-Lowest :
    (n mask shl : ℕ)
    → 0 < mask
    → mask < 2 ^ n
    → (s : ℕ) × (shift_of n mask shl ≡ some (shl + s)) × (s < n) × Lowest mask s
unfolding shift_of
shift_of-Lowest zero mask shl pos small = absurd (omega arith)
shift_of-Lowest (suc n) mask shl pos small = elim (Bool-cases (mask % 2 == 0)) [
  | inl e ↦
      let (s, found, lt, low) =
        shift_of-Lowest n (mask / 2) (shl + 1) (ground arith) (omega (arith, pow-suc 2 n)) in
      let sum : shl + 1 + s ≡ shl + suc s = omega arith in
      (
        suc s,
        rw (e, shift_of) (found ∙ ap some sum),
        omega arith,
        Lowest-half mask s (ground arith) low,
      )
  | inr e ↦
      let here : shl ≡ shl + 0 = omega arith in
      (
        0,
        rw (e, shift_of) (ap some here),
        omega arith,
        record { set = ground arith; none_below = λ i h. absurd (omega arith) },
      )
]

-- `getSHL` of a mask that is not empty ends, with the place of the mask's lowest bit.
get_shl-Lowest :
    (mask : ℕ)
    → 0 < mask
    → mask < 2 ^ 32
    → (s : ℕ) × (get_shl mask ≡ some s) × (s < 32) × Lowest mask s
unfolding get_shl
get_shl-Lowest mask pos small =
    let (s, found, lt, low) = shift_of-Lowest 32 mask 0 pos small in
    let sum : 0 + s ≡ s = omega arith in (s, found ∙ ap some sum, lt, low)

-- How many of the low `w` bits are set.
abbrev pub population : ℕ → ℕ → ℕ
population zero n = 0
population (suc w) n = n % 2 + population w (n / 2)

population-le : (w n : ℕ) → population w n ≤ w
population-le zero n = omega arith
population-le (suc w) n = omega (arith, population-le w (n / 2))

population-zero : (w : ℕ) → population w 0 ≡ 0
population-zero zero = refl
population-zero (suc w) = omega (arith, population-zero w)

population-double : (w k : ℕ) → population (suc w) (k * 2 + 0) ≡ population w k
population-double w k =
    let half : (k * 2 + 0) / 2 ≡ k = omega arith in
    let low : (k * 2 + 0) % 2 ≡ 0 = omega arith in rw (half, low) (omega arith)

-- `n & (n-1)` is `n` without its lowest bit.
population-clear :
    (w n : ℕ) → n < 2 ^ w → 0 < n → population w (bit_and n (n - 1)) + 1 ≡ population w n
population-clear zero n small pos = absurd (omega arith)
population-clear (suc w) n small pos = elim (Bool-cases (n % 2 == 0)) [
  | inl e ↦
      let half : (n - 1) / 2 ≡ n / 2 - 1 = ground arith in
      let cleared : bit_and n (n - 1) ≡ bit_and (n / 2) (n / 2 - 1) * 2 + 0 =
        ground (arith, bit_and_step n (n - 1), ap (bit_and (n / 2)) half) in
      let even : n % 2 ≡ 0 = ground arith in
      rw cleared (
        omega (
          arith,
          even,
          population-double w (bit_and (n / 2) (n / 2 - 1)),
          population-clear w (n / 2) (omega (arith, pow-suc 2 w)) (omega arith),
        ))
  | inr e ↦
      let half : (n - 1) / 2 ≡ n / 2 = ground arith in
      let same : bit_and (n / 2) (n / 2) ≡ n / 2 =
        bit_and_self w (n / 2) (omega (arith, pow-suc 2 w)) in
      let cleared : bit_and n (n - 1) ≡ n / 2 * 2 + 0 =
        ground (arith, bit_and_step n (n - 1), ap (bit_and (n / 2)) half, same) in
      let odd : n % 2 ≡ 1 = ground arith in
      rw cleared (omega (arith, odd, population-double w (n / 2)))
]

zero_count : (w n : ℕ) → n ≡ 0 → population w n ≡ 0
zero_count w n e = rw e (population-zero w)

clear_lowest-population :
    (fuel w n count : ℕ)
    → n < 2 ^ w
    → population w n ≤ fuel
    → clear_lowest fuel n count ≡ some (count + population w n)
unfolding clear_lowest
clear_lowest-population zero w n count small enough = elim (Bool-cases (n == 0)) [
  | inl e ↦ rw (e, clear_lowest) (ap some (omega (arith, zero_count w n (ground arith))))
  | inr e ↦ absurd (omega (arith, population-clear w n small (ground arith)))
]
clear_lowest-population (suc fuel) w n count small enough = elim (Bool-cases (n == 0)) [
  | inl e ↦ rw (e, clear_lowest) (ap some (omega (arith, zero_count w n (ground arith))))
  | inr e ↦
      let next = bit_and n (n - 1) in
      let one = population-clear w n small (ground arith) in
      rw (e, clear_lowest)
        (clear_lowest-population fuel w next (count + 1)
            (omega (arith, bit_and-le w n (n - 1) small)) (omega (arith, one))
          ∙ ap some (omega (arith, one)))
]

-- `count_set_bits` of a 32-bit word ends, and returns how many bits are set.
pub count_set_bits-population : (n : ℕ) → n < 2 ^ 32 → count_set_bits n ≡ some (population 32 n)
unfolding count_set_bits
count_set_bits-population n small =
    clear_lowest-population 32 32 n 0 small (population-le 32 n)
    ∙ ap some (from_zero (population 32 n))
  where
    from_zero : (k : ℕ) → 0 + k ≡ k
    from_zero k = omega arith
