-- ===== src/Fields/Words.antt =====
-- acq400_sysfs_utils.c: the bits of a register word with a field replaced or read.
use acq400drv.Prelude.{
  ℕ, ◌+◌, ◌-◌, ◌/◌, ◌^◌, ◌<◌, ◌≡◌, Bool, ◌&&◌, not, ◌==◌, ltb, if◌then◌else◌, arith, bit_and,
  bit_or,
}
use acq400drv.Bits.{
  bit, shl32, not32, bit-bit_and, bit-bit_or, bit_above, bit-lt-two, bit_ext, bit-shr, bit_and-le,
  bit_and-le_right, bit_or-lt, zero-bit,
}
use acq400drv.Bits.Masks.{bit-not32, bit-shl32}
use acq400drv.Fields.{clear_field, set_field, get_field}

-- Bit `i` belongs to the field of `mask` at `shl`.
abbrev pub in_field : ℕ → ℕ → ℕ → Bool
in_field shl mask i = not (ltb i shl) && (bit mask (i - shl) == 1)

-- The word `y` is `x` with `field` in the field.
abbrev pub HasField : ℕ → ℕ → ℕ → ℕ → ℕ → Type 0
HasField x shl mask field y =
    (i : ℕ) → bit y i ≡ (if in_field shl mask i then bit field (i - shl) else bit x i)

module _ (x shl mask : ℕ) (word : x < 2 ^ 32) (fits : (i : ℕ) → bit mask i ≡ 1 → i + shl < 32) where
  bit-clear_field :
      (i : ℕ) → bit (clear_field x shl mask) i ≡ (if in_field shl mask i then 0 else bit x i)
  bit-clear_field i = ground (
    arith,
    bit-bit_and x (not32 (shl32 mask shl)) i,
    bit-not32 (shl32 mask shl) i (omega arith),
    bit-shl32 mask shl i,
    bit_above x 32 i word,
    bit-lt-two x i,
    bit-lt-two mask (i - shl),
    fits (i - shl),
  )

  bit-placed :
      (f i : ℕ)
      → bit (shl32 (bit_and f mask) shl) i ≡ (if in_field shl mask i then bit f (i - shl) else 0)
  bit-placed f i = ground (
    arith,
    bit-shl32 (bit_and f mask) shl i,
    bit-bit_and f mask (i - shl),
    bit-lt-two f (i - shl),
    bit-lt-two mask (i - shl),
    fits (i - shl),
  )

  pub set_field-HasField : (f : ℕ) → HasField x shl mask f (set_field x shl mask f)
  set_field-HasField f i = ground (
    arith,
    bit-bit_or (clear_field x shl mask) (shl32 (bit_and f mask) shl) i,
    bit-clear_field i,
    bit-placed f i,
  )

  pub clear_field-HasField : HasField x shl mask 0 (clear_field x shl mask)
  clear_field-HasField i = ground (arith, bit-clear_field i, zero-bit (i - shl))

  pub raise_field-HasField :
      HasField x shl mask mask (bit_or (clear_field x shl mask) (shl32 mask shl))
  raise_field-HasField i = ground (
    arith,
    bit-bit_or (clear_field x shl mask) (shl32 mask shl) i,
    bit-clear_field i,
    bit-shl32 mask shl i,
    bit-lt-two mask (i - shl),
    bit-lt-two x i,
    fits (i - shl),
  )

  pub clear_field-lt : clear_field x shl mask < 2 ^ 32
  clear_field-lt = omega (arith, bit_and-le 32 x (not32 (shl32 mask shl)) word)

  pub raise_field-lt : bit_or (clear_field x shl mask) (shl32 mask shl) < 2 ^ 32
  raise_field-lt = bit_or-lt 32 _ _ clear_field-lt (omega arith)

  pub set_field-lt : (f : ℕ) → set_field x shl mask f < 2 ^ 32
  set_field-lt f = bit_or-lt 32 _ _ clear_field-lt (omega arith)

-- What the field reads as.
pub get_field-HasField :
    (x shl mask f y : ℕ)
    → mask < 2 ^ 32
    → HasField x shl mask f y
    → get_field y shl mask ≡ bit_and f mask
get_field-HasField x shl mask f y small h =
    bit_ext 32 (get_field y shl mask) (bit_and f mask) (and-lt (y / 2 ^ shl)) (and-lt f) λ i _.
      ground (
        arith,
        bit-bit_and (y / 2 ^ shl) mask i,
        bit-bit_and f mask i,
        bit-shr y shl i,
        h (i + shl),
        bit-lt-two mask i,
        bit-lt-two f i,
        same i,
      )
  where
    same : (i : ℕ) → i + shl - shl ≡ i
    same i = omega arith

    and-lt : (z : ℕ) → bit_and z mask < 2 ^ 32
    and-lt z = omega (arith, bit_and-le_right 32 z mask small)
