-- ===== src/Bits/Masks.antt =====
-- Shifted masks and single-bit tests of 32-bit words, in terms of `bit`.
use acq400drv.Prelude.{
  ℕ, zero, suc, ◌-◌, ◌*◌, ◌/◌, ◌%◌, ◌^◌, ◌<◌, bit_and, bit_or, ◌≡◌, ◌≢◌, refl, sym, ap, ◌∙◌, Bool,
  not, arith, if◌then◌else◌, ltb, ◌==◌, inl, inr, Bool-cases, eq→==, ne→==, ==_iff,
}
use native.Mathlib.Nat.{pow-suc, one-le-pow}
use acq400drv.Bits.Step.{bit_and_step}
use acq400drv.Bits.{
  bit, shl32, not32, bit-lt-two, zero-bit, bit-bit_or, bit-bit_and, bit-shl, bit-mod, bit_above,
  bit_ext, bit-complement, bit_and-le, mod_pow_suc, bit_and-zero,
}

bit-one : (i : ℕ) → bit 1 i ≡ (if i == 0 then 1 else 0)
bit-one zero = refl
bit-one (suc i) = zero-bit i ∙ ground arith

pub bit-shl32 :
    (x k i : ℕ)
    → bit (shl32 x k) i ≡ (if ltb i 32 then (if ltb i k then 0 else bit x (i - k)) else 0)
bit-shl32 x k i = ground (arith, bit-mod (x * 2 ^ k) 32 i, bit-shl x k i)

pub bit-not32 : (x i : ℕ) → x < 2 ^ 32 → bit (not32 x) i ≡ (if ltb i 32 then 1 - bit x i else 0)
bit-not32 x i h = elim (Bool-cases (ltb i 32)) [
  | inl e ↦ rw e (bit-complement 32 x i h (ground arith))
  | inr e ↦ rw e (bit_above (not32 x) 32 i (omega arith) (ground arith))
]

-- `1 << b`
pub bit-shl32-one : (b i : ℕ) → b < 32 → bit (shl32 1 b) i ≡ (if i == b then 1 else 0)
bit-shl32-one b i h = ground (arith, bit-shl32 1 b i, bit-one (i - b))

-- `m & (1 << b)` as a condition
abbrev pub has_bit : ℕ → ℕ → Bool
has_bit m b = not (bit_and m (shl32 1 b) == 0)

and_one_bit : (m b i : ℕ) → b < 32 → bit (bit_and m (shl32 1 b)) i ≡ (if i == b then bit m i else 0)
and_one_bit m b i h =
    ground (arith, bit-bit_and m (shl32 1 b) i, bit-shl32-one b i h, bit-lt-two m i)

and_one_bit_zero : (m b : ℕ) → m < 2 ^ 32 → b < 32 → bit m b ≡ 0 → bit_and m (shl32 1 b) ≡ 0
and_one_bit_zero m b hm hb e =
    bit_ext 32 (bit_and m (shl32 1 b)) 0 (omega (arith, bit_and-le 32 m (shl32 1 b) hm))
      (omega arith)
      λ i hi. elim (Bool-cases (i == b)) [
        | inl s ↦ and_one_bit m b i hb ∙ rw s (ap (bit m) ((==_iff i b).0 s) ∙ e ∙ sym (zero-bit i))
        | inr s ↦ and_one_bit m b i hb ∙ rw s (sym (zero-bit i))
      ]

and_one_bit_ne : (m b : ℕ) → b < 32 → bit m b ≡ 1 → bit_and m (shl32 1 b) ≢ 0
and_one_bit_ne m b hb e z =
    let kept : bit (bit_and m (shl32 1 b)) b ≡ 1 =
      ground (arith, and_one_bit m b b hb, eq→== b b refl) in
    omega (arith, kept, ap (λ t. bit t b) z, zero-bit b)

pub has_bit_lem : (m b : ℕ) → m < 2 ^ 32 → b < 32 → has_bit m b ≡ (bit m b == 1)
has_bit_lem m b hm hb = elim (Bool-cases (bit m b == 1)) [
  | inl e ↦ rw (e, ne→== _ _ (and_one_bit_ne m b hb ((==_iff _ _).0 e)))
  | inr e ↦ rw (e, and_one_bit_zero m b hm hb (ground (arith, bit-lt-two m b)))
]

-- `m | (1 << b)` has bit `b`, and the other bits of `m`.
pub bit-set_bit :
    (m b i : ℕ) → b < 32 → bit (bit_or m (shl32 1 b)) i ≡ (if i == b then 1 else bit m i)
bit-set_bit m b i h =
    ground (arith, bit-bit_or m (shl32 1 b) i, bit-shl32-one b i h, bit-lt-two m i)

-- A mask of `k` low ones takes the remainder.
pub bit_and_low : (k a : ℕ) → bit_and a (2 ^ k - 1) ≡ a % 2 ^ k
bit_and_low zero a = bit_and-zero a ∙ omega arith
bit_and_low (suc k) a =
    let half : (2 ^ suc k - 1) / 2 ≡ 2 ^ k - 1 = omega (arith, pow-suc 2 k, one-le-pow k 2) in
    let rest : bit_and (a / 2) ((2 ^ suc k - 1) / 2) ≡ a / 2 % 2 ^ k =
      rw half (bit_and_low k (a / 2)) in
    omega
      (arith, bit_and_step a (2 ^ suc k - 1), rest, mod_pow_suc a k, pow-suc 2 k, one-le-pow k 2)
