-- ===== src/Bits.antt =====
-- Registers bit by bit: `|`, `&`, `~`, `<<` and `>>` of C on 32-bit words, described through the
-- value of each single bit, for every mask and shift.
pub mod Step
pub mod Masks
use Step.{bit_or_step, bit_and_step}
use Prim.Native.Nat.{bit_and-bitwise}
use mathlib.Core.Path.{ap, ◌∙◌}
use native.Mathlib.Nat.{pow-suc, one-le-pow, mod-eq-sub-mul-div, div-div-eq-div-mul, mul-div-le}
use acq400drv.Prelude.{ℕ, zero, suc, ◌+◌, ◌-◌, ◌*◌, ◌/◌, ◌%◌, ◌^◌, ◌≤◌, ◌<◌, min, max}
use acq400drv.Prelude.{bit_and, bit_or, ◌≡◌, refl, arith, if◌then◌else◌, ltb, le→ltb}

-- bit `i` of `x`, as 0 or 1
abbrev pub bit : ℕ → ℕ → ℕ
bit x zero = x % 2
bit x (suc i) = bit (x / 2) i

-- `x << k` of a 32-bit word.
abbrev pub shl32 : ℕ → ℕ → ℕ
shl32 x k = x * 2 ^ k % 2 ^ 32

-- `~x` of a 32-bit word.
abbrev pub not32 : ℕ → ℕ
not32 x = 2 ^ 32 - 1 - x

pub bit-lt-two : (x i : ℕ) → bit x i < 2
bit-lt-two x zero = omega arith
bit-lt-two x (suc i) = bit-lt-two (x / 2) i

pub zero-bit : (i : ℕ) → bit 0 i ≡ 0
zero-bit zero = refl
zero-bit (suc i) = zero-bit i

pub bit-bit_or : (x y i : ℕ) → bit (bit_or x y) i ≡ max (bit x i) (bit y i)
bit-bit_or x y zero = omega (arith, bit_or_step x y)
bit-bit_or x y (suc i) =
    let half : bit_or x y / 2 ≡ bit_or (x / 2) (y / 2) = omega (arith, bit_or_step x y) in
    rw half (bit-bit_or (x / 2) (y / 2) i)

pub bit-bit_and : (x y i : ℕ) → bit (bit_and x y) i ≡ min (bit x i) (bit y i)
bit-bit_and x y zero = omega (arith, bit_and_step x y)
bit-bit_and x y (suc i) =
    let half : bit_and x y / 2 ≡ bit_and (x / 2) (y / 2) = omega (arith, bit_and_step x y) in
    rw half (bit-bit_and (x / 2) (y / 2) i)

double_pow : (x k : ℕ) → x * 2 ^ suc k ≡ 2 * (x * 2 ^ k)
double_pow x k = omega (arith, ap (λ (t : ℕ). x * t) (pow-suc 2 k))

pub bit-shl : (x k i : ℕ) → bit (x * 2 ^ k) i ≡ (if ltb i k then 0 else bit x (i - k))
bit-shl x zero i =
    let e : x * 2 ^ 0 ≡ x = omega arith in
    let d : i - 0 ≡ i = omega arith in rw (e, d, le→ltb i 0 (omega arith))
bit-shl x (suc k) zero = ground (arith, double_pow x k)
bit-shl x (suc k) (suc i) =
    let half : x * 2 ^ suc k / 2 ≡ x * 2 ^ k = omega (arith, double_pow x k) in
    let shift : suc i - suc k ≡ i - k = omega arith in
    rw (half, shift) (bit-shl x k i ∙ ground arith)

mod_double : (x p : ℕ) → x % (2 * p) ≡ 2 * (x / 2 % p) + x % 2
mod_double x p = omega (
  arith,
  mod-eq-sub-mul-div x (2 * p),
  mod-eq-sub-mul-div (x / 2) p,
  ap (λ (t : ℕ). p * t) (div-div-eq-div-mul x 2 p),
  mul-div-le (x / 2) p,
)

mod_pow_suc : (x w : ℕ) → x % 2 ^ suc w ≡ 2 * (x / 2 % 2 ^ w) + x % 2
mod_pow_suc x w =
    let e : 2 ^ suc w ≡ 2 * 2 ^ w = omega (arith, pow-suc 2 w) in rw e (mod_double x (2 ^ w))

div_pow_suc : (x k : ℕ) → x / 2 ^ suc k ≡ x / 2 / 2 ^ k
div_pow_suc x k =
    let e : 2 ^ suc k ≡ 2 * 2 ^ k = omega (arith, pow-suc 2 k) in
    rw (e, div-div-eq-div-mul x 2 (2 ^ k))

pub bit-shr : (x k i : ℕ) → bit (x / 2 ^ k) i ≡ bit x (i + k)
bit-shr x zero i =
    let e : x / 2 ^ 0 ≡ x = omega arith in let d : i + 0 ≡ i = omega arith in rw (e, d)
bit-shr x (suc k) i =
    let shift : i + suc k ≡ suc (i + k) = omega arith in
    rw (div_pow_suc x k, shift) (bit-shr (x / 2) k i)

pub bit-mod : (x w i : ℕ) → bit (x % 2 ^ w) i ≡ (if ltb i w then bit x i else 0)
bit-mod x zero i =
    let e : x % 2 ^ 0 ≡ 0 = omega arith in rw (e, le→ltb i 0 (omega arith)) (zero-bit i)
bit-mod x (suc w) zero = ground (arith, mod_pow_suc x w)
bit-mod x (suc w) (suc i) =
    let half : x % 2 ^ suc w / 2 ≡ x / 2 % 2 ^ w = omega (arith, mod_pow_suc x w) in
    rw half (bit-mod (x / 2) w i ∙ ground arith)

pub bit_above : (x w i : ℕ) → x < 2 ^ w → w ≤ i → bit x i ≡ 0
bit_above x zero i h p = let e : x ≡ 0 = omega arith in rw e (zero-bit i)
bit_above x (suc w) zero h p = absurd (omega arith)
bit_above x (suc w) (suc i) h p = bit_above (x / 2) w i (omega (arith, pow-suc 2 w)) (omega arith)

lt-two-pow-suc : (x : ℕ) → x < 2 ^ (x + 1)
lt-two-pow-suc zero = omega arith
lt-two-pow-suc (suc x) =
    let e : suc x + 1 ≡ suc (x + 1) = omega arith in
    rw e (omega (arith, pow-suc 2 (x + 1), lt-two-pow-suc x))

-- Words of `w` bits that agree bit by bit are equal.
pub bit_ext : (w x y : ℕ) → x < 2 ^ w → y < 2 ^ w → ((i : ℕ) → i < w → bit x i ≡ bit y i) → x ≡ y
bit_ext zero x y hx hy e = omega arith
bit_ext (suc w) x y hx hy e =
    let low : x % 2 ≡ y % 2 = e 0 (omega arith) in
    let high =
      bit_ext w (x / 2) (y / 2) (omega (arith, pow-suc 2 w)) (omega (arith, pow-suc 2 w))
        (λ i p. e (suc i) (omega arith)) in
    omega arith

-- The complement within `w` bits flips each of them.
pub bit-complement : (w x i : ℕ) → x < 2 ^ w → i < w → bit (2 ^ w - 1 - x) i ≡ 1 - bit x i
bit-complement zero x i h p = absurd (omega arith)
bit-complement (suc w) x zero h p = omega (arith, pow-suc 2 w, one-le-pow w 2)
bit-complement (suc w) x (suc i) h p =
    let half : (2 ^ suc w - 1 - x) / 2 ≡ 2 ^ w - 1 - x / 2 =
      omega (arith, pow-suc 2 w, one-le-pow w 2) in
    rw half (bit-complement w (x / 2) i (omega (arith, pow-suc 2 w)) (omega arith))

pub bit_or-lt : (w x y : ℕ) → x < 2 ^ w → y < 2 ^ w → bit_or x y < 2 ^ w
bit_or-lt zero x y hx hy =
    let e : x ≡ 0 = omega arith in let d : y ≡ 0 = omega arith in rw (e, d) (omega arith)
bit_or-lt (suc w) x y hx hy =
    omega (arith, bit_or_step x y, pow-suc 2 w, bit_or-lt w (x / 2) (y / 2))

pub bit_and-le : (w x y : ℕ) → x < 2 ^ w → bit_and x y ≤ x
bit_and-le zero x y hx =
    let e : x ≡ 0 = omega arith in rw e (omega (arith, bit_and_step 0 y, bit_and-bitwise 0 y))
bit_and-le (suc w) x y hx =
    omega (arith, bit_and_step x y, pow-suc 2 w, bit_and-le w (x / 2) (y / 2))

pub bit_and-zero : (x : ℕ) → bit_and x 0 ≡ 0
bit_and-zero x =
    bit_ext (x + 1) (bit_and x 0) 0
      (omega (arith, bit_and-le (x + 1) x 0 (lt-two-pow-suc x), lt-two-pow-suc x))
      (omega (arith, one-le-pow (x + 1) 2)) λ i _. omega (arith, bit-bit_and x 0 i, zero-bit i)

pub bit_and-le_right : (w x y : ℕ) → y < 2 ^ w → bit_and x y ≤ y
bit_and-le_right zero x y h = let e : y ≡ 0 = omega arith in rw e (omega (arith, bit_and-zero x))
bit_and-le_right (suc w) x y h =
    omega (arith, bit_and_step x y, pow-suc 2 w, bit_and-le_right w (x / 2) (y / 2))

pub bit_and_self : (w x : ℕ) → x < 2 ^ w → bit_and x x ≡ x
bit_and_self zero x h = let e : x ≡ 0 = omega arith in rw e (bit_and-zero 0)
bit_and_self (suc w) x h = omega (arith, bit_and_step x x, pow-suc 2 w, bit_and_self w (x / 2))

pub bit_and_comm : (w x y : ℕ) → x < 2 ^ w → y < 2 ^ w → bit_and x y ≡ bit_and y x
bit_and_comm w x y hx hy =
    bit_ext w (bit_and x y) (bit_and y x) (omega (arith, bit_and-le w x y hx))
      (omega (arith, bit_and-le w y x hy))
      λ i _. omega (arith, bit-bit_and x y i, bit-bit_and y x i)
