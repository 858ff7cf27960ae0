-- ===== src/Bits/Step.antt =====
-- One equation for the lowest digit of `|` and `&`, whose library definition is a recursion on
-- binary digits with fuel.
use Prim.Native.Nat.{digits, bitwise, bit_and-bitwise, bit_or-bitwise}
use acq400drv.Prelude.{
  ℕ, zero, suc, ◌+◌, ◌*◌, ◌/◌, ◌%◌, ◌≤◌, min, max, bit_and, bit_or, ◌≡◌, refl, arith,
}

module _ (stop : ℕ → ℕ) (f : ℕ → ℕ → ℕ) where
  digits_irrelevant : (n m x y : ℕ) → x ≤ n → x ≤ m → digits stop f n x y ≡ digits stop f m x y
  digits_irrelevant zero zero x y p q = refl
  digits_irrelevant zero (suc m) zero y p q = refl
  digits_irrelevant zero (suc m) (suc x) y p q = absurd (omega arith)
  digits_irrelevant (suc n) zero zero y p q = refl
  digits_irrelevant (suc n) zero (suc x) y p q = absurd (omega arith)
  digits_irrelevant (suc n) (suc m) zero y p q = refl
  digits_irrelevant (suc n) (suc m) (suc x) y p q =
      rw (digits_irrelevant n m (suc x / 2) (y / 2) (omega arith) (omega arith))

  bitwise_unroll :
      (x y : ℕ)
      → bitwise stop f (suc x) y ≡ bitwise stop f (suc x / 2) (y / 2) * 2 + f (suc x % 2) (y % 2)
  bitwise_unroll x y =
      omega (arith, digits_irrelevant x (suc x / 2) (suc x / 2) (y / 2) (omega arith) (omega arith))

pub bit_or_step : (x y : ℕ) → bit_or x y ≡ bit_or (x / 2) (y / 2) * 2 + max (x % 2) (y % 2)
bit_or_step zero y = simp bit_or-bitwise (omega arith)
bit_or_step (suc x) y = simp bit_or-bitwise (bitwise_unroll (λ t. t) max x y)

pub bit_and_step : (x y : ℕ) → bit_and x y ≡ bit_and (x / 2) (y / 2) * 2 + min (x % 2) (y % 2)
bit_and_step zero y = simp bit_and-bitwise (omega arith)
bit_and_step (suc x) y = simp bit_and-bitwise (bitwise_unroll (λ t. 0) min x y)
