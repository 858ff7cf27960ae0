-- ===== src/Prelude/Words.antt =====
-- C's arithmetic on 32-bit words. An `int` is held as its two's complement word, so that signed and
-- unsigned readings of one value meet as they do in C.
use Prim.Native.Nat.{ℕ, ◌+◌, ◌-◌, ◌%◌, ◌^◌, ◌≤◌, ◌<◌}
use mathlib.Core.Path.{◌≡◌}
use mathlib.Core.Bool.{Bool, not}
use native.Mathlib.Omega.{arith}
use acq400drv.Prelude.Tests.{ltb, if◌then◌else◌}

-- `a - b`
abbrev pub sub32 : ℕ → ℕ → ℕ
sub32 a b = (a + (2 ^ 32 - b)) % 2 ^ 32

-- `a < b`, both read as `int`
abbrev pub lt_int : ℕ → ℕ → Bool
lt_int a b = ltb ((a + 2 ^ 31) % 2 ^ 32) ((b + 2 ^ 31) % 2 ^ 32)

abbrev pub le_int : ℕ → ℕ → Bool
le_int a b = not (lt_int b a)

abbrev pub min_int : ℕ → ℕ → ℕ
min_int a b = if lt_int a b then a else b

pub sub32-le : (a b : ℕ) → b ≤ a → a < 2 ^ 32 → sub32 a b ≡ a - b
sub32-le a b h k = omega arith

pub lt_int-small : (a b : ℕ) → a < 2 ^ 31 → b < 2 ^ 31 → lt_int a b ≡ ltb a b
lt_int-small a b h k = ground arith
