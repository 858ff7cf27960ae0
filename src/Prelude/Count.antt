-- ===== src/Prelude/Count.antt =====
-- How often a number stands in a list: kernel lists of buffers are read as multisets by it.
use Prim.Native.Nat.{ℕ, ◌+◌, ◌-◌}
use mathlib.Core.Path.{◌≡◌, refl}
use mathlib.Core.Logic.{◌≢◌}
use mathlib.Core.List.{List, [], ◌∷◌, ◌++◌}
use native.Mathlib.Omega.{arith}
use acq400drv.Prelude.Tests.{◌==◌, if◌then◌else◌}

abbrev pub count : ℕ → List ℕ → ℕ
count a [] = 0
count a (x ∷ xs) = (if x == a then 1 else 0) + count a xs

-- `list_del`: the first occurrence goes.
abbrev pub erase : ℕ → List ℕ → List ℕ
erase a [] = []
erase a (x ∷ xs) = if x == a then xs else x ∷ erase a xs

pub count-append : (a : ℕ) (xs ys : List ℕ) → count a (xs ++ ys) ≡ count a xs + count a ys
count-append a [] ys = omega arith
count-append a (x ∷ xs) ys = ground (arith, count-append a xs ys)

pub count-erase_self : (a : ℕ) (xs : List ℕ) → count a (erase a xs) ≡ count a xs - 1
count-erase_self a [] = omega arith
count-erase_self a (x ∷ xs) = ground (arith, count-erase_self a xs)

pub count-erase_ne : (a b : ℕ) (xs : List ℕ) → a ≢ b → count b (erase a xs) ≡ count b xs
count-erase_ne a b [] h = refl
count-erase_ne a b (x ∷ xs) h = ground (arith, count-erase_ne a b xs)
