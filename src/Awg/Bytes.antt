-- ===== src/Awg/Bytes.antt =====
-- acq400_ui.c, the copies of `xo400_awg_write` and `xo400_awg_read` and `flip_x16_sign_bit`, on lists of bytes.
use acq400drv.Prelude.{
  ℕ, zero, suc, ◌+◌, ◌<◌, ◌≤◌, ◌≡◌, ◌⊎◌, inl, inr, refl, arith, true, false, List, [], ◌∷◌, length,
  ap, if◌then◌else◌, get_or,
}
use acq400drv.Awg.{Kind, take, bytes_at, copy_to, flip_x16_sign_bit, signs_flipped}

length-flip : (l : List ℕ) → length (flip_x16_sign_bit l) ≡ length l
length-flip [] = refl
length-flip (x ∷ []) = refl
length-flip (x ∷ y ∷ l) = ap (λ n. suc (suc n)) (length-flip l)

pub length-signs_flipped : (k : Kind) (l : List ℕ) → length (signs_flipped k l) ≡ length l
length-signs_flipped k l =
    elim k.flips as (λ b. length (if b then flip_x16_sign_bit l else l) ≡ length l) [
      | true ↦ length-flip l
      | false ↦ refl
    ]

pub length-take : (n : ℕ) (l : List ℕ) → n ≤ length l → length (take n l) ≡ n
length-take zero l h = refl
length-take (suc n) [] h = omega arith
length-take (suc n) (x ∷ l) h = ap suc (length-take n l (omega arith))

take-copy_to : (l xs : List ℕ) → length xs ≤ length l → take (length xs) (copy_to l 0 xs) ≡ xs
take-copy_to l [] h = refl
take-copy_to [] (y ∷ ys) h = absurd (omega arith)
take-copy_to (x ∷ l) (y ∷ ys) h = ap (λ t. y ∷ t) (take-copy_to l ys (omega arith))

pub bytes_at-copy_to :
    (l : List ℕ) (offset : ℕ) (xs : List ℕ)
    → offset + length xs ≤ length l
    → bytes_at (copy_to l offset xs) offset (length xs) ≡ xs
bytes_at-copy_to l zero xs h = take-copy_to l xs (omega arith)
bytes_at-copy_to [] (suc offset) xs h = absurd (omega arith)
bytes_at-copy_to (x ∷ l) (suc offset) [] h = bytes_at-copy_to l offset [] (omega arith)
bytes_at-copy_to (x ∷ l) (suc offset) (y ∷ ys) h = bytes_at-copy_to l offset (y ∷ ys) (omega arith)

pub length-copy_to :
    (l : List ℕ) (offset : ℕ) (xs : List ℕ) → length (copy_to l offset xs) ≡ length l
length-copy_to l offset [] = refl
length-copy_to [] offset (y ∷ ys) = refl
length-copy_to (x ∷ l) zero (y ∷ ys) = ap suc (length-copy_to l 0 ys)
length-copy_to (x ∷ l) (suc offset) (y ∷ ys) = ap suc (length-copy_to l offset (y ∷ ys))

-- A copy changes nothing before and nothing after.
pub get_or-copy_to :
    (l : List ℕ) (offset : ℕ) (xs : List ℕ) (j : ℕ)
    → (j < offset) ⊎ (offset + length xs ≤ j)
    → get_or (copy_to l offset xs) j 0 ≡ get_or l j 0
get_or-copy_to l offset [] j h = refl
get_or-copy_to [] offset (y ∷ ys) j h = refl
get_or-copy_to (x ∷ l) zero (y ∷ ys) zero h = absurd (omega arith)
get_or-copy_to (x ∷ l) zero (y ∷ ys) (suc j) h = get_or-copy_to l 0 ys j (inr (omega arith))
get_or-copy_to (x ∷ l) (suc offset) (y ∷ ys) zero h = refl
get_or-copy_to (x ∷ l) (suc offset) (y ∷ ys) (suc j) (inl h) =
    get_or-copy_to l offset (y ∷ ys) j (inl (omega arith))
get_or-copy_to (x ∷ l) (suc offset) (y ∷ ys) (suc j) (inr h) =
    get_or-copy_to l offset (y ∷ ys) j (inr (omega arith))
