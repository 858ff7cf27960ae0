-- ===== src/DeviceSet/Members.antt =====
-- A set as `acq400_add_set` fills it: members first, each once, then free places. What the walks over
-- it reach, and the mask that it gives.
use acq400drv.Prelude.{
  ℕ, zero, suc, ◌+◌, ◌-◌, ◌≤◌, ◌≡◌, ◌≢◌, refl, ◌∙◌, Bool, true, ◌&&◌, List, [], ◌∷◌, ◌++◌, none,
  some, arith, ◌==◌, ltb, leb, if◌then◌else◌, count, length, get_or, replicate, bit_or,
}
use acq400drv.Bits.{bit, shl32, zero-bit}
use acq400drv.Bits.Masks.{bit-set_bit, bit-shl32}
use acq400drv.Device.{truthy}
use acq400drv.DeviceSet.{add_set, set_mask, register_mask, visit_set_arg}

-- The array of the set of `members`, with `free` places left.
abbrev pub packed : List ℕ → ℕ → List ℕ
packed members free = members ++ replicate free 0

-- What adding `slave` shall do.
abbrev pub added : List ℕ → ℕ → ℕ → List ℕ × Bool
added members zero slave = (packed members 0, ltb 0 (count slave members))
added members (suc free) slave =
    if ltb 0 (count slave members)
    then (packed members (suc free), true)
    else (members ++ slave ∷ replicate free 0, true)

-- `acq400_add_set` leaves a set alone that has the device already, else puts the device behind the
-- members, and fails only if it is new and no place is free.
pub add_set-packed :
    (members : List ℕ) (free slave : ℕ)
    → count 0 members ≡ 0
    → slave ≢ 0
    → add_set (packed members free) slave ≡ added members free slave
unfolding add_set
add_set-packed [] zero slave h ne = refl
add_set-packed [] (suc free) slave h ne = ground arith
add_set-packed (x ∷ xs) zero slave h ne = ground (arith, add_set-packed xs zero slave)
add_set-packed (x ∷ xs) (suc free) slave h ne = ground (arith, add_set-packed xs (suc free) slave)

-- `acq400_visit_set_arg` visits the members in order if a place is free; of a full set it reads past
-- the array.
pub visit_set_arg-packed :
    (members : List ℕ) (free : ℕ)
    → count 0 members ≡ 0
    → visit_set_arg (packed members free) ≡ (if free == 0 then none else some members)
unfolding visit_set_arg
visit_set_arg-packed [] zero h = refl
visit_set_arg-packed [] (suc free) h = ground arith
visit_set_arg-packed (x ∷ xs) free h = ground (arith, visit_set_arg-packed xs free)

-- Place `i - ia` of `l` is taken.
abbrev pub is_taken : ℕ → List ℕ → ℕ → Bool
is_taken ia l i = leb ia i && truthy (get_or l (i - ia) 0)

get_or_cons :
    (x : ℕ) (xs : List ℕ) (n : ℕ)
    → get_or (x ∷ xs) n 0 ≡ (if n == 0 then x else get_or xs (n - 1) 0)
get_or_cons x xs zero = refl
get_or_cons x xs (suc n) = let e : suc n - 1 ≡ n = omega arith in ground arith

get_or_beyond : (l : List ℕ) (n : ℕ) → length l ≤ n → get_or l n 0 ≡ 0
get_or_beyond [] n h = refl
get_or_beyond (x ∷ xs) zero h = absurd (omega arith)
get_or_beyond (x ∷ xs) (suc n) h = get_or_beyond xs n (omega arith)

bit-set_mask :
    (l : List ℕ) (ia mask i : ℕ)
    → ia + length l ≤ 32
    → bit (set_mask ia l mask) i ≡ (if is_taken ia l i then 1 else bit mask i)
unfolding set_mask
bit-set_mask [] ia mask i h = ground arith
bit-set_mask (x ∷ xs) ia mask i h =
    let less : i - ia - 1 ≡ i - (ia + 1) = omega arith in
    let later =
      bit-set_mask xs (ia + 1) (if truthy x then bit_or mask (shl32 1 ia) else mask) i
        (omega arith) in
    let here = get_or_cons x xs (i - ia) in
    later ∙ rw (here, less) (ground (arith, bit-set_bit mask ia i))

-- The mask of a set has the bits 18 and up for the places that are taken, and no other.
bit-register_mask :
    (set : List ℕ) (i : ℕ)
    → length set ≤ 14
    → bit (register_mask set) i ≡ (if is_taken 18 set i then 1 else 0)
unfolding register_mask
bit-register_mask set i h = ground (
  arith,
  bit-shl32 (set_mask 0 set 0) 18 i,
  bit-set_mask set 0 0 (i - 18),
  zero-bit (i - 18),
  get_or_beyond set (i - 18),
)
