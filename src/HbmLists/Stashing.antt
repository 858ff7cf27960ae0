-- ===== src/HbmLists/Stashing.antt =====
-- acq400_lists.c, `move_list_to_stash`: it keeps the lists well-formed, and loses or doubles no buffer.
use acq400drv.Prelude.{
  ℕ, ◌+◌, ◌==◌, ◌≡◌, ◌≢◌, refl, ◌∙◌, List, [], ◌∷◌, arith, count-append, if◌then◌else◌,
}
use acq400drv.Device.{
  Dev, ListHead, in_empties, in_inflight, in_refills, in_opens, in_stash, list_of,
}
use acq400drv.HbmLists.{stash_one, drain_to_stash, move_list_to_stash}
use acq400drv.HbmLists.Count.{total}
use acq400drv.HbmLists.Invariant.{IsValid}

list_of-stash_one :
    (l : ListHead) (p : ℕ) (ps : List ℕ) (d : Dev)
    → l ≢ in_stash
    → list_of l (stash_one l p ps d) ≡ ps
list_of-stash_one in_empties p ps d ne = refl
list_of-stash_one in_inflight p ps d ne = refl
list_of-stash_one in_refills p ps d ne = refl
list_of-stash_one in_opens p ps d ne = refl
list_of-stash_one in_stash p ps d ne = absurd (ne refl)

total-stash_one :
    (q : ℕ) (l : ListHead) (p : ℕ) (ps : List ℕ) (d : Dev)
    → l ≢ in_stash
    → list_of l d ≡ p ∷ ps
    → total q (stash_one l p ps d) ≡ total q d
total-stash_one q in_empties p ps d ne e = ground (arith, count-append q d.stash (p ∷ []))
total-stash_one q in_inflight p ps d ne e = ground (arith, count-append q d.stash (p ∷ []))
total-stash_one q in_refills p ps d ne e = ground (arith, count-append q d.stash (p ∷ []))
total-stash_one q in_opens p ps d ne e = ground (arith, count-append q d.stash (p ∷ []))
total-stash_one q in_stash p ps d ne e = absurd (ne refl)

stash_one-IsValid :
    (l : ListHead) (p : ℕ) (ps : List ℕ) (d : Dev)
    → l ≢ in_stash
    → list_of l d ≡ p ∷ ps
    → IsValid d
    → IsValid (stash_one l p ps d)
stash_one-IsValid in_empties p ps d ne e v q = ground (arith, v q, count-append q d.stash (p ∷ []))
stash_one-IsValid in_inflight p ps d ne e v q = ground (arith, v q, count-append q d.stash (p ∷ []))
stash_one-IsValid in_refills p ps d ne e v q = ground (arith, v q, count-append q d.stash (p ∷ []))
stash_one-IsValid in_opens p ps d ne e v q = ground (arith, v q, count-append q d.stash (p ∷ []))
stash_one-IsValid in_stash p ps d ne e v q = absurd (ne refl)

-- The count of usable buffers after the round of `p`.
abbrev counted : ℕ → Dev → ℕ → ℕ
counted p d n = if (d.hbm p).ix == 0 then n else n + 1

total-drain_to_stash :
    (q : ℕ) (l : ListHead) (ps : List ℕ) (d : Dev) (n : ℕ)
    → l ≢ in_stash
    → list_of l d ≡ ps
    → total q (drain_to_stash l ps d n).0 ≡ total q d
unfolding drain_to_stash
total-drain_to_stash q l [] d n ne e = refl
total-drain_to_stash q l (p ∷ ps) d n ne e =
    total-drain_to_stash q l ps (stash_one l p ps d) (counted p d n) ne
      (list_of-stash_one l p ps d ne)
    ∙ total-stash_one q l p ps d ne e

drain_to_stash-IsValid :
    (l : ListHead) (ps : List ℕ) (d : Dev) (n : ℕ)
    → l ≢ in_stash
    → list_of l d ≡ ps
    → IsValid d
    → IsValid (drain_to_stash l ps d n).0
unfolding drain_to_stash
drain_to_stash-IsValid l [] d n ne e v = v
drain_to_stash-IsValid l (p ∷ ps) d n ne e v =
    drain_to_stash-IsValid l ps (stash_one l p ps d) (counted p d n) ne
      (list_of-stash_one l p ps d ne) (stash_one-IsValid l p ps d ne e v)

pub total-move_list_to_stash :
    (q : ℕ) (l : ListHead) (d : Dev) → l ≢ in_stash → total q (move_list_to_stash l d).0 ≡ total q d
unfolding move_list_to_stash
total-move_list_to_stash q l d ne = total-drain_to_stash q l (list_of l d) d 0 ne refl

pub move_list_to_stash-IsValid :
    (l : ListHead) (d : Dev) → l ≢ in_stash → IsValid d → IsValid (move_list_to_stash l d).0
unfolding move_list_to_stash
move_list_to_stash-IsValid l d ne v = drain_to_stash-IsValid l (list_of l d) d 0 ne refl v
