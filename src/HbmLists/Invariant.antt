-- ===== src/HbmLists/Invariant.antt =====
-- The invariant of the lists: a buffer stands in one list at most, and its state is that of the
-- list where it stands.
use acq400drv.Prelude.{
  ℕ, ◌≤◌, ◌<◌, ◌≡◌, ◌≢◌, refl, List, [], ◌∷◌, some, arith, inl, inr, count, count-append,
  List-cases,
}
use acq400drv.Device.{
  Dev, bs_empty, bs_filling, bs_full, bs_full_app, set_state, ListHead, in_empties, in_inflight,
  in_refills, in_opens, in_stash, list_of,
}
use acq400drv.AxiChain.Frame.{run_put_empty_hook-SameLists}
use acq400drv.HbmLists.{
  get_empty, put_full, get_empty_from_refills, full, take_full, put_empty, take_refill, empty_one,
  drain_to_empty, move_list_to_empty,
}
use acq400drv.HbmLists.Count.{total}

-- Buffer `q` of the device.
pub record InPlace (d : Dev) (q : ℕ) : Type 0 where
  pub once : total q d ≤ 1
  pub in_empties_state : 0 < count q d.empties → (d.hbm q).bstate ≡ bs_empty
  pub in_inflight_state : 0 < count q d.inflight → (d.hbm q).bstate ≡ bs_filling
  pub in_refills_state : 0 < count q d.refills → (d.hbm q).bstate ≡ bs_full
  pub in_opens_state : 0 < count q d.opens → (d.hbm q).bstate ≡ bs_full_app
  pub in_stash_state : 0 < count q d.stash → (d.hbm q).bstate ≡ bs_empty

abbrev pub IsValid : Dev → Type 0
IsValid d = (q : ℕ) → InPlace d q

pub get_empty-IsValid : (d : Dev) → IsValid d → IsValid (get_empty d).0
unfolding get_empty
get_empty-IsValid d v q = elim (List-cases d.empties) [
  | inl e ↦ ground (arith, v q)
  | inr (p, rest, e) ↦ ground (arith, v q, count-append q d.inflight (p ∷ []))
]

pub put_full-IsValid : (d : Dev) → IsValid d → IsValid (put_full d)
unfolding put_full
put_full-IsValid d v q = elim (List-cases d.inflight) [
  | inl e ↦ ground (arith, v q)
  | inr (p, rest, e) ↦ ground (arith, v q, count-append q d.refills (p ∷ []))
]

pub get_empty_from_refills-IsValid : (d : Dev) → IsValid d → IsValid (get_empty_from_refills d).0
unfolding get_empty_from_refills
get_empty_from_refills-IsValid d v q = elim (List-cases d.refills) [
  | inl e ↦ ground (arith, v q)
  | inr (p, rest, e) ↦ ground (arith, v q, count-append q d.inflight (p ∷ []))
]

pub take_full-IsValid : (p : ℕ) (d d' : Dev) → take_full d ≡ full p d' → IsValid d → IsValid d'
unfolding take_full
take_full-IsValid p d d' h v q = elim (List-cases d.refills) [
  | inl e ↦ ground arith
  | inr (p', rest, e) ↦ ground (arith, v q, count-append q d.opens (p' ∷ []))
]

pub put_empty-IsValid : (d d' : Dev) → put_empty d ≡ some d' → IsValid d → IsValid d'
unfolding put_empty
put_empty-IsValid d d' h v q = elim (List-cases d.opens) [
  | inl e ↦ ground arith
  | inr (p, rest, e) ↦
      let f = run_put_empty_hook-SameLists (record d { hbm = set_state d.hbm p bs_empty }) p in
      ground (arith, v q, f, f.states q, count-append q d.empties (p ∷ []))
]

empty_one-IsValid :
    (l : ListHead) (p : ℕ) (ps : List ℕ) (d : Dev)
    → l ≢ in_empties
    → list_of l d ≡ p ∷ ps
    → IsValid d
    → IsValid (empty_one l p ps d)
empty_one-IsValid in_empties p ps d ne e v q = absurd (ne refl)
empty_one-IsValid in_inflight p ps d ne e v q =
    ground (arith, v q, count-append q d.empties (p ∷ []))
empty_one-IsValid in_refills p ps d ne e v q =
    ground (arith, v q, count-append q d.empties (p ∷ []))
empty_one-IsValid in_opens p ps d ne e v q = ground (arith, v q, count-append q d.empties (p ∷ []))
empty_one-IsValid in_stash p ps d ne e v q = ground (arith, v q, count-append q d.empties (p ∷ []))

list_of-empty_one :
    (l : ListHead) (p : ℕ) (ps : List ℕ) (d : Dev)
    → l ≢ in_empties
    → list_of l (empty_one l p ps d) ≡ ps
list_of-empty_one in_empties p ps d ne = absurd (ne refl)
list_of-empty_one in_inflight p ps d ne = refl
list_of-empty_one in_refills p ps d ne = refl
list_of-empty_one in_opens p ps d ne = refl
list_of-empty_one in_stash p ps d ne = refl

drain_to_empty-IsValid :
    (l : ListHead) (ps : List ℕ) (d : Dev)
    → l ≢ in_empties
    → list_of l d ≡ ps
    → IsValid d
    → IsValid (drain_to_empty l ps d)
unfolding drain_to_empty
drain_to_empty-IsValid l [] d ne e v = v
drain_to_empty-IsValid l (p ∷ ps) d ne e v =
    drain_to_empty-IsValid l ps (empty_one l p ps d) ne (list_of-empty_one l p ps d ne)
      (empty_one-IsValid l p ps d ne e v)

pub move_list_to_empty-IsValid :
    (l : ListHead) (d : Dev) → l ≢ in_empties → IsValid d → IsValid (move_list_to_empty l d)
unfolding move_list_to_empty
move_list_to_empty-IsValid l d ne v = drain_to_empty-IsValid l (list_of l d) d ne refl v

pub take_refill-IsValid : (d d' : Dev) → take_refill d ≡ some d' → IsValid d → IsValid d'
unfolding take_refill
take_refill-IsValid d d' h v q = elim (List-cases d.refills) [
  | inl e ↦ ground arith
  | inr (p, rest, e) ↦ ground (arith, v q, count-append q d.inflight (p ∷ []))
]
