-- ===== src/HbmLists/Safety.antt =====
-- acq400_lists.c: what the invariant of the lists gives for any interleaving of the input side.
use mathlib.Core.Bool.{true≢false}
use acq400drv.Prelude.{
  ◌≡◌, ◌⊎◌, refl, sym, ◌∙◌, ap, subst, List, [], ◌∷◌, some, none, false, arith, inl, inr,
  List-cases, Bool-cases, Option-cases, is_empty,
}
use acq400drv.Device.{Dev, in_empties, in_stash, truthy}
use acq400drv.HbmLists.{get_full, woken, take_full, is_refill_ready, put_empty, take_refill}
use acq400drv.HbmLists.Steps.{
  Op, gets_empty, puts_full, pulls_refill, gets_full, wakes, puts_empty, takes_full, takes_refill,
  frees, stashes, after_get_full, is_own, step, run, is_headed, Headless,
}
use acq400drv.HbmLists.Invariant.{
  IsValid, get_empty-IsValid, put_full-IsValid, get_empty_from_refills-IsValid, take_full-IsValid,
  put_empty-IsValid, move_list_to_empty-IsValid, take_refill-IsValid,
}
use acq400drv.HbmLists.Stashing.{move_list_to_stash-IsValid}

keep_IsValid : {d d' : Dev} → some d ≡ some d' → IsValid d → IsValid d'
keep_IsValid h v = subst IsValid (cc) v

after-take_full-IsValid :
    (d d' : Dev) → after_get_full (take_full d) ≡ some d' → IsValid d → IsValid d'
unfolding take_full
after-take_full-IsValid d d' h v = elim (List-cases d.refills) [
  | inl e ↦ absurd (ground arith)
  | inr (p, rest, e) ↦ take_full-IsValid p d d' (ground arith) v
]

after-woken-IsValid :
    (d d' : Dev) → after_get_full (woken (λ x. x) d) ≡ some d' → IsValid d → IsValid d'
unfolding woken
after-woken-IsValid d d' h v = elim (Bool-cases (truthy d.rt.please_stop)) [
  | inl e ↦ keep_IsValid (rw (e, woken) at h) v
  | inr e ↦ elim (Bool-cases (truthy d.rt.refill_error)) [
    | inl r ↦ keep_IsValid (rw (e, r, woken) at h) v
    | inr r ↦ after-take_full-IsValid d d' (rw (e, r, woken) at h) v
  ]
]

step-IsValid : (d d' : Dev) (op : Op) → step d op ≡ some d' → IsValid d → IsValid d'
unfolding step get_full
step-IsValid d d' gets_empty h v = keep_IsValid h (get_empty-IsValid d v)
step-IsValid d d' puts_full h v = keep_IsValid h (put_full-IsValid d v)
step-IsValid d d' pulls_refill h v = keep_IsValid h (get_empty_from_refills-IsValid d v)
step-IsValid d d' gets_full h v = elim (Bool-cases (is_empty d.refills)) [
  | inl e ↦ keep_IsValid (rw (e, get_full) at h) v
  | inr e ↦ after-take_full-IsValid d d' (rw (e, get_full) at h) v
]
step-IsValid d d' wakes h v = elim (Bool-cases (is_refill_ready d)) [
  | inl e ↦ after-woken-IsValid d d' (rw (e, step) at h) v
  | inr e ↦ keep_IsValid (rw (e, step) at h) v
]
step-IsValid d d' puts_empty h v = put_empty-IsValid d d' h v
step-IsValid d d' takes_full h v = after-take_full-IsValid d d' h v
step-IsValid d d' takes_refill h v = take_refill-IsValid d d' h v
step-IsValid d d' (frees l) h v = elim (Bool-cases (is_own in_empties l)) [
  | inl e ↦ absurd (ground arith)
  | inr e ↦
      keep_IsValid (rw (e, step) at h)
        (move_list_to_empty-IsValid l d (λ s. true≢false (ap (is_own in_empties) (sym s) ∙ e)) v)
]
step-IsValid d d' (stashes l) h v = elim (Bool-cases (is_own in_stash l)) [
  | inl e ↦ absurd (ground arith)
  | inr e ↦
      keep_IsValid (rw (e, step) at h)
        (move_list_to_stash-IsValid l d (λ s. true≢false (ap (is_own in_stash) (sym s) ∙ e)) v)
]

-- Only a step that does not find what it relies on faults; `getFull` as one step never does.
step_fault : (d : Dev) (op : Op) → step d op ≡ none → is_headed d op ≡ false
unfolding step get_full take_full woken put_empty take_refill
step_fault d gets_empty h = absurd (cc)
step_fault d puts_full h = absurd (cc)
step_fault d pulls_refill h = absurd (cc)
step_fault d gets_full h = elim (List-cases d.refills) [
  | inl e ↦ ground arith
  | inr (p, rest, e) ↦ ground arith
]
step_fault d wakes h = elim (List-cases d.refills) [
  | inl e ↦ ground arith
  | inr (p, rest, e) ↦ ground arith
]
step_fault d puts_empty h = elim (List-cases d.opens) [
  | inl e ↦ rw e refl
  | inr (p, rest, e) ↦ ground arith
]
step_fault d takes_full h = elim (List-cases d.refills) [
  | inl e ↦ rw e refl
  | inr (p, rest, e) ↦ ground arith
]
step_fault d takes_refill h = elim (List-cases d.refills) [
  | inl e ↦ rw e refl
  | inr (p, rest, e) ↦ ground arith
]
step_fault d (frees l) h = elim (Bool-cases (is_own in_empties l)) [
  | inl e ↦ rw e refl
  | inr e ↦ absurd (ground arith)
]
step_fault d (stashes l) h = elim (Bool-cases (is_own in_stash l)) [
  | inl e ↦ rw e refl
  | inr e ↦ absurd (ground arith)
]

-- Let the buffers of a device stand in one list each at most, in the state that belongs to the list.
-- Any interleaving of the input side's list functions (`getEmpty`, `putFull`, `getEmptyFromRefills`,
-- `getFull`, `putEmpty`, `move_list_to_empty` and `move_list_to_stash`, with `getFull` and
-- `getEmptyFromRefills` also entered at the lock, after an earlier test) either comes to its end with
-- a device of which that still holds, or some step takes the head of a list that is empty by then, or
-- moves a list to itself.
pub run-IsValid :
    (ops : List Op) (d : Dev)
    → IsValid d
    → ((d' : Dev) × (run d ops ≡ some d') × IsValid d') ⊎ ((run d ops ≡ none) × Headless d ops)
unfolding run
run-IsValid [] d v = inl (d, refl, v)
run-IsValid (op ∷ ops) d v = elim (Option-cases (step d op)) [
  | inl e ↦ inr (rw (e, run) refl, inl (step_fault d op e))
  | inr (d1, e) ↦ elim (run-IsValid ops d1 (step-IsValid d d1 op e v)) [
    | inl (d', r, w) ↦ inl (d', rw (e, run) r, w)
    | inr (r, headless) ↦ inr (rw (e, run) r, inr (d1, e, headless))
  ]
]
