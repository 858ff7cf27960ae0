-- ===== src/HbmLists/Runs.antt =====
-- What holds after any interleaving of the list functions.
use mathlib.Core.Bool.{true≢false}
use acq400drv.Prelude.{
  ℕ, ◌≡◌, sym, ◌∙◌, ap, List, [], ◌∷◌, some, arith, inl, inr, List-cases, Bool-cases, Option-cases,
  is_empty,
}
use acq400drv.Device.{Dev, in_empties, in_stash, truthy}
use acq400drv.HbmLists.{take_full, get_full, woken, is_refill_ready}
use acq400drv.HbmLists.Steps.{
  Op, gets_empty, puts_full, pulls_refill, gets_full, wakes, puts_empty, takes_full, takes_refill,
  frees, stashes, is_own, after_get_full, step, run,
}
use acq400drv.HbmLists.Count.{
  total, total-get_empty, total-put_full, total-get_empty_from_refills, total-take_full,
  total-put_empty, total-move_list_to_empty, total-take_refill,
}
use acq400drv.HbmLists.Stashing.{total-move_list_to_stash}

after-take_full-total :
    (q : ℕ) (d d' : Dev) → after_get_full (take_full d) ≡ some d' → total q d' ≡ total q d
unfolding take_full
after-take_full-total q d d' h = elim (List-cases d.refills) [
  | inl e ↦ absurd (ground arith)
  | inr (p, rest, e) ↦ total-take_full q p d d' (ground arith)
]

same_dev : {d d' : Dev} → some d ≡ some d' → d' ≡ d
same_dev h = cc

kept_total : (q : ℕ) {d d' : Dev} → some d ≡ some d' → total q d' ≡ total q d
kept_total q {d} {d'} h = ap (total q) (same_dev {d = d} {d' = d'} h)

after-woken-total :
    (q : ℕ) (d d' : Dev) → after_get_full (woken (λ x. x) d) ≡ some d' → total q d' ≡ total q d
unfolding woken
after-woken-total q d d' h = elim (Bool-cases (truthy d.rt.please_stop)) [
  | inl e ↦ kept_total q (rw (e, woken) at h)
  | inr e ↦ elim (Bool-cases (truthy d.rt.refill_error)) [
    | inl r ↦ kept_total q (rw (e, r, woken) at h)
    | inr r ↦ after-take_full-total q d d' (rw (e, r, woken) at h)
  ]
]

total-step : (q : ℕ) (d d' : Dev) (op : Op) → step d op ≡ some d' → total q d' ≡ total q d
unfolding step get_full
total-step q d d' gets_empty h = kept_total q h ∙ total-get_empty q d
total-step q d d' puts_full h = kept_total q h ∙ total-put_full q d
total-step q d d' pulls_refill h = kept_total q h ∙ total-get_empty_from_refills q d
total-step q d d' gets_full h = elim (Bool-cases (is_empty d.refills)) [
  | inl e ↦ kept_total q (rw (e, get_full) at h)
  | inr e ↦ after-take_full-total q d d' (rw (e, get_full) at h)
]
total-step q d d' wakes h = elim (Bool-cases (is_refill_ready d)) [
  | inl e ↦ after-woken-total q d d' (rw (e, step) at h)
  | inr e ↦ kept_total q (rw (e, step) at h)
]
total-step q d d' puts_empty h = total-put_empty q d d' h
total-step q d d' takes_full h = after-take_full-total q d d' h
total-step q d d' takes_refill h = total-take_refill q d d' h
total-step q d d' (frees l) h = elim (Bool-cases (is_own in_empties l)) [
  | inl e ↦ absurd (ground arith)
  | inr e ↦
      kept_total q (rw (e, step) at h)
      ∙ total-move_list_to_empty q l d (λ s. true≢false (ap (is_own in_empties) (sym s) ∙ e))
]
total-step q d d' (stashes l) h = elim (Bool-cases (is_own in_stash l)) [
  | inl e ↦ absurd (ground arith)
  | inr e ↦
      kept_total q (rw (e, step) at h)
      ∙ total-move_list_to_stash q l d (λ s. true≢false (ap (is_own in_stash) (sym s) ∙ e))
]

-- No interleaving of the input side's list functions that comes to its end (`getEmpty`, `putFull`,
-- `getEmptyFromRefills`, `getFull`, `putEmpty`, `move_list_to_empty` and `move_list_to_stash`, with
-- `getFull` and `getEmptyFromRefills` also entered at the lock, after an earlier test) loses a buffer
-- or puts one into two lists: each buffer stands in the lists as often afterwards as before.
pub total-run : (q : ℕ) (ops : List Op) (d d' : Dev) → run d ops ≡ some d' → total q d' ≡ total q d
unfolding run
total-run q [] d d' h = kept_total q h
total-run q (op ∷ ops) d d' h = elim (Option-cases (step d op)) [
  | inl e ↦ absurd (ground arith)
  | inr (d1, e) ↦ total-run q ops d1 d' (ground arith) ∙ total-step q d d1 op e
]
