-- ===== src/HbmLists/Steps.antt =====
-- Interleavings of the input side's list functions: the acquisition thread, the readers and the stop
-- path as one sequence of steps. A function that tests a list before it locks is one step here when
-- nothing comes in between, and otherwise its part from the lock on is a step wherever it falls, the
-- list emptied meanwhile included.
use acq400drv.Prelude.{
  List, [], ◌∷◌, Option, none, some, Bool, true, false, not, is_empty, ◌≡◌, ◌⊎◌, if◌then◌else◌,
}
use acq400drv.Device.{Dev, ListHead, in_empties, in_stash}
use acq400drv.HbmLists.{
  get_empty, put_full, get_empty_from_refills, GetFull, full, finished, refill_err, interrupted,
  fault, get_full, woken, take_full, take_refill, move_list_to_stash, is_refill_ready, put_empty,
  move_list_to_empty,
}

pub data Op : Type 0 where
  gets_empty puts_full pulls_refill : Op
  -- a `getFull` that does not wait, and the end of one that waited
  gets_full wakes : Op
  puts_empty : Op
  -- `getFull` and `getEmptyFromRefills` from the lock on, after a test made at any time before
  takes_full takes_refill : Op
  -- `move_list_to_empty` and `move_list_to_stash` of a list
  frees stashes : ListHead → Op

-- The device after `getFull`, `none` on a fault.
abbrev pub after_get_full : GetFull → Option Dev
after_get_full (full p d) = some d
after_get_full (finished d) = some d
after_get_full (refill_err d) = some d
after_get_full (interrupted d) = some d
after_get_full fault = none

-- A list that `move_list_to_empty` or `move_list_to_stash` moves to itself, which never ends.
abbrev pub is_own : ListHead → ListHead → Bool
is_own in_empties in_empties = true
is_own in_stash in_stash = true
is_own l m = false

-- The device after a step; `none` is a fault, the entry read from an empty list, or no end.
unfoldable pub step : Dev → Op → Option Dev
unfolding get_empty put_full get_empty_from_refills get_full woken put_empty move_list_to_empty
    take_full take_refill move_list_to_stash
step d gets_empty = some (get_empty d).0
step d puts_full = some (put_full d)
step d pulls_refill = some (get_empty_from_refills d).0
step d gets_full = after_get_full (get_full (λ _. none) (λ x. x) false d)
step d wakes = if is_refill_ready d then after_get_full (woken (λ x. x) d) else some d
step d puts_empty = put_empty d
step d takes_full = after_get_full (take_full d)
step d takes_refill = take_refill d
step d (frees l) = if is_own in_empties l then none else some (move_list_to_empty l d)
step d (stashes l) = if is_own in_stash l then none else some (move_list_to_stash l d).0

unfoldable pub run : Dev → List Op → Option Dev
unfolding step
run d [] = some d
run d (op ∷ ops) = elim (step d op) [ none ↦ none | some d' ↦ run d' ops ]

-- Whether the step finds what it relies on: an entry in the list whose head it takes, or another list
-- than the one to move to.
abbrev pub is_headed : Dev → Op → Bool
is_headed d puts_empty = not (is_empty d.opens)
is_headed d takes_full = not (is_empty d.refills)
is_headed d takes_refill = not (is_empty d.refills)
is_headed d (frees l) = not (is_own in_empties l)
is_headed d (stashes l) = not (is_own in_stash l)
is_headed d op = true

-- A run in which some step, the steps before it done, does not find what it relies on.
abbrev pub Headless : Dev → List Op → Type 0
Headless d [] = ⊥
Headless d (op ∷ ops) =
    (is_headed d op ≡ false) ⊎ ((d' : Dev) × (step d op ≡ some d') × Headless d' ops)
