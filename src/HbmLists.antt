-- ===== src/HbmLists.antt =====
-- acq400_lists.c: host buffers go round the kernel lists EMPTIES, INFLIGHT, REFILLS and OPENS, and
-- can be set aside in STASH or reserved by an open path. Each function runs under `list_mutex`, so
-- it is one step; `getFull` and `getEmptyFromRefills` make a test before they lock, so what they do
-- from the lock on is also a step of its own. `list_move_tail` of a list's first entry is the move of its head. A call of
-- `list_first_entry` on an empty list is a fault, `none`. The path descriptor's RESERVED list is an
-- argument and a result of the functions that use it. `list_sort` is the kernel's, a parameter.
pub mod Count
pub mod Path
pub mod Steps
pub mod Invariant
pub mod Stashing
pub mod Fifo
pub mod Safety
pub mod Runs
use acq400drv.Prelude.{
  ℕ, ◌+◌, Bool, true, false, not, ◌&&◌, ◌||◌, List, [], ◌∷◌, ◌++◌, Option, none, some, leb, ◌==◌,
  if◌then◌else◌, is_empty, erase,
}
use acq400drv.Device.{
  bs_empty, bs_filling, bs_full, bs_full_app, QueueReport, Dev, ListHead, list_of, put_list,
  set_state, truthy, incr32,
}
use acq400drv.AxiChain.{run_put_empty_hook}

-- A failed `getEmpty` or `putFull`: reported once, counted always.
abbrev report_error : QueueReport → QueueReport
report_error r = record { report_active = true; errors = r.errors + 1 }

-- `_getEmpty`: the first of EMPTIES goes in flight.
unfoldable pub get_empty : Dev → Dev × Option ℕ
get_empty d = elim d.empties [
  | [] ↦ (
    record d { rt = record d.rt { get_empty_errors = report_error d.rt.get_empty_errors } },
    none,
  )
  | p ∷ rest ↦ (
    record d {
      empties = rest;
      inflight = d.inflight ++ p ∷ [];
      hbm = set_state d.hbm p bs_filling;
      rt = record d.rt {
        nget = incr32 d.rt.nget;
        get_empty_errors = record d.rt.get_empty_errors { report_active = false };
      };
    },
    some p,
  )
]

unfoldable pub multiple_empties_waiting : Dev → Bool
multiple_empties_waiting d = elim d.empties [ [] ↦ false | p ∷ rest ↦ not (is_empty rest) ]

-- `putFull` with `_putFull`: the oldest buffer in flight is ready to be read.
unfoldable pub put_full : Dev → Dev
put_full d = elim d.inflight [
  | [] ↦ record d { rt = record d.rt { put_full_errors = report_error d.rt.put_full_errors } }
  | p ∷ rest ↦
      let nput = incr32 d.rt.nput in
      record d {
        inflight = rest;
        refills = d.refills ++ p ∷ [];
        hbm = set_state d.hbm p bs_full;
        rt = record d.rt {
          nput = nput;
          please_stop =
              if truthy d.run_buffers && leb d.run_buffers nput then 1 else d.rt.please_stop;
          put_full_errors = record d.rt.put_full_errors { report_active = false };
        };
      }
]

-- The oldest unread buffer `p` goes back in flight.
abbrev refill_taken : ℕ → List ℕ → Dev → Dev
refill_taken p rest d = record d {
  refills = rest;
  inflight = d.inflight ++ p ∷ [];
  hbm = set_state d.hbm p bs_filling;
  rt = record d.rt { ngetr = incr32 d.rt.ngetr };
}

-- `getEmptyFromRefills` from its lock on: `none` is the fault on an empty REFILLS.
unfoldable pub take_refill : Dev → Option Dev
take_refill d = elim d.refills [ [] ↦ none | p ∷ rest ↦ some (refill_taken p rest d) ]

-- `getEmptyFromRefills`, which tests REFILLS before it locks, when no other thread takes a buffer from
-- REFILLS in between; `take_refill` is what follows the test if one may.
unfoldable pub get_empty_from_refills : Dev → Dev × Option ℕ
get_empty_from_refills d = elim d.refills [
  | [] ↦ (d, none)
  | p ∷ rest ↦ (refill_taken p rest d, some p)
]

-- What `getFull` returns; `full` is GET_FULL_OK with the buffer, `fault` a list entry read from an
-- empty list.
pub data GetFull : Type 0 where
  full : ℕ → Dev → GetFull
  finished refill_err interrupted : Dev → GetFull
  fault : GetFull

-- `__getFull`: what `getFull` does from its lock on, on the device that it then finds.
unfoldable pub take_full : Dev → GetFull
take_full d = elim d.refills [
  | [] ↦ fault
  | p ∷ rest ↦
      full p (record d {
        refills = rest;
        opens = d.opens ++ p ∷ [];
        hbm = set_state d.hbm p bs_full_app;
      })
]

-- The condition that `getFull` waits for.
abbrev pub is_refill_ready : Dev → Bool
is_refill_ready d = not (is_empty d.refills) || truthy d.rt.refill_error || truthy d.rt.please_stop

-- After the wait, in the order of the code's tests; `before_lock` is what other threads do before the
-- lock.
pub woken : (Dev → Dev) → Dev → GetFull
unfolding take_full
woken before_lock d =
    if truthy d.rt.please_stop
    then finished d
    else if truthy d.rt.refill_error
    then refill_err d
    else take_full (before_lock d)

-- `getFull`. `wait_event` is `wait_event_interruptible` on the device as the other threads leave
-- it: `none` if a signal came, else the device at which the condition was seen to hold. The code tests
-- REFILLS before it locks, and `before_lock` is what other threads do in between.
unfoldable pub get_full : (Dev → Option Dev) → (Dev → Dev) → Bool → Dev → GetFull
unfolding take_full woken
get_full wait_event before_lock wait d =
    if is_empty d.refills
    then (if not wait
        then interrupted d
        else elim (wait_event d) [ none ↦ interrupted d | some d' ↦ woken before_lock d' ])
    else take_full (before_lock d)

-- `putEmpty`: the oldest opened buffer is free again; `none` is the fault on an empty OPENS.
unfoldable pub put_empty : Dev → Option Dev
put_empty d = elim d.opens [
  | [] ↦ none
  | p ∷ rest ↦
      let d' = run_put_empty_hook (record d { hbm = set_state d.hbm p bs_empty }) p in
      some (record d' { opens = rest; empties = d'.empties ++ p ∷ [] })
]

-- The output side. `ao_getEmpty` counts and moves as `getEmpty` does, with no report.
pub ao_get_empty : Dev → Dev × Option ℕ
ao_get_empty d = elim d.empties [
  | [] ↦ (d, none)
  | p ∷ rest ↦ (
    record d {
      empties = rest;
      inflight = d.inflight ++ p ∷ [];
      hbm = set_state d.hbm p bs_filling;
      rt = record d.rt { nget = incr32 d.rt.nget };
    },
    some p,
  )
]

-- `ao_putFull`: `list_move_tail` unlinks the buffer from the list where it is, INFLIGHT since
-- `ao_getEmpty`.
pub ao_put_full : Dev → ℕ → Dev
ao_put_full d p = record d {
  inflight = erase p d.inflight;
  refills = d.refills ++ p ∷ [];
  hbm = set_state d.hbm p bs_full;
  rt = record d.rt { nput = incr32 d.rt.nput };
}

-- `ao_getFull`: the buffer leaves the lists and is the caller's.
pub ao_get_full : Dev → Dev × Option ℕ
ao_get_full d = elim d.refills [ [] ↦ (d, none) | p ∷ rest ↦ (record d { refills = rest }, some p) ]

pub ao_put_empty : Dev → ℕ → Dev
ao_put_empty d p = record d { hbm = set_state d.hbm p bs_empty; empties = d.empties ++ p ∷ [] }

-- One round of `move_list_to_empty`: the head `p` of list `l`, before `ps`.
abbrev pub empty_one : ListHead → ℕ → List ℕ → Dev → Dev
empty_one l p ps d =
    let d' = put_list l ps d in
    record d' { hbm = set_state d'.hbm p bs_empty; empties = d'.empties ++ p ∷ [] }

-- The loop of `move_list_to_empty` over the entries that `l` still holds.
pub drain_to_empty : ListHead → List ℕ → Dev → Dev
drain_to_empty l [] d = d
drain_to_empty l (p ∷ ps) d = drain_to_empty l ps (empty_one l p ps d)

pub move_list_to_empty : ListHead → Dev → Dev
unfolding drain_to_empty
move_list_to_empty l d = drain_to_empty l (list_of l d) d

-- One round of `move_list_to_stash`.
abbrev pub stash_one : ListHead → ℕ → List ℕ → Dev → Dev
stash_one l p ps d =
    let d' = put_list l ps d in
    record d' { hbm = set_state d'.hbm p bs_empty; stash = d'.stash ++ p ∷ [] }

-- The loop of `move_list_to_stash`, which counts the buffers other than number 0.
pub drain_to_stash : ListHead → List ℕ → Dev → ℕ → Dev × ℕ
drain_to_stash l [] d usable = (d, usable)
drain_to_stash l (p ∷ ps) d usable =
    drain_to_stash l ps (stash_one l p ps d) (if (d.hbm p).ix == 0 then usable else usable + 1)

unfoldable pub move_list_to_stash : ListHead → Dev → Dev × ℕ
unfolding drain_to_stash
move_list_to_stash l d = drain_to_stash l (list_of l d) d 0
