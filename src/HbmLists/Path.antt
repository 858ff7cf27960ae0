-- ===== src/HbmLists/Path.antt =====
-- acq400_lists.c, the functions of an open path: reserving buffers by index, giving them back, and
-- sorting EMPTIES. The path descriptor's RESERVED list goes beside the device.
pub mod Sorting
pub mod Reserving
pub mod Emptying
use acq400drv.Prelude.{
  ℕ, ◌+◌, Bool, List, [], ◌∷◌, ◌++◌, Option, none, some, ◌==◌, ltb, if◌then◌else◌, erase,
}
use acq400drv.Device.{
  Dev, Hbm, ListHead, in_empties, in_inflight, in_refills, in_opens, in_stash, list_of, put_list,
  set_state, bs_empty, bs_reserved,
}
use acq400drv.HbmLists.{move_list_to_empty}

-- The scan of `_reserve`: the first entry whose index is `ibuf`.
pub find_ix : (ℕ → Hbm) → ℕ → List ℕ → Option ℕ
find_ix h ibuf [] = none
find_ix h ibuf (p ∷ ps) = if (h p).ix == ibuf then some p else find_ix h ibuf ps

-- The device when `_reserve` has moved buffer `p` out of list `l`.
abbrev pub without : ListHead → ℕ → Dev → Dev
without l p d =
    let d' = put_list l (erase p (list_of l d)) d in
    record d' { hbm = set_state d'.hbm p bs_reserved }

-- `_reserve`; `none` is its -1, and `r` is the list that the buffer goes to.
pub reserve_from : ListHead → ℕ → Dev × List ℕ → Option (Dev × List ℕ)
unfolding find_ix
reserve_from l ibuf (d, r) = elim (find_ix d.hbm ibuf (list_of l d)) [
  | none ↦ none
  | some p ↦ some (without l p d, r ++ p ∷ [])
]

-- `reserve`, and `remove` with its own list: from STASH, else from EMPTIES.
unfoldable pub reserve : ℕ → Dev × List ℕ → Option (Dev × List ℕ)
unfolding reserve_from
reserve ibuf s = elim (reserve_from in_stash ibuf s) [
  | none ↦ reserve_from in_empties ibuf s
  | some s' ↦ some s'
]

-- What `hbm_cmp` returns: -1, 1 or 0.
pub data Sign : Type 0 where
  minus plus zero_sign : Sign

abbrev pub sign_of : ℕ → ℕ → Sign
sign_of a b = if ltb a b then minus else if ltb b a then plus else zero_sign

pub hbm_cmp : (ℕ → Hbm) → ℕ → ℕ → Sign
hbm_cmp h a b = sign_of (h a).ix (h b).ix

-- The loop of `is_sorted`: the entries that do not stand at their own index. `ix1` is the value
-- that the pre-increment gives.
pub count_misplaced : (ℕ → Hbm) → ℕ → List ℕ → ℕ → ℕ
count_misplaced h ix1 [] bad = bad
count_misplaced h ix1 (p ∷ ps) bad =
    count_misplaced h (ix1 + 1) ps (if ix1 == (h p).ix then bad else bad + 1)

pub is_sorted : (ℕ → Hbm) → List ℕ → Bool
unfolding count_misplaced
is_sorted h l = count_misplaced h 0 l 0 == 0

-- The loop of `replace_all`: each reserved buffer goes to the head of EMPTIES.
pub return_all : List ℕ → Dev → Dev
return_all [] d = d
return_all (p ∷ ps) d =
    return_all ps (record d { hbm = set_state d.hbm p bs_empty; empties = p ∷ d.empties })

-- `list_sort` of the kernel, as a function of the comparison.
module _ (list_sort : (ℕ → ℕ → Sign) → List ℕ → List ℕ) where
  pub sort_empties : Dev → Dev
  unfolding is_sorted hbm_cmp
  sort_empties d =
      if is_sorted d.hbm d.empties
      then d
      else record d { empties = list_sort (hbm_cmp d.hbm) d.empties }

  -- `replace_all`; RESERVED ends empty.
  pub replace_all : Dev × List ℕ → Dev × List ℕ
  replace_all (d, r) =
      let d1 = sort_empties (return_all r d) in
      (if is_sorted d1.hbm d1.empties then d1 else sort_empties d1, [])

  pub empty_lists : Dev → Dev
  empty_lists d =
      let d1 = move_list_to_empty in_opens d in
      let d2 = move_list_to_empty in_refills d1 in
      let d3 = move_list_to_empty in_inflight d2 in sort_empties d3
