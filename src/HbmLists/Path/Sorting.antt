-- ===== src/HbmLists/Path/Sorting.antt =====
-- EMPTIES in order of index. `list_sort` of the kernel is a parameter with its documented laws: the
-- result holds the same entries, ascending by the comparison.
use acq400drv.Prelude.{
  ℕ, ◌+◌, ◌≤◌, ◌≡◌, List, [], ◌∷◌, true, arith, inl, inr, count, Bool-cases, ==_iff,
}
use acq400drv.Device.{Dev, Hbm}
use acq400drv.HbmLists.Count.{total}
use acq400drv.HbmLists.Path.{Sign, sign_of, hbm_cmp, count_misplaced, is_sorted, sort_empties}

-- Neighbours ascend by `key`.
abbrev pub Ascending : (ℕ → ℕ) → List ℕ → Type 0
Ascending key [] = Unit
Ascending key (p ∷ []) = Unit
Ascending key (p ∷ q ∷ ps) = (key p ≤ key q) × Ascending key (q ∷ ps)

-- What the kernel documents of `list_sort`, for a comparison that orders entries by a key.
pub record ListSort (list_sort : (ℕ → ℕ → Sign) → List ℕ → List ℕ) : Type 0 where
  pub count_kept : (cmp : ℕ → ℕ → Sign) (l : List ℕ) (q : ℕ) → count q (list_sort cmp l) ≡ count q l
  pub ascends :
      (key : ℕ → ℕ) (l : List ℕ) → Ascending key (list_sort (λ a b. sign_of (key a) (key b)) l)

count_misplaced-le : (h : ℕ → Hbm) (i : ℕ) (l : List ℕ) (b : ℕ) → b ≤ count_misplaced h i l b
unfolding count_misplaced
count_misplaced-le h i [] b = omega arith
count_misplaced-le h i (p ∷ ps) b =
    ground (arith, count_misplaced-le h (i + 1) ps b, count_misplaced-le h (i + 1) ps (b + 1))

-- The entries have the indices `i`, `i + 1` and so on.
abbrev pub InPlaceFrom : (ℕ → Hbm) → ℕ → List ℕ → Type 0
InPlaceFrom h i [] = Unit
InPlaceFrom h i (p ∷ ps) = ((h p).ix ≡ i) × InPlaceFrom h (i + 1) ps

count_misplaced-InPlaceFrom :
    (h : ℕ → Hbm) (i : ℕ) (l : List ℕ) → count_misplaced h i l 0 ≡ 0 → InPlaceFrom h i l
unfolding count_misplaced
count_misplaced-InPlaceFrom h i [] e = tt
count_misplaced-InPlaceFrom h i (p ∷ ps) e =
    ground (arith, count_misplaced-InPlaceFrom h (i + 1) ps, count_misplaced-le h (i + 1) ps 1)

InPlaceFrom-Ascending :
    (h : ℕ → Hbm) (i : ℕ) (l : List ℕ) → InPlaceFrom h i l → Ascending (λ p. (h p).ix) l
InPlaceFrom-Ascending h i [] v = tt
InPlaceFrom-Ascending h i (p ∷ []) v = tt
InPlaceFrom-Ascending h i (p ∷ q ∷ ps) v =
    (omega arith, InPlaceFrom-Ascending h (i + 1) (q ∷ ps) v.1)

pub is_sorted-InPlaceFrom : (h : ℕ → Hbm) (l : List ℕ) → is_sorted h l ≡ true → InPlaceFrom h 0 l
unfolding is_sorted
is_sorted-InPlaceFrom h l e =
    count_misplaced-InPlaceFrom h 0 l ((==_iff (count_misplaced h 0 l 0) 0).0 e)

module _ (list_sort : (ℕ → ℕ → Sign) → List ℕ → List ℕ) (laws : ListSort list_sort) where
  -- Whether it skips the sort or makes it, `sort_empties` leaves EMPTIES ascending by index.
  pub sort_empties-Ascending :
      (d : Dev) → Ascending (λ p. (d.hbm p).ix) (sort_empties list_sort d).empties
  unfolding sort_empties
  sort_empties-Ascending d = elim (Bool-cases (is_sorted d.hbm d.empties)) [
    | inl e ↦
        rw e (InPlaceFrom-Ascending d.hbm 0 d.empties (is_sorted-InPlaceFrom d.hbm d.empties e))
    | inr e ↦ rw e (laws.ascends (λ p. (d.hbm p).ix) d.empties)
  ]

  pub hbm-sort_empties : (d : Dev) → (sort_empties list_sort d).hbm ≡ d.hbm
  unfolding sort_empties
  hbm-sort_empties d = ground arith

  pub total-sort_empties : (q : ℕ) (d : Dev) → total q (sort_empties list_sort d) ≡ total q d
  unfolding sort_empties
  total-sort_empties q d = ground (arith, laws.count_kept (hbm_cmp d.hbm) d.empties q)

  -- `sort_empties` touches EMPTIES only.
  pub lists-sort_empties :
      (d : Dev)
      → let d' = sort_empties list_sort d in
        (d'.opens ≡ d.opens)
        × (d'.refills ≡ d.refills)
        × (d'.inflight ≡ d.inflight)
        × (d'.stash ≡ d.stash)
  unfolding sort_empties
  lists-sort_empties d = ground arith
