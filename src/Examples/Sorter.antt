-- ===== src/Examples/Sorter.antt =====
-- An insertion sort, which has the properties that `list_sort` of the kernel is documented to have.
use acq400drv.Prelude.{
  ℕ, ◌≤◌, ◌≡◌, refl, ◌∙◌, Bool, true, false, List, [], ◌∷◌, arith, inl, inr, count, ltb,
  if◌then◌else◌, Bool-cases,
}
use acq400drv.HbmLists.Path.{Sign, minus, plus, zero_sign, sign_of}
use acq400drv.HbmLists.Path.Sorting.{Ascending, ListSort}

abbrev is_plus : Sign → Bool
is_plus minus = false
is_plus zero_sign = false
is_plus plus = true

insert : (ℕ → ℕ → Sign) → ℕ → List ℕ → List ℕ
insert cmp x [] = x ∷ []
insert cmp x (y ∷ ys) =
    let rest = insert cmp x ys in if is_plus (cmp x y) then y ∷ rest else x ∷ y ∷ ys

pub insertion_sort : (ℕ → ℕ → Sign) → List ℕ → List ℕ
unfolding insert
insertion_sort cmp [] = []
insertion_sort cmp (x ∷ xs) = insert cmp x (insertion_sort cmp xs)

count-insert :
    (cmp : ℕ → ℕ → Sign) (x q : ℕ) (l : List ℕ) → count q (insert cmp x l) ≡ count q (x ∷ l)
unfolding insert
count-insert cmp x q [] = refl
count-insert cmp x q (y ∷ ys) = elim (Bool-cases (is_plus (cmp x y))) [
  | inl e ↦ rw e (omega (arith, count-insert cmp x q ys))
  | inr e ↦ rw e refl
]

count-sort : (cmp : ℕ → ℕ → Sign) (l : List ℕ) (q : ℕ) → count q (insertion_sort cmp l) ≡ count q l
unfolding insertion_sort
count-sort cmp [] q = refl
count-sort cmp (x ∷ xs) q =
    omega (arith, count-insert cmp x q (insertion_sort cmp xs), count-sort cmp xs q)

is_plus-sign_of : (a b : ℕ) → is_plus (sign_of a b) ≡ ltb b a
is_plus-sign_of a b = ground arith

module _ (key : ℕ → ℕ) where
  abbrev by_key : ℕ → ℕ → Sign
  by_key a b = sign_of (key a) (key b)

  insert-Ascending_after :
      (p x : ℕ) (l : List ℕ)
      → Ascending key (p ∷ l)
      → key p ≤ key x
      → Ascending key (p ∷ insert by_key x l)
  unfolding insert
  insert-Ascending_after p x [] h le = (le, tt)
  insert-Ascending_after p x (y ∷ ys) h le = elim (Bool-cases (ltb (key y) (key x))) [
    | inl e ↦
        rw (is_plus-sign_of (key x) (key y) ∙ e)
          (h.0, insert-Ascending_after y x ys h.1 (ground arith))
    | inr e ↦ rw (is_plus-sign_of (key x) (key y) ∙ e) (le, (ground arith, h.1))
  ]

  insert-Ascending : (x : ℕ) (l : List ℕ) → Ascending key l → Ascending key (insert by_key x l)
  unfolding insert
  insert-Ascending x [] h = tt
  insert-Ascending x (y ∷ ys) h = elim (Bool-cases (ltb (key y) (key x))) [
    | inl e ↦
        rw (is_plus-sign_of (key x) (key y) ∙ e) (insert-Ascending_after y x ys h (ground arith))
    | inr e ↦ rw (is_plus-sign_of (key x) (key y) ∙ e) (ground arith, h)
  ]

  sort-Ascending : (l : List ℕ) → Ascending key (insertion_sort by_key l)
  unfolding insertion_sort
  sort-Ascending [] = tt
  sort-Ascending (x ∷ xs) = insert-Ascending x (insertion_sort by_key xs) (sort-Ascending xs)

pub insertion_sort-ListSort : ListSort insertion_sort
insertion_sort-ListSort = record {
  count_kept = count-sort;
  ascends = λ key l. sort-Ascending key l;
}
