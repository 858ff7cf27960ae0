-- ===== src/HbmLists/Path/Reserving.antt =====
-- Reserving a buffer by its index, and giving all reserved buffers back.
use acq400drv.Prelude.{
  subst, ℕ, ◌+◌, ◌<◌, ◌≡◌, ◌≢◌, refl, sym, ap, ◌∙◌, List, [], ◌∷◌, ◌++◌, Option, some, none, arith,
  inl, inr, count, erase, Bool-cases, Option-cases, ◌==◌,
}
use acq400drv.Device.{
  Dev, Hbm, ListHead, in_empties, in_inflight, in_refills, in_opens, in_stash, list_of, set_state,
  bs_empty, bs_reserved,
}
use acq400drv.HbmLists.Count.{total}
use acq400drv.HbmLists.Path.{
  Sign, find_ix, without, reserve_from, reserve, is_sorted, return_all, sort_empties, replace_all,
}
use acq400drv.HbmLists.Path.Sorting.{
  ListSort, Ascending, sort_empties-Ascending, hbm-sort_empties, total-sort_empties,
}

-- An entry found stands in the list, with the index asked for.
find_ix-some :
    (h : ℕ → Hbm) (ibuf : ℕ) (l : List ℕ) (p : ℕ)
    → find_ix h ibuf l ≡ some p
    → ((h p).ix ≡ ibuf) × (0 < count p l)
unfolding find_ix
find_ix-some h ibuf [] p e = absurd (cc)
find_ix-some h ibuf (x ∷ xs) p e = ground (arith, find_ix-some h ibuf xs p)

find_ix-none :
    (h : ℕ → Hbm) (ibuf : ℕ) (l : List ℕ) (p : ℕ)
    → find_ix h ibuf l ≡ none
    → 0 < count p l
    → (h p).ix ≢ ibuf
unfolding find_ix
find_ix-none h ibuf [] p e m = absurd (omega arith)
find_ix-none h ibuf (x ∷ xs) p e m = ground (arith, find_ix-none h ibuf xs p)

-- What a successful `_reserve` from list `l` did.
pub record Reserved (ibuf : ℕ) (d : Dev) (r : List ℕ) (d' : Dev) (r' : List ℕ) : Type 0 where
  pub buffer : ℕ
  pub index : (d.hbm buffer).ix ≡ ibuf
  pub appended : r' ≡ r ++ buffer ∷ []
  pub marked : (d'.hbm buffer).bstate ≡ bs_reserved
  pub left_lists : (q : ℕ) → total q d' + count q (buffer ∷ []) ≡ total q d
  pub others : (q : ℕ) → q ≢ buffer → d'.hbm q ≡ d.hbm q

count-erase :
    (p q : ℕ) (l : List ℕ) → 0 < count p l → count q (erase p l) + count q (p ∷ []) ≡ count q l
count-erase p q [] h = absurd (omega arith)
count-erase p q (x ∷ xs) h = ground (arith, count-erase p q xs)

total-without :
    (l : ListHead) (p q : ℕ) (d : Dev)
    → 0 < count p (list_of l d)
    → total q (without l p d) + count q (p ∷ []) ≡ total q d
total-without in_empties p q d h = omega (arith, count-erase p q d.empties h)
total-without in_inflight p q d h = omega (arith, count-erase p q d.inflight h)
total-without in_refills p q d h = omega (arith, count-erase p q d.refills h)
total-without in_opens p q d h = omega (arith, count-erase p q d.opens h)
total-without in_stash p q d h = omega (arith, count-erase p q d.stash h)

marked-without : (l : ListHead) (p : ℕ) (d : Dev) → ((without l p d).hbm p).bstate ≡ bs_reserved
marked-without in_empties p d = ground arith
marked-without in_inflight p d = ground arith
marked-without in_refills p d = ground arith
marked-without in_opens p d = ground arith
marked-without in_stash p d = ground arith

others-without : (l : ListHead) (p q : ℕ) (d : Dev) → q ≢ p → (without l p d).hbm q ≡ d.hbm q
others-without in_empties p q d ne = ground arith
others-without in_inflight p q d ne = ground arith
others-without in_refills p q d ne = ground arith
others-without in_opens p q d ne = ground arith
others-without in_stash p q d ne = ground arith

without-Reserved :
    (l : ListHead) (ibuf p : ℕ) (d : Dev) (r : List ℕ)
    → find_ix d.hbm ibuf (list_of l d) ≡ some p
    → Reserved ibuf d r (without l p d) (r ++ p ∷ [])
without-Reserved l ibuf p d r e = record {
  buffer = p;
  index = (find_ix-some d.hbm ibuf (list_of l d) p e).0;
  appended = refl;
  marked = marked-without l p d;
  left_lists = λ q. total-without l p q d (find_ix-some d.hbm ibuf (list_of l d) p e).1;
  others = λ q ne. others-without l p q d ne;
}

same_pair :
    {d d' : Dev} {r r' : List ℕ}
    → ◌≡◌ {A = Option (Dev × List ℕ)} (some (d, r)) (some (d', r'))
    → (d' ≡ d) × (r' ≡ r)
same_pair h = (cc, cc)

reserve_from-Reserved :
    (l : ListHead) (ibuf : ℕ) (d d' : Dev) (r r' : List ℕ)
    → reserve_from l ibuf (d, r) ≡ some (d', r')
    → Reserved ibuf d r d' r'
unfolding reserve_from
reserve_from-Reserved l ibuf d d' r r' h = elim (Option-cases (find_ix d.hbm ibuf (list_of l d))) [
  | inl e ↦ absurd (ground arith)
  | inr (p, e) ↦
      let same = same_pair (rw (e, reserve_from) at h) in
      rw (same.0, same.1) (without-Reserved l ibuf p d r e)
]

-- A successful `reserve` takes one buffer with the index asked for out of the device's lists, marks
-- it reserved and appends it to the path's list; it changes no other buffer and moves none.
pub reserve-Reserved :
    (ibuf : ℕ) (d d' : Dev) (r r' : List ℕ)
    → reserve ibuf (d, r) ≡ some (d', r')
    → Reserved ibuf d r d' r'
unfolding reserve
reserve-Reserved ibuf d d' r r' h = elim (Option-cases (reserve_from in_stash ibuf (d, r))) [
  | inl e ↦ reserve_from-Reserved in_empties ibuf d d' r r' (rw (e, reserve) at h)
  | inr (s, e) ↦ reserve_from-Reserved in_stash ibuf d d' r r' (e ∙ (rw (e, reserve) at h))
]

-- `reserve` fails only if no buffer of STASH or EMPTIES has the index asked for.
reserve-none :
    (ibuf p : ℕ) (d : Dev) (r : List ℕ)
    → reserve ibuf (d, r) ≡ none
    → 0 < count p d.stash + count p d.empties
    → (d.hbm p).ix ≢ ibuf
unfolding reserve reserve_from
reserve-none ibuf p d r h m = ground (
  arith,
  find_ix-none d.hbm ibuf d.stash p,
  find_ix-none d.hbm ibuf d.empties p,
  Option-cases (find_ix d.hbm ibuf d.stash),
  Option-cases (find_ix d.hbm ibuf d.empties),
)

total-return_all : (q : ℕ) (r : List ℕ) (d : Dev) → total q (return_all r d) ≡ total q d + count q r
unfolding return_all
total-return_all q [] d = omega arith
total-return_all q (p ∷ ps) d = omega (
  arith,
  total-return_all q ps (record d { hbm = set_state d.hbm p bs_empty; empties = p ∷ d.empties }),
)

bstate-return_all_kept :
    (q : ℕ) (r : List ℕ) (d : Dev)
    → (d.hbm q).bstate ≡ bs_empty
    → ((return_all r d).hbm q).bstate ≡ bs_empty
unfolding return_all
bstate-return_all_kept q [] d h = h
bstate-return_all_kept q (p ∷ ps) d h =
    bstate-return_all_kept q ps
      (record d { hbm = set_state d.hbm p bs_empty; empties = p ∷ d.empties }) (ground arith)

bstate-return_all :
    (q : ℕ) (r : List ℕ) (d : Dev) → 0 < count q r → ((return_all r d).hbm q).bstate ≡ bs_empty
unfolding return_all
bstate-return_all q [] d h = absurd (omega arith)
bstate-return_all q (p ∷ ps) d h =
    let d' : Dev = record d { hbm = set_state d.hbm p bs_empty; empties = p ∷ d.empties } in
    elim (Bool-cases (p == q)) [
      | inl e ↦ bstate-return_all_kept q ps d' (ground arith)
      | inr e ↦ bstate-return_all q ps d' (ground arith)
    ]

-- The buffers of `r` are back in the lists of `d`, empty, and EMPTIES ascends by index.
pub record GivenBack (r : List ℕ) (d d' : Dev) : Type 0 where
  pub counts : (q : ℕ) → total q d' ≡ total q d + count q r
  pub emptied : (q : ℕ) → 0 < count q r → (d'.hbm q).bstate ≡ bs_empty
  pub ascends : Ascending (λ p. (d'.hbm p).ix) d'.empties

module _ (list_sort : (ℕ → ℕ → Sign) → List ℕ → List ℕ) (laws : ListSort list_sort) where
  sort_empties-GivenBack :
      (r : List ℕ) (d d1 : Dev)
      → ((q : ℕ) → total q d1 ≡ total q d + count q r)
      → ((q : ℕ) → 0 < count q r → (d1.hbm q).bstate ≡ bs_empty)
      → GivenBack r d (sort_empties list_sort d1)
  sort_empties-GivenBack r d d1 counts emptied = record {
    counts = λ q. total-sort_empties list_sort laws q d1 ∙ counts q;
    emptied = λ q h. ap (λ m. (m q).bstate) (hbm-sort_empties list_sort laws d1) ∙ emptied q h;
    ascends =
        subst (λ m. Ascending (λ p. (m p).ix) (sort_empties list_sort d1).empties)
          (sym (hbm-sort_empties list_sort laws d1)) (sort_empties-Ascending list_sort laws d1);
  }

  -- `replace_all` gives every buffer of the path's list back to the device, in the empty state, and
  -- leaves EMPTIES ascending by index and the path's list empty.
  pub replace_all-GivenBack :
      (d : Dev) (r : List ℕ)
      → let (d', r') = replace_all list_sort (d, r) in GivenBack r d d' × (r' ≡ [])
  unfolding replace_all
  replace_all-GivenBack d r =
      let d1 : Dev = sort_empties list_sort (return_all r d) in
      let once : GivenBack r d d1 =
        sort_empties-GivenBack r d (return_all r d) (λ q. total-return_all q r d)
          (λ q. bstate-return_all q r d) in
      elim (Bool-cases (is_sorted d1.hbm d1.empties)) [
        | inl e ↦ rw e (once, refl)
        | inr e ↦ rw e (sort_empties-GivenBack r d d1 once.counts once.emptied, refl)
      ]
