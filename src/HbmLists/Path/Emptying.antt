-- ===== src/HbmLists/Path/Emptying.antt =====
-- Stopping a capture: `empty_lists` brings every buffer back to EMPTIES.
use acq400drv.Prelude.{ℕ, ◌+◌, ◌≡◌, ◌≢◌, refl, sym, ap, subst, ◌∙◌, List, [], ◌∷◌, arith, count}
use acq400drv.Device.{
  Dev, ListHead, in_empties, in_inflight, in_refills, in_opens, in_stash, list_of,
}
use acq400drv.HbmLists.{empty_one, drain_to_empty, move_list_to_empty}
use acq400drv.HbmLists.Count.{total, total-move_list_to_empty}
use acq400drv.HbmLists.Path.{Sign, sort_empties, empty_lists}
use acq400drv.HbmLists.Path.Sorting.{
  ListSort, Ascending, sort_empties-Ascending, total-sort_empties, hbm-sort_empties,
  lists-sort_empties,
}

list_of-empty_one_ne :
    (k l : ListHead) (p : ℕ) (ps : List ℕ) (d : Dev)
    → k ≢ in_empties
    → k ≢ l
    → list_of k (empty_one l p ps d) ≡ list_of k d
list_of-empty_one_ne in_empties in_empties p ps d ke kl = absurd (ke refl)
list_of-empty_one_ne k l p ps d ke kl = ground arith

list_of-drain_ne :
    (k l : ListHead) (ps : List ℕ) (d : Dev)
    → k ≢ in_empties
    → k ≢ l
    → list_of k (drain_to_empty l ps d) ≡ list_of k d
unfolding drain_to_empty
list_of-drain_ne k l [] d ke kl = refl
list_of-drain_ne k l (p ∷ ps) d ke kl =
    list_of-drain_ne k l ps (empty_one l p ps d) ke kl ∙ list_of-empty_one_ne k l p ps d ke kl

list_of-empty_one_self :
    (l : ListHead) (p : ℕ) (ps : List ℕ) (d : Dev)
    → l ≢ in_empties
    → list_of l (empty_one l p ps d) ≡ ps
list_of-empty_one_self in_empties p ps d ne = absurd (ne refl)
list_of-empty_one_self l p ps d ne = ground arith

list_of-drain_self :
    (l : ListHead) (ps : List ℕ) (d : Dev)
    → l ≢ in_empties
    → list_of l d ≡ ps
    → list_of l (drain_to_empty l ps d) ≡ []
unfolding drain_to_empty
list_of-drain_self l [] d ne e = e
list_of-drain_self l (p ∷ ps) d ne e =
    list_of-drain_self l ps (empty_one l p ps d) ne (list_of-empty_one_self l p ps d ne)

-- The lists after a `move_list_to_empty` of list `l`.
pub record Moved (l : ListHead) (d d' : Dev) : Type 0 where
  pub gone : list_of l d' ≡ []
  pub kept : (k : ListHead) → k ≢ in_empties → k ≢ l → list_of k d' ≡ list_of k d
  pub counts : (q : ℕ) → total q d' ≡ total q d

pub move_list_to_empty-Moved :
    (l : ListHead) (d : Dev) → l ≢ in_empties → Moved l d (move_list_to_empty l d)
unfolding move_list_to_empty
move_list_to_empty-Moved l d ne = record {
  gone = list_of-drain_self l (list_of l d) d ne refl;
  kept = λ k ke kl. list_of-drain_ne k l (list_of l d) d ke kl;
  counts = λ q. total-move_list_to_empty q l d ne;
}

-- Where the buffers of `d` are once its three busy lists are empty.
pub record Gathered (d d' : Dev) : Type 0 where
  pub no_opens : d'.opens ≡ []
  pub no_refills : d'.refills ≡ []
  pub no_inflight : d'.inflight ≡ []
  pub same_stash : d'.stash ≡ d.stash
  pub counts : (q : ℕ) → total q d' ≡ total q d

pub moves-Gathered :
    (d d1 d2 d3 : Dev)
    → Moved in_opens d d1
    → Moved in_refills d1 d2
    → Moved in_inflight d2 d3
    → Gathered d d3
moves-Gathered d d1 d2 d3 m1 m2 m3 = record {
  no_opens = m3.kept in_opens (λ e. cc) (λ e. cc) ∙ m2.kept in_opens (λ e. cc) (λ e. cc) ∙ m1.gone;
  no_refills = m3.kept in_refills (λ e. cc) (λ e. cc) ∙ m2.gone;
  no_inflight = m3.gone;
  same_stash =
      m3.kept in_stash (λ e. cc) (λ e. cc)
      ∙ m2.kept in_stash (λ e. cc) (λ e. cc)
      ∙ m1.kept in_stash (λ e. cc) (λ e. cc);
  counts = λ q. m3.counts q ∙ m2.counts q ∙ m1.counts q;
}

-- So EMPTIES holds what the four lists held.
pub Gathered-empties :
    (q : ℕ) (d d' : Dev)
    → Gathered d d'
    → count q d'.empties
      ≡ count q d.empties + count q d.opens + count q d.refills + count q d.inflight
Gathered-empties q d d' g = omega (
  arith,
  g.counts q,
  ap (count q) g.no_opens,
  ap (count q) g.no_refills,
  ap (count q) g.no_inflight,
  ap (count q) g.same_stash,
)

module _ (list_sort : (ℕ → ℕ → Sign) → List ℕ → List ℕ) (laws : ListSort list_sort) where
  sort_empties-Gathered : (d d' : Dev) → Gathered d d' → Gathered d (sort_empties list_sort d')
  sort_empties-Gathered d d' g =
      let same = lists-sort_empties list_sort laws d' in
      record {
        no_opens = same.0 ∙ g.no_opens;
        no_refills = same.1 ∙ g.no_refills;
        no_inflight = same.2 ∙ g.no_inflight;
        same_stash = same.3 ∙ g.same_stash;
        counts = λ q. total-sort_empties list_sort laws q d' ∙ g.counts q;
      }

  -- `empty_lists` leaves OPENS, REFILLS and INFLIGHT empty and STASH as it was, loses no buffer, and
  -- leaves EMPTIES ascending by index.
  pub empty_lists-Gathered :
      (d : Dev)
      → let d' = empty_lists list_sort d in
        Gathered d d' × Ascending (λ p. (d'.hbm p).ix) d'.empties
  unfolding empty_lists
  empty_lists-Gathered d =
      let d1 : Dev = move_list_to_empty in_opens d in
      let d2 : Dev = move_list_to_empty in_refills d1 in
      let d3 : Dev = move_list_to_empty in_inflight d2 in
      let gathered =
        moves-Gathered d d1 d2 d3 (move_list_to_empty-Moved in_opens d (λ e. cc))
          (move_list_to_empty-Moved in_refills d1 (λ e. cc))
          (move_list_to_empty-Moved in_inflight d2 (λ e. cc)) in
      (
        sort_empties-Gathered d d3 gathered,
        subst (λ m. Ascending (λ p. (m p).ix) (sort_empties list_sort d3).empties)
            (sym (hbm-sort_empties list_sort laws d3)) (sort_empties-Ascending list_sort laws d3),
      )
