-- ===== src/HbmLists/Count.antt =====
-- Counting: the list functions move buffers about, and never lose or double one.
use acq400drv.Prelude.{
  ℕ, ◌+◌, ◌≡◌, refl, List, [], ◌∷◌, some, arith, inl, inr, count, count-append, List-cases, ◌≢◌,
}
use acq400drv.Device.{
  Dev, ListHead, in_empties, in_inflight, in_refills, in_opens, in_stash, list_of, bs_empty,
  set_state,
}
use acq400drv.AxiChain.Frame.{run_put_empty_hook-SameLists}
use acq400drv.HbmLists.{
  get_empty, put_full, get_empty_from_refills, full, take_full, put_empty, empty_one,
  drain_to_empty, move_list_to_empty, take_refill,
}

-- How many times buffer `q` stands in the lists of a device.
abbrev pub total : ℕ → Dev → ℕ
total q d =
    count q d.empties + count q d.inflight + count q d.refills + count q d.opens + count q d.stash

pub total-get_empty : (q : ℕ) (d : Dev) → total q (get_empty d).0 ≡ total q d
unfolding get_empty
total-get_empty q d = elim (List-cases d.empties) [
  | inl e ↦ ground arith
  | inr (p, rest, e) ↦ ground (arith, count-append q d.inflight (p ∷ []))
]

pub total-put_full : (q : ℕ) (d : Dev) → total q (put_full d) ≡ total q d
unfolding put_full
total-put_full q d = elim (List-cases d.inflight) [
  | inl e ↦ ground arith
  | inr (p, rest, e) ↦ ground (arith, count-append q d.refills (p ∷ []))
]

pub total-get_empty_from_refills :
    (q : ℕ) (d : Dev) → total q (get_empty_from_refills d).0 ≡ total q d
unfolding get_empty_from_refills
total-get_empty_from_refills q d = elim (List-cases d.refills) [
  | inl e ↦ ground arith
  | inr (p, rest, e) ↦ ground (arith, count-append q d.inflight (p ∷ []))
]

pub total-take_full : (q p : ℕ) (d d' : Dev) → take_full d ≡ full p d' → total q d' ≡ total q d
unfolding take_full
total-take_full q p d d' h = elim (List-cases d.refills) [
  | inl e ↦ ground arith
  | inr (p', rest, e) ↦ ground (arith, count-append q d.opens (p' ∷ []))
]

pub total-put_empty : (q : ℕ) (d d' : Dev) → put_empty d ≡ some d' → total q d' ≡ total q d
unfolding put_empty
total-put_empty q d d' h = elim (List-cases d.opens) [
  | inl e ↦ ground arith
  | inr (p, rest, e) ↦
      let f = run_put_empty_hook-SameLists (record d { hbm = set_state d.hbm p bs_empty }) p in
      ground (arith, f, count-append q d.empties (p ∷ []))
]

pub total-drain_to_empty :
    (q : ℕ) (l : ListHead) (ps : List ℕ) (d : Dev)
    → l ≢ in_empties
    → list_of l d ≡ ps
    → total q (drain_to_empty l ps d) ≡ total q d
unfolding drain_to_empty
total-drain_to_empty q l [] d ne h = refl
total-drain_to_empty q in_empties (p ∷ ps) d ne h = absurd (ne refl)
total-drain_to_empty q in_inflight (p ∷ ps) d ne h = ground (
  arith,
  total-drain_to_empty q in_inflight ps (empty_one in_inflight p ps d) ne,
  count-append q d.empties (p ∷ []),
)
total-drain_to_empty q in_refills (p ∷ ps) d ne h = ground (
  arith,
  total-drain_to_empty q in_refills ps (empty_one in_refills p ps d) ne,
  count-append q d.empties (p ∷ []),
)
total-drain_to_empty q in_opens (p ∷ ps) d ne h = ground (
  arith,
  total-drain_to_empty q in_opens ps (empty_one in_opens p ps d) ne,
  count-append q d.empties (p ∷ []),
)
total-drain_to_empty q in_stash (p ∷ ps) d ne h = ground (
  arith,
  total-drain_to_empty q in_stash ps (empty_one in_stash p ps d) ne,
  count-append q d.empties (p ∷ []),
)

pub total-move_list_to_empty :
    (q : ℕ) (l : ListHead) (d : Dev) → l ≢ in_empties → total q (move_list_to_empty l d) ≡ total q d
unfolding move_list_to_empty
total-move_list_to_empty q l d ne = total-drain_to_empty q l (list_of l d) d ne refl

pub total-take_refill : (q : ℕ) (d d' : Dev) → take_refill d ≡ some d' → total q d' ≡ total q d
unfolding take_refill
total-take_refill q d d' h = elim (List-cases d.refills) [
  | inl e ↦ ground arith
  | inr (p, rest, e) ↦ ground (arith, count-append q d.inflight (p ∷ []))
]
