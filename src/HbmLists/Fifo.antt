-- ===== src/HbmLists/Fifo.antt =====
-- The stream of buffers: INFLIGHT feeds REFILLS, and a reader takes the head of REFILLS.
use mathlib.Core.List.{append-nil, append_assoc}
use acq400drv.Prelude.{
  ℕ, ◌≡◌, sym, ◌∙◌, ap, List, [], ◌∷◌, ◌++◌, some, none, false, if◌then◌else◌, arith, inl, inr,
  List-cases, Bool-cases, Option-cases,
}
use acq400drv.Device.{Dev, set_state, bs_empty, truthy}
use acq400drv.AxiChain.Frame.{run_put_empty_hook-SameLists}
use acq400drv.HbmLists.{
  get_empty, put_full, GetFull, full, get_full, woken, take_full, is_refill_ready, put_empty,
}
use acq400drv.HbmLists.Steps.{
  Op, gets_empty, puts_full, pulls_refill, gets_full, wakes, puts_empty, takes_full, takes_refill,
  frees, stashes, after_get_full, step, run,
}

-- Filled or being filled, oldest first.
abbrev pub pipeline : Dev → List ℕ
pipeline d = d.refills ++ d.inflight

-- The buffer that a `getEmpty` puts in flight.
abbrev pub acquired_by : Dev → Op → List ℕ
acquired_by d gets_empty = elim (get_empty d).1 [ none ↦ [] | some p ↦ p ∷ [] ]
acquired_by d op = []

abbrev pub taken : GetFull → List ℕ
taken (full p d) = p ∷ []
taken r = []

-- The buffer that a `getFull` hands to the reader.
abbrev pub delivered_by : Dev → Op → List ℕ
delivered_by d gets_full = taken (get_full (λ _. none) (λ x. x) false d)
delivered_by d wakes = if is_refill_ready d then taken (woken (λ x. x) d) else []
delivered_by d takes_full = taken (take_full d)
delivered_by d op = []

-- A step of the stream: neither the emergency pull from REFILLS nor the emptying of a list.
abbrev pub IsStream : Op → Type 0
IsStream pulls_refill = ⊥
IsStream takes_refill = ⊥
IsStream (frees l) = ⊥
IsStream (stashes l) = ⊥
IsStream op = Unit

take_full-pipeline :
    (d d' : Dev)
    → after_get_full (take_full d) ≡ some d'
    → taken (take_full d) ++ pipeline d' ≡ pipeline d
unfolding take_full
take_full-pipeline d d' h = elim (List-cases d.refills) [
  | inl e ↦ ground arith
  | inr (p, rest, e) ↦ ground arith
]

woken-pipeline :
    (d d' : Dev)
    → after_get_full (woken (λ x. x) d) ≡ some d'
    → taken (woken (λ x. x) d) ++ pipeline d' ≡ pipeline d
unfolding woken
woken-pipeline d d' h = elim (Bool-cases (truthy d.rt.please_stop)) [
  | inl e ↦ ground arith
  | inr e ↦ ground (arith, take_full-pipeline d d')
]

pub step-pipeline :
    (d d' : Dev) (op : Op)
    → IsStream op
    → step d op ≡ some d'
    → delivered_by d op ++ pipeline d' ≡ pipeline d ++ acquired_by d op
unfolding step get_empty put_full get_full put_empty
step-pipeline d d' gets_empty s h = elim (List-cases d.empties) [
  | inl e ↦ ground (arith, append-nil (d.refills ++ d.inflight))
  | inr (p, rest, e) ↦ ground (arith, append_assoc d.refills d.inflight (p ∷ []))
]
step-pipeline d d' puts_full s h = elim (List-cases d.inflight) [
  | inl e ↦ ground (arith, append-nil (d.refills ++ []))
  | inr (p, rest, e) ↦
      ground (arith, append_assoc d.refills (p ∷ []) rest, append-nil (d.refills ++ p ∷ rest))
]
step-pipeline d d' pulls_refill s h = absurd s
step-pipeline d d' gets_full s h = elim (List-cases d.refills) [
  | inl e ↦ ground (arith, append-nil d.inflight)
  | inr (p, rest, e) ↦ ground (arith, take_full-pipeline d d', append-nil (pipeline d))
]
step-pipeline d d' wakes s h = elim (Bool-cases (is_refill_ready d)) [
  | inl e ↦ ground (arith, woken-pipeline d d', append-nil (pipeline d))
  | inr e ↦ ground (arith, append-nil (pipeline d))
]
step-pipeline d d' puts_empty s h = elim (List-cases d.opens) [
  | inl e ↦ ground arith
  | inr (p, rest, e) ↦
      let f = run_put_empty_hook-SameLists (record d { hbm = set_state d.hbm p bs_empty }) p in
      ground (arith, f, append-nil (pipeline d))
]
step-pipeline d d' takes_full s h = take_full-pipeline d d' h ∙ sym (append-nil (pipeline d))
step-pipeline d d' takes_refill s h = absurd s
step-pipeline d d' (frees l) s h = absurd s
step-pipeline d d' (stashes l) s h = absurd s

-- What a run of steps acquires, in order.
pub acquired : Dev → List Op → List ℕ
acquired d [] = []
acquired d (op ∷ ops) =
    acquired_by d op ++ elim (step d op) [ none ↦ [] | some d' ↦ acquired d' ops ]

-- What it delivers, in order.
pub delivered : Dev → List Op → List ℕ
delivered d [] = []
delivered d (op ∷ ops) =
    delivered_by d op ++ elim (step d op) [ none ↦ [] | some d' ↦ delivered d' ops ]

abbrev pub AllStream : List Op → Type 0
AllStream [] = Unit
AllStream (op ∷ ops) = IsStream op × AllStream ops

-- Whatever the interleaving of the stream's steps, buffers are delivered in the order in which
-- they were acquired: what was in the pipeline and then what was acquired is what was delivered
-- and then what is in the pipeline.
pub delivered-run :
    (ops : List Op) (d d' : Dev)
    → AllStream ops
    → run d ops ≡ some d'
    → delivered d ops ++ pipeline d' ≡ pipeline d ++ acquired d ops
unfolding run acquired delivered
delivered-run [] d d' s h = ground (arith, append-nil (pipeline d))
delivered-run (op ∷ ops) d d' s h = elim (Option-cases (step d op)) [
  | inl e ↦ ground arith
  | inr (d1, e) ↦
      let later = delivered-run ops d1 d' s.1 (ground arith) in
      let now = step-pipeline d d1 op s.0 e in
      rw e (
        append_assoc (delivered_by d op) (delivered d1 ops) (pipeline d')
        ∙ ap (λ l. delivered_by d op ++ l) later
        ∙ sym (append_assoc (delivered_by d op) (pipeline d1) (acquired d1 ops))
        ∙ ap (λ l. l ++ acquired d1 ops) now
        ∙ append_assoc (pipeline d) (acquired_by d op) (acquired d1 ops))
]
