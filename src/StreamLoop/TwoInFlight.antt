-- ===== src/StreamLoop/TwoInFlight.antt =====
-- acq400_drv.c, `ai_data_loop`: while the thread goes on exactly two buffers are in flight, those of
-- its channels, the one of the channel to wait for first.
use acq400drv.Prelude.{
  ℕ, ◌≡◌, refl, sym, ◌∙◌, ap, Bool, true, false, List, [], ◌∷◌, ◌++◌, Option, none, some, arith,
  inl, inr, List-cases, Bool-cases, Option-cases, ◌+◌, length, ◌%◌, ◌^◌,
}
use acq400drv.Device.{Dev, RunTime, in_refills, in_inflight, incr32}
use acq400drv.HbmLists.{get_empty, put_full, get_empty_from_refills, move_list_to_empty}
use acq400drv.HbmLists.Invariant.{
  IsValid, get_empty-IsValid, put_full-IsValid, get_empty_from_refills-IsValid,
  move_list_to_empty-IsValid,
}
use acq400drv.HbmLists.Path.Emptying.{move_list_to_empty-Moved}
use acq400drv.DataLoop.{Outcome, goes_on, quits}
use acq400drv.StreamLoop.{Turn, Channels, waited_for, other, give, next_dma_buffer, drain, rearm}

-- The lists are well-formed and `l` is in flight.
pub record Flies (d : Dev) (l : List ℕ) : Type 0 where
  pub valid : IsValid d
  pub flies : d.inflight ≡ l

abbrev pub both : Channels → List ℕ
both c = waited_for c ∷ other c ∷ []

pub put_full-Flies : (d : Dev) (p : ℕ) (l : List ℕ) → Flies d (p ∷ l) → Flies (put_full d) l
unfolding put_full
put_full-Flies d p l h = record {
  valid = put_full-IsValid d h.valid;
  flies = ground (arith, h.flies);
}

pub get_empty-Flies :
    (d : Dev) (l : List ℕ) (p : ℕ)
    → Flies d l
    → (get_empty d).1 ≡ some p
    → Flies (get_empty d).0 (l ++ p ∷ [])
unfolding get_empty
get_empty-Flies d l p h e = elim (List-cases d.empties) [
  | inl n ↦ absurd (ground arith)
  | inr (q, rest, s) ↦ record {
    valid = get_empty-IsValid d h.valid;
    flies = ground (arith, h.flies, ap (λ x. x ++ p ∷ []) h.flies);
  }
]

get_empty-none :
    (d : Dev) (l : List ℕ) → Flies d l → (get_empty d).1 ≡ none → Flies (get_empty d).0 l
unfolding get_empty
get_empty-none d l h e = record {
  valid = get_empty-IsValid d h.valid;
  flies = elim (List-cases d.empties) [
    | inl n ↦ ground (arith, h.flies)
    | inr (q, rest, s) ↦ absurd (ground arith)
  ];
}

pulled-Flies :
    (d : Dev) (l : List ℕ) (p : ℕ)
    → Flies d l
    → (get_empty_from_refills d).1 ≡ some p
    → Flies (get_empty_from_refills d).0 (l ++ p ∷ [])
unfolding get_empty_from_refills
pulled-Flies d l p h e = elim (List-cases d.refills) [
  | inl n ↦ absurd (ground arith)
  | inr (q, rest, s) ↦ record {
    valid = get_empty_from_refills-IsValid d h.valid;
    flies = ground (arith, h.flies, ap (λ x. x ++ p ∷ []) h.flies);
  }
]

pub recount-Flies :
    (d : Dev) (n : ℕ) (rt : RunTime) (l : List ℕ)
    → Flies d l
    → Flies (record d { stats_errors = n; rt = rt }) l
recount-Flies d n rt l h = record { valid = λ q. ground (arith, h.valid q); flies = h.flies }

drained-Flies : (d : Dev) (l : List ℕ) → Flies d l → Flies (move_list_to_empty in_refills d) l
drained-Flies d l h = record {
  valid = move_list_to_empty-IsValid in_refills d (λ e. cc) h.valid;
  flies =
      (move_list_to_empty-Moved in_refills d (λ e. cc)).kept in_inflight (λ e. cc) (λ e. cc)
      ∙ h.flies;
}

-- What the search leaves in flight: one buffer more, if it has found one.
abbrev pub Found : List ℕ → Dev × Option (ℕ × Bool) → Type 0
Found l (d, none) = Flies d l
Found l (d, some (p, _)) = Flies d (l ++ p ∷ [])

pulled-none :
    (d : Dev) (l : List ℕ)
    → Flies d l
    → (get_empty_from_refills d).1 ≡ none
    → Flies (get_empty_from_refills d).0 l
unfolding get_empty_from_refills
pulled-none d l h e = record {
  valid = get_empty_from_refills-IsValid d h.valid;
  flies = elim (List-cases d.refills) [
    | inl n ↦ ground (arith, h.flies)
    | inr (q, rest, s) ↦ absurd (ground arith)
  ];
}

-- The three ways the search ends.
pub next_dma_buffer-free :
    (before : Dev → Dev) (d : Dev) (p : ℕ)
    → (get_empty d).1 ≡ some p
    → next_dma_buffer before d ≡ ((get_empty d).0, some (p, false))
unfolding next_dma_buffer
next_dma_buffer-free before d p e = rw (e, next_dma_buffer) refl

abbrev counted : Dev → Dev
counted d = record d { stats_errors = incr32 d.stats_errors }

-- The device on which `getEmptyFromRefills` is called.
abbrev pub pulled_from : (Dev → Dev) → Dev → Dev
pulled_from before d = before (get_empty d).0

pub next_dma_buffer-pulled :
    (before : Dev → Dev) (d : Dev) (p : ℕ)
    → (get_empty d).1 ≡ none
    → (get_empty_from_refills (pulled_from before d)).1 ≡ some p
    → next_dma_buffer before d
      ≡ (counted (get_empty_from_refills (pulled_from before d)).0, some (p, true))
unfolding next_dma_buffer
next_dma_buffer-pulled before d p e s = rw (e, next_dma_buffer, s) refl

pub next_dma_buffer-none :
    (before : Dev → Dev) (d : Dev)
    → (get_empty d).1 ≡ none
    → (get_empty_from_refills (pulled_from before d)).1 ≡ none
    → next_dma_buffer before d ≡ ((get_empty_from_refills (pulled_from before d)).0, none)
unfolding next_dma_buffer
next_dma_buffer-none before d e s = rw (e, next_dma_buffer, s) refl

-- What other threads may do: anything that keeps the lists well-formed and leaves the buffers in
-- flight alone.
abbrev pub IsFair : (Dev → Dev) → Type 0
IsFair f = (d : Dev) (l : List ℕ) → Flies d l → Flies (f d) l

pub next_dma_buffer-Found :
    (before : Dev → Dev) (d : Dev) (l : List ℕ)
    → IsFair before
    → Flies d l
    → Found l (next_dma_buffer before d)
next_dma_buffer-Found before d l fair h = elim (Option-cases (get_empty d).1) [
  | inr (p, e) ↦ rw (next_dma_buffer-free before d p e) (get_empty-Flies d l p h e)
  | inl e ↦
      let d1 : Dev = pulled_from before d in
      let h1 = fair (get_empty d).0 l (get_empty-none d l h e) in
      elim (Option-cases (get_empty_from_refills d1).1) [
        | inl n ↦ rw (next_dma_buffer-none before d e n) (pulled-none d1 l h1 n)
        | inr (p, s) ↦
            let d2 : Dev = (get_empty_from_refills d1).0 in
            rw (next_dma_buffer-pulled before d p e s) (
              recount-Flies d2 (incr32 d2.stats_errors) d2.rt (l ++ p ∷ [])
                (pulled-Flies d1 l p h1 s))
      ]
]

-- How a turn ends well: going on with two buffers in flight, the channels', or with valid lists.
abbrev pub Sound : Outcome Channels → Type 0
Sound (goes_on d c) = Flies d (both c)
Sound (quits d) = IsValid d

give-both : (c : Channels) (p : ℕ) → both (give c p) ≡ other c ∷ p ∷ []
unfolding give
give-both c p = elim (Bool-cases c.second) [ inl e ↦ rw (e, give) refl | inr e ↦ rw (e, give) refl ]

drain-Sound : (quit : Bool) (d : Dev) (c : Channels) → Flies d (both c) → Sound (drain quit d c)
unfolding drain
drain-Sound quit d c h =
    let d1 : Dev = record d {
      rt = record d.rt { buffers_dropped = (d.rt.buffers_dropped + length d.refills) % 2 ^ 32 };
    } in
    let h1 = recount-Flies d d.stats_errors d1.rt (both c) h in
    let h2 = drained-Flies d1 (both c) h1 in
    let d2 : Dev = move_list_to_empty in_refills d1 in
    elim (Bool-cases quit) [
      | inl e ↦ rw (e, drain) (recount-Flies d2 d2.stats_errors _ (both c) h2).valid
      | inr e ↦ rw (e, drain) h2
    ]

pub rearm-Sound :
    (quit fifo : Bool) (c : Channels) (r : Dev × Option (ℕ × Bool))
    → Found (other c ∷ []) r
    → Sound (rearm quit fifo c r)
unfolding rearm
rearm-Sound quit fifo c (d, none) h = h.valid
rearm-Sound quit fifo c (d, some (p, emergency)) h =
    let g : Flies d (both (give c p)) = record {
      valid = h.valid;
      flies = h.flies ∙ sym (give-both c p);
    } in
    elim (Bool-cases fifo) [
      | inl e ↦ rw (e, rearm) h.valid
      | inr e ↦ elim (Bool-cases emergency) [
        | inl m ↦ rw (e, m, rearm) (drain-Sound quit d (give c p) g)
        | inr m ↦ rw (e, m, rearm) g
      ]
    ]

-- Fairness in the wait and between the calls.
abbrev pub Fair : Turn → Type 0
Fair t = IsFair t.during_wait × IsFair t.after_put_full × IsFair t.before_pull
