-- ===== src/DataLoop/CatchUp.antt =====
-- acq400_drv.c, the while loop of `axi64_data_loop` that passes on what the DMA has already filled.
use mathlib.Core.List.{append-nil, append_assoc}
use acq400drv.Prelude.{
  ℕ, zero, suc, ◌<◌, ◌≡◌, sym, ap, ◌∙◌, Bool, true, false, List, [], ◌∷◌, ◌++◌, Option, none, some,
  subst, arith, inl, inr, List-cases, Bool-cases, count,
}
use acq400drv.Device.{Dev}
use acq400drv.AxiChain.{dma_done, poison_overwritten}
use acq400drv.AxiChain.Frame.{poison_overwritten-SameLists}
use acq400drv.AxiChain.Poison.{
  mark_word, dma_done-same_words, mark_word-same_settings, poison_overwritten-dma_done,
  mark_word-poison_overwritten, hbm-poison_overwritten,
}
use acq400drv.HbmLists.{get_empty, put_full}
use acq400drv.DataLoop.{catch_up, count_catchup}
use acq400drv.DataLoop.Holding.{held, looked, catch_up-nothing, catch_up-filled, catch_up-waiting}

-- What `dma_done` would say of buffer `q`.
abbrev pub is_filled : Dev → ℕ → Bool
is_filled d q = (dma_done d q).1

-- Where the loop got to: the free buffers that it passed on are those before the one it holds.
pub record CaughtUp (d d' : Dev) (found : Option ℕ) : Type 0 where
  pub passed : List ℕ
  pub split : d.empties ≡ passed ++ held found ++ d'.empties
  pub refilled : d'.refills ≡ d.refills ++ passed
  pub in_flight : d'.inflight ≡ held found
  pub all_filled : (q : ℕ) → 0 < count q passed → is_filled d q ≡ true
  pub found_waits : (p : ℕ) → found ≡ some p → is_filled d p ≡ false
  pub none_left : found ≡ none → d'.empties ≡ []

-- The settings and words of two devices on which `is_filled` depends.
record SameMarks (d d' : Dev) : Type 0 where
  word : mark_word d' ≡ mark_word d
  words : (q : ℕ) → (d'.hbm q).va ≡ (d.hbm q).va

SameMarks-is_filled : (d d' : Dev) (q : ℕ) → SameMarks d d' → is_filled d' q ≡ is_filled d q
SameMarks-is_filled d d' q s = dma_done-same_words d d' q s.word (s.words q)

SameMarks-trans : (a b c : Dev) → SameMarks a b → SameMarks b c → SameMarks a c
SameMarks-trans a b c s t = record { word = t.word ∙ s.word; words = λ q. t.words q ∙ s.words q }

get_empty-SameMarks : (d : Dev) → SameMarks d (get_empty d).0
unfolding get_empty
get_empty-SameMarks d = record {
  word = mark_word-same_settings d _ (ground arith) (ground arith);
  words = λ q. ground arith;
}

looked-SameMarks : (d : Dev) (p : ℕ) → SameMarks d (looked d p)
looked-SameMarks d p =
    let d1 : Dev = (get_empty d).0 in
    SameMarks-trans d d1 (looked d p) (get_empty-SameMarks d) (record {
      word = mark_word-poison_overwritten d1 p;
      words = λ q. ap (λ h. (h q).va) (hbm-poison_overwritten d1 p);
    })

put_full-SameMarks : (d : Dev) → SameMarks d (count_catchup (put_full d))
unfolding put_full count_catchup
put_full-SameMarks d = record {
  word = mark_word-same_settings d _ (ground arith) (ground arith);
  words = λ q. ground arith;
}

-- The lists once buffer `p` has been taken and looked at.
record Took (p : ℕ) (rest : List ℕ) (d d' : Dev) : Type 0 where
  result : (get_empty d).1 ≡ some p
  empties : d'.empties ≡ rest
  inflight : d'.inflight ≡ p ∷ []
  refills : d'.refills ≡ d.refills

looked-Took :
    (p : ℕ) (rest : List ℕ) (d : Dev)
    → d.empties ≡ p ∷ rest
    → d.inflight ≡ []
    → Took p rest d (looked d p)
unfolding get_empty
looked-Took p rest d e i =
    let s = poison_overwritten-SameLists (get_empty d).0 p in
    record {
      result = ground (arith, e);
      empties = ground (arith, e, s.empties);
      inflight = ground (arith, e, i, s.inflight);
      refills = ground (arith, e, s.refills);
    }

put_full-lists :
    (d : Dev) (p : ℕ)
    → d.inflight ≡ p ∷ []
    → let d' = count_catchup (put_full d) in
      (d'.empties ≡ d.empties) × (d'.inflight ≡ []) × (d'.refills ≡ d.refills ++ p ∷ [])
unfolding put_full count_catchup
put_full-lists d p e = (ground (arith, e), ground (arith, e), ground (arith, e))

abbrev CaughtUpTo : Dev → Dev × Option ℕ → Type 0
CaughtUpTo d (d', f) = CaughtUp d d' f

waits-CaughtUp :
    (p : ℕ) (rest : List ℕ) (d : Dev)
    → d.empties ≡ p ∷ rest
    → Took p rest d (looked d p)
    → is_filled (get_empty d).0 p ≡ false
    → CaughtUp d (looked d p) (some p)
waits-CaughtUp p rest d l t w = record {
  passed = [];
  split = l ∙ ap (λ es. p ∷ es) (sym t.empties);
  refilled = t.refills ∙ sym (append-nil d.refills);
  in_flight = t.inflight;
  all_filled = λ q h. absurd (omega arith);
  found_waits = λ q e.
      sym (SameMarks-is_filled d (get_empty d).0 q (get_empty-SameMarks d))
      ∙ (let same : q ≡ p = cc in rw same w);
  none_left = λ e. absurd (cc);
}

get_empty-nothing :
    (d : Dev)
    → d.empties ≡ []
    → let (d', found) = get_empty d in
      (found ≡ none) × (d'.empties ≡ []) × (d'.inflight ≡ d.inflight) × (d'.refills ≡ d.refills)
unfolding get_empty
get_empty-nothing d e = (ground (arith, e), ground (arith, e), ground (arith, e), ground (arith, e))

nothing-CaughtUp : (d : Dev) → d.empties ≡ [] → d.inflight ≡ [] → CaughtUp d (get_empty d).0 none
nothing-CaughtUp d l i =
    let n = get_empty-nothing d l in
    record {
      passed = [];
      split = l ∙ sym (n.1);
      refilled = n.3 ∙ sym (append-nil d.refills);
      in_flight = n.2 ∙ i;
      all_filled = λ q h. absurd (omega arith);
      found_waits = λ p e. absurd (cc);
      none_left = λ e. n.1;
    }

is_filled-looked : (d : Dev) (p : ℕ) → (poison_overwritten (get_empty d).0 p).1 ≡ is_filled d p
is_filled-looked d p =
    poison_overwritten-dma_done (get_empty d).0 p
    ∙ SameMarks-is_filled d (get_empty d).0 p (get_empty-SameMarks d)

-- One buffer more has been passed on.
passed-CaughtUp :
    (p : ℕ) (rest : List ℕ) (d d1 d' : Dev) (f : Option ℕ)
    → d.empties ≡ p ∷ rest
    → is_filled d p ≡ true
    → d1.empties ≡ rest
    → d1.refills ≡ d.refills ++ p ∷ []
    → SameMarks d d1
    → CaughtUp d1 d' f
    → CaughtUp d d' f
passed-CaughtUp p rest d d1 d' f l w e r s c = record {
  passed = p ∷ c.passed;
  split = l ∙ ap (λ es. p ∷ es) (sym e ∙ c.split);
  refilled = c.refilled ∙ ap (λ rs. rs ++ c.passed) r ∙ append_assoc d.refills (p ∷ []) c.passed;
  in_flight = c.in_flight;
  all_filled = λ q h. ground (arith, w, h, c.all_filled q, SameMarks-is_filled d d1 q s);
  found_waits = λ q e. sym (SameMarks-is_filled d d1 q s) ∙ c.found_waits q e;
  none_left = c.none_left;
}

-- The loop passes on a run of filled buffers from the head of EMPTIES to the end of REFILLS, in
-- order, and stops at the first buffer that is not filled, which it holds as the only one in flight,
-- or when no buffer is free.
pub catch_up-CaughtUp :
    (fuel : ℕ) (d d' : Dev) (f : Option ℕ)
    → d.inflight ≡ []
    → catch_up fuel d ≡ some (d', f)
    → CaughtUp d d' f
unfolding catch_up
catch_up-CaughtUp zero d d' f h e = absurd (cc)
catch_up-CaughtUp (suc fuel) d d' f h e = elim (List-cases d.empties) [
  | inl l ↦
      subst (CaughtUpTo d) (ground (arith, catch_up-nothing fuel d (get_empty-nothing d l).0, e))
        (nothing-CaughtUp d l h)
  | inr (p, rest, l) ↦
      let t = looked-Took p rest d l h in
      elim (Bool-cases (poison_overwritten (get_empty d).0 p).1) [
        | inl over ↦
            let m = put_full-lists (looked d p) p t.inflight in
            let d1 : Dev = count_catchup (put_full (looked d p)) in
            passed-CaughtUp p rest d d1 d' f l (sym (is_filled-looked d p) ∙ over) (m.0 ∙ t.empties)
              (m.2 ∙ ap (λ rs. rs ++ p ∷ []) t.refills)
              (SameMarks-trans d (looked d p) d1 (looked-SameMarks d p)
                (put_full-SameMarks (looked d p)))
              (catch_up-CaughtUp fuel d1 d' f m.1
                (sym (catch_up-filled fuel d p t.result over) ∙ e))
        | inr over ↦
            let out = catch_up-waiting fuel d p t.result over in
            subst (CaughtUpTo d) (cc) (
              waits-CaughtUp p rest d l t
                (sym (poison_overwritten-dma_done (get_empty d).0 p) ∙ over))
      ]
]
