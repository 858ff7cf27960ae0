-- ===== src/DataLoop/Exhaustion.antt =====
-- acq400_drv.c, `axi64_dual_data_loop` when the free buffers run out.
use mathlib.Core.List.{append_assoc}
use acq400drv.Prelude.{
  ℕ, ◌≡◌, refl, ap, ◌∙◌, Bool, true, false, not, ◌&&◌, List, [], ◌∷◌, ◌++◌, some, arith, inl, inr,
  if◌then◌else◌, List-cases,
}
use acq400drv.Device.{Dev}
use acq400drv.AxiChain.{dma_done}
use acq400drv.AxiChain.Frame.{SameLists, dma_done-SameLists}
use acq400drv.HbmLists.{put_full, multiple_empties_waiting}
use acq400drv.DataLoop.{
  Settings, Tick, Outcome, goes_on, count_wakeup, count_firstup, Pair, done_at, dual_catch_up,
  dual_look_further, dual_next, dual_round,
}
use acq400drv.DataLoop.Holding.{count_wakeup-SameLists}

-- The outcome goes on with pair `p`, `q` although nothing is in flight, and they stand at the end of
-- REFILLS.
pub record Stale (p q : ℕ) (refills : List ℕ) (o : Outcome Pair) : Type 0 where
  pub after : Dev
  pub same_pair : o ≡ goes_on after (some p, some q)
  pub nothing_in_flight : after.inflight ≡ []
  pub passed_on : after.refills ≡ refills ++ p ∷ q ∷ []

-- The device as the round leaves it.
passed : Dev → Dev
passed d = count_firstup (put_full (put_full d))

passed_inflight : (d : Dev) (p q : ℕ) → d.inflight ≡ p ∷ q ∷ [] → (passed d).inflight ≡ []
unfolding passed put_full count_firstup
passed_inflight d p q e = ground (arith, e)

passed_refills :
    (d : Dev) (p q : ℕ) → d.inflight ≡ p ∷ q ∷ [] → (passed d).refills ≡ d.refills ++ p ∷ q ∷ []
unfolding passed put_full count_firstup
passed_refills d p q e = ground (arith, e, append_assoc d.refills (p ∷ []) (q ∷ []))

passed_empties : (d : Dev) → (passed d).empties ≡ d.empties
unfolding passed put_full count_firstup
passed_empties d = elim (List-cases d.inflight) [
  | inl e ↦ ground arith
  | inr (p, rest, e) ↦ elim (List-cases rest) [
    | inl e' ↦ ground arith
    | inr (q, rest', e') ↦ ground arith
  ]
]

dual_look_further-few :
    (cfg : Settings) (d : Dev) (held : Pair)
    → cfg.has_catchup ≡ true
    → multiple_empties_waiting d ≡ false
    → dual_look_further cfg d held ≡ (d, held)
unfolding dual_look_further dual_catch_up
dual_look_further-few cfg d held c m = rw (c, m) refl

same_waiting :
    (d d' : Dev) → d'.empties ≡ d.empties → multiple_empties_waiting d' ≡ multiple_empties_waiting d
unfolding multiple_empties_waiting
same_waiting d d' e = rw e refl

recount : (estop : Bool) (d : Dev) → SameLists d (if estop then d else count_wakeup d)
recount true d = record {
  empties = refl;
  inflight = refl;
  refills = refl;
  opens = refl;
  stash = refl;
  states = λ q. refl;
  indices = λ q. refl;
}
recount false d = count_wakeup-SameLists d

and_false : (b : Bool) → (b && false) ≡ false
and_false true = refl
and_false false = refl

-- With the catch-up switched on and fewer than two buffers free, the dual loop passes its two
-- buffers on and then goes on with the same two, which are the reader's now, while nothing is in
-- flight: the exhaustion is not noticed.
pub dual_round-Stale :
    (cfg : Settings) (t : Tick) (estop : Bool) (d : Dev) (p q : ℕ)
    → cfg.has_catchup ≡ true
    → t.timed_out ≡ false
    → t.fifo_error ≡ false
    → (t.during_wait d).inflight ≡ p ∷ q ∷ []
    → multiple_empties_waiting (t.during_wait d) ≡ false
    → (dma_done (t.during_wait d) p).1 ≡ true
    → Stale p q (t.during_wait d).refills (dual_round cfg t estop d (some p, some q))
unfolding dual_round dual_next done_at passed
dual_round-Stale cfg t estop d p q c timed fifo flight few ready =
    let d0 : Dev = t.during_wait d in
    let d1 : Dev = (dma_done d0 p).0 in
    let d2 : Dev = (dma_done d1 q).0 in
    let d3 : Dev = if estop then d2 else count_wakeup d2 in
    let s1 = dma_done-SameLists d0 p in
    let s2 = dma_done-SameLists d1 q in
    let s3 : SameLists d2 d3 = recount estop d2 in
    let d4 : Dev = passed d3 in
    let lists_inflight = s3.inflight ∙ s2.inflight ∙ s1.inflight ∙ flight in
    let lists_refills = s3.refills ∙ s2.refills ∙ s1.refills in
    let few4 : multiple_empties_waiting d4 ≡ false =
      same_waiting d0 d4 (passed_empties d3 ∙ s3.empties ∙ s2.empties ∙ s1.empties) ∙ few in
    record {
      after = d4;
      same_pair =
          rw
            (
              timed,
              ready,
              and_false (not estop),
              fifo,
              dual_look_further-few cfg d4 (some p, some q) c few4,
            )
            refl;
      nothing_in_flight = passed_inflight d3 p q lists_inflight;
      passed_on = passed_refills d3 p q lists_inflight ∙ ap (λ l. l ++ p ∷ q ∷ []) lists_refills;
    }
