-- ===== src/DataLoop/Rounds.antt =====
-- acq400_drv.c, `axi64_data_loop`: whole rounds and the loop, from what `Holding` shows of the
-- parts.
use acq400drv.Prelude.{
  ℕ, ◌&&◌, List, [], ◌∷◌, Option, none, some, arith, inl, inr, Bool-cases, Option-cases, length,
  ◌%◌, ◌^◌, ◌+◌,
}
use acq400drv.Device.{Dev, RunTime, in_refills, incr32}
use acq400drv.AxiChain.{dma_done}
use acq400drv.AxiChain.Frame.{poison_one_buffer-SameLists, dma_done-SameLists}
use acq400drv.HbmLists.{get_empty, put_full, move_list_to_empty}
use acq400drv.HbmLists.Invariant.{IsValid}
use acq400drv.DataLoop.{
  Settings, Tick, Outcome, goes_on, quits, count_wakeup, count_firstup, exhausted, next_buffer,
  look_further, round, loop,
}
use acq400drv.DataLoop.Holding.{
  Holds, Holds-SameLists, count_wakeup-SameLists, put_full-Holds, get_empty-Holds,
  count_firstup-Holds, look_further-Holds, discarded-Holds,
}

-- A round, or the loop, ended well.
abbrev pub Sound : Outcome ℕ → Type 0
Sound (goes_on d p) = Holds d (some p)
Sound (quits d) = IsValid d

-- What the other threads may do while this one waits: anything that keeps the lists well-formed
-- and leaves the buffer in flight alone.
pub record Fair (t : Tick) : Type 0 where
  pub keeps : (d : Dev) (p : ℕ) → Holds d (some p) → Holds (t.during_wait d) (some p)

recount-Holds :
    (d : Dev) (n : ℕ) (rt : RunTime) (f : Option ℕ)
    → Holds d f
    → Holds (record d { stats_errors = n; rt = rt }) f
recount-Holds d n rt f h = record { valid = λ q. ground (arith, h.valid q); alone = h.alone }

exhausted-Sound : (cfg : Settings) (d : Dev) → Holds d none → Sound (exhausted cfg d)
unfolding exhausted
exhausted-Sound cfg d h =
    let d1 : Dev = record d {
      stats_errors = incr32 d.stats_errors;
      rt = record d.rt { buffers_dropped = (d.rt.buffers_dropped + length d.refills) % 2 ^ 32 };
    } in
    let d2 : Dev = move_list_to_empty in_refills d1 in
    let h2 : Holds d2 none = discarded-Holds d1 (recount-Holds d _ _ none h) in
    elim (Bool-cases cfg.quit_on_exhaustion) [
      | inl q ↦ rw q (recount-Holds d2 d2.stats_errors _ none h2).valid
      | inr q ↦ elim (Option-cases (get_empty d2).1) [
        | inl e ↦ rw (q, e) (get_empty-Holds d2 h2).valid
        | inr (p, e) ↦
            rw (q, e)
              (Holds-SameLists (get_empty d2).0 _ (some p)
                (poison_one_buffer-SameLists (get_empty d2).0 p) (rw e at (get_empty-Holds d2 h2)))
      ]
    ]

next_buffer-Sound :
    (cfg : Settings) (t : Tick) (d : Dev) (f : Option ℕ)
    → Holds d f
    → Sound (next_buffer cfg t (d, f))
unfolding next_buffer
next_buffer-Sound cfg t d none h = elim (Bool-cases t.fifo_error) [
  | inl e ↦ rw e h.valid
  | inr e ↦ rw e (exhausted-Sound cfg d h)
]
next_buffer-Sound cfg t d (some p) h = elim (Bool-cases t.fifo_error) [
  | inl e ↦ rw e h.valid
  | inr e ↦ rw e h
]

pub round-Sound :
    (cfg : Settings) (t : Tick) (d : Dev) (p : ℕ)
    → Fair t
    → Holds d (some p)
    → Sound (round cfg t d p)
unfolding round
round-Sound cfg t d p fair h =
    let d0 : Dev = t.during_wait d in
    let d1 : Dev = (dma_done d0 p).0 in
    let h1 : Holds d1 (some p) =
      Holds-SameLists d0 d1 (some p) (dma_done-SameLists d0 p) (fair.keeps d p h) in
    let d2 : Dev = count_wakeup d1 in
    let h2 : Holds d2 (some p) = Holds-SameLists d1 d2 (some p) (count_wakeup-SameLists d1) h1 in
    elim (Bool-cases (t.timed_out && t.should_stop)) [
      | inl e ↦ rw e h1.valid
      | inr e ↦ elim (Bool-cases (dma_done d0 p).1) [
        | inr w ↦ rw (e, w) h2
        | inl w ↦
            let d3 : Dev = count_firstup (put_full d2) in
            let h3 : Holds d3 none =
              count_firstup-Holds (put_full d2) none (put_full-Holds d2 p h2) in
            let r : Dev × Option ℕ = look_further cfg d3 in
            rw (e, w) (next_buffer-Sound cfg t r.0 r.1 (look_further-Holds cfg d3 h3))
      ]
    ]

abbrev pub AllFair : List Tick → Type 0
AllFair [] = Unit
AllFair (t ∷ ts) = Fair t × AllFair ts

continue-Sound :
    (o : Outcome ℕ) (next : Dev → ℕ → Outcome ℕ)
    → ((d : Dev) (p : ℕ) → Holds d (some p) → Sound (next d p))
    → Sound o
    → Sound (elim o [ quits d ↦ quits d | goes_on d p ↦ next d p ])
continue-Sound (goes_on d p) next later s = later d p s
continue-Sound (quits d) next later s = s

-- The data loop, over any number of rounds and with any fair doings of the other threads during its
-- waits, keeps the lists well-formed, and while it goes on the buffer it waits for is the only one
-- in flight. So a `putFull` moves just the buffer whose markers the round has tested.
pub loop-Sound :
    (cfg : Settings) (ts : List Tick) (d : Dev) (p : ℕ)
    → AllFair ts
    → Holds d (some p)
    → Sound (loop cfg ts d p)
unfolding loop
loop-Sound cfg [] d p fair h = h
loop-Sound cfg (t ∷ ts) d p fair h = elim (Bool-cases t.stop_before) [
  | inl e ↦ rw e h.valid
  | inr e ↦ rw e (
      continue-Sound (round cfg t d p) (loop cfg ts) (λ d' p' h'. loop-Sound cfg ts d' p' fair.1 h')
        (round-Sound cfg t d p fair.0 h))
]
