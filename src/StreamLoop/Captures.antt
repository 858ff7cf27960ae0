-- ===== src/StreamLoop/Captures.antt =====
-- acq400_drv.c, `ai_data_loop` from its start to the stop: the turns, and a capture as a whole.
use acq400drv.Prelude.{
  ℕ, ◌≡◌, count, Bool, List, [], ◌∷◌, Option, none, some, inl, inr, Bool-cases, ◌+◌, sub32,
}
use acq400drv.Device.{Dev}
use acq400drv.HbmLists.{put_full}
use acq400drv.HbmLists.Invariant.{IsValid}
use acq400drv.HbmLists.Count.{total}
use acq400drv.DataLoop.{Outcome, goes_on, quits}
use acq400drv.StreamLoop.{
  Turn, Channels, waited_for, other, next_dma_buffer, turn, turns, prime, dma_stop,
}
use acq400drv.StreamLoop.TwoInFlight.{
  Flies, both, Sound, Fair, put_full-Flies, next_dma_buffer-Found, rearm-Sound, recount-Flies,
}

turn-Sound :
    (quit : Bool) (t : Turn) (d : Dev) (c : Channels)
    → Fair t
    → Flies d (both c)
    → Sound (turn quit t d c)
unfolding turn
turn-Sound quit t d c fair h =
    let d1 : Dev = t.during_wait d in
    let c1 : Channels = record c { callback_done = sub32 (c.callback_done + t.callbacks) 1 } in
    let h1 = fair.0 d (both c) h in
    let h2 =
      fair.1 (put_full d1) (other c ∷ []) (put_full-Flies d1 (waited_for c) (other c ∷ []) h1) in
    let d2 : Dev = t.after_put_full (put_full d1) in
    elim (Bool-cases t.timed_out) [
      | inl e ↦ rw (e, turn) (recount-Flies d1 d1.stats_errors _ (both c) h1).valid
      | inr e ↦ elim (Bool-cases t.stop_after) [
        | inl s ↦ rw (e, turn, s) h1.valid
        | inr s ↦ elim (Bool-cases t.synced) [
          | inr y ↦ rw (e, turn, s, y) h1.valid
          | inl y ↦
              rw (e, turn, s, y)
                (rearm-Sound quit t.fifo_error c1 (next_dma_buffer t.before_pull d2)
                  (next_dma_buffer-Found t.before_pull d2 (other c ∷ []) fair.2 h2))
        ]
      ]
    ]

abbrev pub AllFair : List Turn → Type 0
AllFair [] = Unit
AllFair (t ∷ ts) = Fair t × AllFair ts

continue-Sound :
    (o : Outcome Channels) (next : Dev → Channels → Outcome Channels)
    → ((d : Dev) (c : Channels) → Flies d (both c) → Sound (next d c))
    → Sound o
    → Sound (elim o [ quits d ↦ quits d | goes_on d c ↦ next d c ])
continue-Sound (goes_on d c) next later s = later d c s
continue-Sound (quits d) next later s = s

-- `ai_data_loop`, over any number of turns and with any fair doings of the other threads during its
-- waits and between its calls of `putFull`, `getEmpty` and `getEmptyFromRefills`, keeps the lists well-formed, and while it goes on exactly two buffers are in flight: first
-- the one of the channel it waits for, then the other channel's. So a `putFull` moves just the buffer
-- whose channel is done.
pub turns-Sound :
    (quit : Bool) (ts : List Turn) (d : Dev) (c : Channels)
    → AllFair ts
    → Flies d (both c)
    → Sound (turns quit ts d c)
unfolding turns
turns-Sound quit [] d c fair h = h
turns-Sound quit (t ∷ ts) d c fair h = elim (Bool-cases t.stop_before) [
  | inl e ↦ rw e h.valid
  | inr e ↦ rw e (
      continue-Sound (turn quit t d c) (turns quit ts)
        (λ d' c' h'. turns-Sound quit ts d' c' fair.1 h') (turn-Sound quit t d c fair.0 h))
]

-- A capture: the thread's start, its turns, and the stop.
pub capture : Bool → List Turn → Dev → ℕ → Option Dev
capture quit ts d n = elim (prime d n) [
  | none ↦ none
  | some (d1, c) ↦ elim (turns quit ts d1 c) [
    | quits d2 ↦ some (dma_stop d2)
    | goes_on d2 c2 ↦ some (dma_stop d2)
  ]
]

-- What a stopped device is like that was `d` before the capture: every buffer of its lists is free,
-- in EMPTIES or set aside in STASH, as often as it stood in the lists of `d`.
pub record Idle (d d' : Dev) : Type 0 where
  pub valid : IsValid d'
  pub no_opens : d'.opens ≡ []
  pub no_refills : d'.refills ≡ []
  pub no_inflight : d'.inflight ≡ []
  pub all_free : (q : ℕ) → count q d'.empties + count q d'.stash ≡ total q d
