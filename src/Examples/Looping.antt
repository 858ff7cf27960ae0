-- ===== src/Examples/Looping.antt =====
-- The data loops on the idle device.
use acq400drv.Prelude.{ℕ, ◌≡◌, ◌≢◌, refl, Option, none, some, true, false, [], ◌∷◌, arith}
use acq400drv.Device.{Dev}
use acq400drv.AxiChain.{dma_done, poison_overwritten}
use acq400drv.HbmLists.{get_empty, put_full, multiple_empties_waiting}
use acq400drv.DataLoop.{Settings, Tick, count_catchup, catch_up, loop, dual_round}
use acq400drv.DataLoop.Holding.{Holds, catch_up-some, get_empty-Holds}
use acq400drv.DataLoop.CatchUp.{CaughtUp, catch_up-CaughtUp}
use acq400drv.DataLoop.Rounds.{Fair, Sound, loop-Sound}
use acq400drv.DataLoop.Exhaustion.{Stale, dual_round-Stale}
use acq400drv.Examples.{idle}
use acq400drv.Examples.ListRuns.{idle-IsValid}

abbrev catching_up : Settings
catching_up = record {
  axi_oneshot = false;
  call_helper = false;
  has_catchup = true;
  quit_on_exhaustion = false;
}

abbrev quiet : Tick
quiet = record {
  during_wait = λ d. d;
  timed_out = false;
  should_stop = false;
  stop_before = false;
  fifo_error = false;
}

quiet-Fair : Fair quiet
quiet-Fair = record { keeps = λ d p h. h }

-- The thread has taken buffer 0.
abbrev started : Dev
started = (get_empty idle).0

started-Holds : Holds started (some 0)
unfolding get_empty
started-Holds = get_empty-Holds idle (record { valid = idle-IsValid; alone = refl })

-- The buffers of `idle` hold data and no marker, as if the DMA had filled them: two rounds.
loop-Sound_example : Sound (loop catching_up (quiet ∷ quiet ∷ []) started 0)
loop-Sound_example =
    loop-Sound catching_up (quiet ∷ quiet ∷ []) started 0 (quiet-Fair, (quiet-Fair, tt))
      started-Holds

catch_up-some_example : catch_up 4 idle ≢ none
catch_up-some_example = catch_up-some 4 idle (omega arith)

abbrev found : Dev × Option ℕ
found = elim (catch_up 4 idle) [ none ↦ (idle, none) | some r ↦ r ]

found_lem : catch_up 4 idle ≡ some (found.0, found.1)
unfolding catch_up get_empty poison_overwritten count_catchup put_full
found_lem = refl

catch_up-CaughtUp_example : CaughtUp idle found.0 found.1
catch_up-CaughtUp_example = catch_up-CaughtUp 4 idle found.0 found.1 refl found_lem

-- Two filled buffers in flight and one free.
abbrev nearly_out : Dev
nearly_out = record idle { empties = 2 ∷ []; inflight = 0 ∷ 1 ∷ [] }

ready_lem : (dma_done nearly_out 0).1 ≡ true
unfolding dma_done
ready_lem = refl

few_lem : multiple_empties_waiting nearly_out ≡ false
unfolding multiple_empties_waiting
few_lem = refl

dual_round-Stale_example :
    Stale 0 1 nearly_out.refills (dual_round catching_up quiet false nearly_out (some 0, some 1))
dual_round-Stale_example =
    dual_round-Stale catching_up quiet false nearly_out 0 1 refl refl refl refl few_lem ready_lem
