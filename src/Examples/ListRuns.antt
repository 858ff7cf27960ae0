-- ===== src/Examples/ListRuns.antt =====
-- A run of the list functions: two buffers are filled and one of them read and given back.
use acq400drv.Prelude.{◌≡◌, ◌⊎◌, refl, List, [], ◌∷◌, ◌++◌, some, none, arith}
use acq400drv.Device.{Dev}
use acq400drv.AxiChain.{run_put_empty_hook}
use acq400drv.HbmLists.Steps.{
  Op, gets_empty, puts_full, gets_full, wakes, puts_empty, step, run, Headless,
}
use acq400drv.HbmLists.Count.{total}
use acq400drv.HbmLists.Invariant.{IsValid}
use acq400drv.HbmLists.Safety.{run-IsValid}
use acq400drv.HbmLists.Fifo.{pipeline, acquired, delivered, delivered-run}
use acq400drv.HbmLists.Runs.{total-run}
use acq400drv.Examples.{idle, device_of}

abbrev pub capture : List Op
capture =
    gets_empty ∷ gets_empty ∷ puts_full ∷ puts_full ∷ gets_full ∷ puts_empty ∷ wakes ∷ gets_empty
    ∷ []

abbrev pub captured : Dev
captured = device_of (run idle capture)

captured_lem : run idle capture ≡ some captured
unfolding run run_put_empty_hook
captured_lem = refl

pub idle-IsValid : IsValid idle
idle-IsValid = λ q. ground arith

delivered-run_example :
    delivered idle capture ++ pipeline captured ≡ pipeline idle ++ acquired idle capture
delivered-run_example =
    delivered-run capture idle captured (tt, (tt, (tt, (tt, (tt, (tt, (tt, (tt, tt))))))))
      captured_lem

total-run_example : total 1 captured ≡ total 1 idle
total-run_example = total-run 1 capture idle captured captured_lem

run-IsValid_example :
    ((d' : Dev) × (run idle capture ≡ some d') × IsValid d')
    ⊎ ((run idle capture ≡ none) × Headless idle capture)
run-IsValid_example = run-IsValid capture idle idle-IsValid

fault_lem : step idle puts_empty ≡ none
unfolding step
fault_lem = refl
