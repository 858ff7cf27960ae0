-- ===== src/DataLoop.antt =====
-- acq400_drv.c, the acquisition threads that take buffers from the AXI DMA: `axi64_data_loop` over
-- one channel and `axi64_dual_data_loop` over two. One round of the endless loop is a function of a
-- `Tick`, which says what the outside did meanwhile: the DMA's and the other threads' changes to the
-- device during the wait, whether the wait timed out, whether the thread shall stop, and what
-- `check_fifo_statuses` found. Terminating the DMA, priorities, waking readers, stopping the helper
-- task and log lines have no state here.
pub mod Holding
pub mod Rounds
pub mod Exhaustion
pub mod CatchUp
use acq400drv.Prelude.{
  ℕ, zero, suc, ◌+◌, Bool, true, false, not, ◌&&◌, ◌||◌, List, [], ◌∷◌, Option, none, some,
  if◌then◌else◌, length, ◌%◌, ◌^◌,
}
use acq400drv.Device.{Dev, truthy, incr32, in_refills, null_put_empty, poison_fastidious}
use acq400drv.AxiChain.{
  poison_one_buffer, poison_overwritten, dma_done, poison_all_buffers, clear_poison_all_buffers,
  check_all_buffers_are_poisoned,
}
use acq400drv.HbmLists.{get_empty, put_full, multiple_empties_waiting, move_list_to_empty}

-- The module parameters of the loops.
pub record Settings : Type 0 where
  pub axi_oneshot : Bool
  pub call_helper : Bool
  pub has_catchup : Bool
  pub quit_on_exhaustion : Bool

pub record Tick : Type 0 where
  pub during_wait : Dev → Dev
  -- `wait_event_interruptible_timeout` returned 0 or less
  pub timed_out : Bool
  pub should_stop : Bool
  -- `kthread_should_stop` before the wait
  pub stop_before : Bool
  pub fifo_error : Bool

-- How a round ends: the loop goes on holding a buffer, or leaves by `goto quit`.
pub data Outcome {ℓ} (H : Type ℓ) : Type ℓ where
  goes_on : Dev → H → Outcome H
  quits : Dev → Outcome H

-- `if (adev->rt.axi64_firstups) adev->rt.axi64_wakeups++`
pub count_wakeup : Dev → Dev
count_wakeup d =
    if truthy d.rt.axi64_firstups
    then record d { rt = record d.rt { axi64_wakeups = incr32 d.rt.axi64_wakeups } }
    else d

pub count_firstup : Dev → Dev
count_firstup d = record d { rt = record d.rt { axi64_firstups = incr32 d.rt.axi64_firstups } }

unfoldable pub count_catchup : Dev → Dev
count_catchup d = record d { rt = record d.rt { axi64_catchups = incr32 d.rt.axi64_catchups } }

-- The while loop that passes on the buffers that are already filled. Each round uses up a free
-- buffer, so fuel above the number of free buffers is enough; `none` is the end of the fuel. Its calls
-- take `list_mutex` one by one: this is its course when no other thread acts between them.
unfoldable pub catch_up : ℕ → Dev → Option (Dev × Option ℕ)
catch_up zero d = none
catch_up (suc fuel) d =
    let (d1, found) = get_empty d in
    elim found [
      | none ↦ some (d1, none)
      | some p ↦
          let (d2, over) = poison_overwritten d1 p in
          elim over [
            | true ↦ catch_up fuel (count_catchup (put_full d2))
            | false ↦ some (d2, some p)
          ]
    ]

-- Without a free buffer: the unread buffers are discarded, and the loop quits or takes one of them.
pub exhausted : Settings → Dev → Outcome ℕ
exhausted cfg d =
    let d1 = record d {
      stats_errors = incr32 d.stats_errors;
      rt = record d.rt { buffers_dropped = (d.rt.buffers_dropped + length d.refills) % 2 ^ 32 };
    } in
    let d2 = move_list_to_empty in_refills d1 in
    if cfg.quit_on_exhaustion
    then quits (record d2 { rt = record d2.rt { refill_error = 1 } })
    else (let (d3, found) = get_empty d2 in
        elim found [ none ↦ quits d3 | some p ↦ goes_on (poison_one_buffer d3 p) p ])

-- After the next buffer has been looked for.
pub next_buffer : Settings → Tick → Dev × Option ℕ → Outcome ℕ
next_buffer cfg t (d, found) =
    if t.fifo_error then quits d else elim found [ none ↦ exhausted cfg d | some p ↦ goes_on d p ]

-- The fuel that `catch_up` is called with.
abbrev pub catch_up_fuel : Dev → ℕ
catch_up_fuel d = suc (length d.empties)

-- The search for the next buffer after one has been passed on; without fuel it would hold none.
pub look_further : Settings → Dev → Dev × Option ℕ
look_further cfg d =
    if cfg.has_catchup
    then elim (catch_up (catch_up_fuel d) d) [ none ↦ (d, none) | some r ↦ r ]
    else get_empty d

-- One round of `axi64_data_loop` that waits for buffer `hbm`.
pub round : Settings → Tick → Dev → ℕ → Outcome ℕ
round cfg t d hbm =
    let (d1, ddone) = dma_done (t.during_wait d) hbm in
    if t.timed_out && t.should_stop
    then quits d1
    else (let d2 = count_wakeup d1 in
        if not ddone
        then goes_on d2 hbm
        else next_buffer cfg t (look_further cfg (count_firstup (put_full d2))))

-- The loop over a sequence of ticks: `kthread_should_stop` is tested before each.
pub loop : Settings → List Tick → Dev → ℕ → Outcome ℕ
loop cfg [] d hbm = goes_on d hbm
loop cfg (t ∷ ts) d hbm = elim t.stop_before [
  | true ↦ quits d
  | false ↦ elim (round cfg t d hbm) [ quits d' ↦ quits d' | goes_on d' hbm' ↦ loop cfg ts d' hbm' ]
]

-- `axi64_data_loop` up to its loop: the chain is poisoned and the first buffer taken. `load_failed`
-- is the result of the helper that loads the DMA controller, `stop` that of `kthread_should_stop`.
pub data Start : Type 0 where
  not_started : Dev → Start
  stopped : Dev → Start
  started : Dev → ℕ → Start
  -- no free buffer: the code reads through a null pointer
  no_buffer : Start

pub start : Settings → Bool → Bool → Dev → Start
start cfg load_failed stop d =
    let d0 = record d {
      on_put_empty = if cfg.axi_oneshot then null_put_empty else poison_fastidious;
    } in
    if cfg.call_helper && load_failed
    then not_started d0
    else (let (d1, fails) = check_all_buffers_are_poisoned (poison_all_buffers d0) in
        if truthy fails || stop
        then stopped d1
        else (let (d2, found) = get_empty d1 in
            elim found [
              | none ↦ no_buffer
              | some p ↦ started (record d2 { task_active = true }) p
            ]))

-- What follows the label `quit`.
pub finish : Dev → Dev
finish d = record (clear_poison_all_buffers d) { task_active = false }

-- The dual loop holds a buffer of each channel. A pointer is `none` for C's null.
abbrev pub Pair : Type 0
Pair = Option ℕ × Option ℕ

-- Two calls of `getEmpty`.
pub get_two : Dev → Dev × Pair
get_two d = let (d1, a) = get_empty d in let (d2, b) = get_empty d1 in (d2, (a, b))

-- `dma_done` of the buffer behind a pointer; the code calls it on pointers that are not null.
pub done_at : Dev → Option ℕ → Dev × Bool
done_at d none = (d, false)
done_at d (some p) = dma_done d p

-- The dual while loop. It leaves the pointers as they were if fewer than two buffers are free.
pub dual_catch_up : ℕ → Dev → Pair → Option (Dev × Pair)
dual_catch_up zero d held = none
dual_catch_up (suc fuel) d held = elim (multiple_empties_waiting d) [
  | false ↦ some (d, held)
  | true ↦
      let (d1, pair) = get_two d in
      let (d2, first) = done_at d1 pair.0 in
      let (d3, second) = if first then done_at d2 pair.1 else (d2, false) in
      elim (first && second) [
        | true ↦ dual_catch_up fuel (count_catchup (put_full (put_full d3))) pair
        | false ↦ some (d3, pair)
      ]
]

abbrev pub is_null : Option ℕ → Bool
is_null none = true
is_null (some p) = false

-- The dual loop without two free buffers, as in `exhausted`.
pub dual_exhausted : Settings → Dev → Outcome Pair
dual_exhausted cfg d =
    let d1 = record d {
      stats_errors = incr32 d.stats_errors;
      rt = record d.rt { buffers_dropped = (d.rt.buffers_dropped + length d.refills) % 2 ^ 32 };
    } in
    let d2 = move_list_to_empty in_refills (move_list_to_empty in_refills d1) in
    if cfg.quit_on_exhaustion
    then quits (record d2 { rt = record d2.rt { refill_error = 1 } })
    else (let (d3, pair) = get_two d2 in
        elim pair.0 [
          | none ↦ quits d3
          | some p ↦ elim pair.1 [
            | none ↦ quits d3
            | some q ↦ goes_on (poison_one_buffer (poison_one_buffer d3 p) q) pair
          ]
        ])

-- The search of the dual loop for the next pair.
pub dual_look_further : Settings → Dev → Pair → Dev × Pair
dual_look_further cfg d held =
    if cfg.has_catchup
    then elim (dual_catch_up (catch_up_fuel d) d held) [ none ↦ (d, held) | some r ↦ r ]
    else get_two d

pub dual_next : Settings → Tick → Dev × Pair → Outcome Pair
dual_next cfg t (d, pair) =
    if t.fifo_error
    then quits d
    else if is_null pair.0 || is_null pair.1
    then dual_exhausted cfg d
    else goes_on d pair

-- One round of `axi64_dual_data_loop`, outside the one-shot stop, which `estop` says: either buffer
-- done is enough to go on, after a delay that gives the other one time.
pub dual_round : Settings → Tick → Bool → Dev → Pair → Outcome Pair
dual_round cfg t estop d held =
    let (d1, done0) = done_at (t.during_wait d) held.0 in
    let (d2, done1) = done_at d1 held.1 in
    if t.timed_out && t.should_stop
    then quits d2
    else (let d3 = if estop then d2 else count_wakeup d2 in
        if not estop && not (done0 || done1)
        then goes_on d3 held
        else dual_next cfg t (dual_look_further cfg (count_firstup (put_full (put_full d3))) held))
