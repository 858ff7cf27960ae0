-- ===== src/StreamLoop.antt =====
-- acq400_drv.c, `ai_data_loop`: the acquisition thread of a device whose FIFO two DMA channels empty in
-- turn, each into its own host buffer. One turn is a function of a `Turn`, which says what the outside
-- did meanwhile. The DMA engine, priorities, wake-ups and log lines have no state here.
pub mod TwoInFlight
pub mod Kept
pub mod Captures
use acq400drv.Prelude.{
  ℕ, ◌+◌, Bool, true, false, not, List, [], ◌∷◌, Option, none, some, if◌then◌else◌, length, sub32,
  ◌%◌, ◌^◌,
}
use acq400drv.Device.{Dev, incr32, in_refills, in_opens, in_inflight, null_put_empty}
use acq400drv.HbmLists.{get_empty, put_full, get_empty_from_refills, move_list_to_empty}
use acq400drv.DataLoop.{Outcome, goes_on, quits}

-- What happens from one wait to the next.
pub record Turn : Type 0 where
  pub stop_before : Bool
  pub during_wait : Dev → Dev
  -- how often the DMA callback came
  pub callbacks : ℕ
  -- `wait_event_interruptible_timeout` returned 0 or less
  pub timed_out : Bool
  pub stop_after : Bool
  -- `dma_sync_wait` returned DMA_SUCCESS
  pub synced : Bool
  -- what other threads do between `putFull` and `getEmpty`, and between `getEmpty` and
  -- `getEmptyFromRefills`: each takes `list_mutex` on its own
  pub after_put_full : Dev → Dev
  pub before_pull : Dev → Dev
  pub fifo_error : Bool

-- The buffer that each channel fills, the channel to wait for, and `adev->dma_callback_done`.
pub record Channels : Type 0 where
  pub fills0 : ℕ
  pub fills1 : ℕ
  pub second : Bool
  pub callback_done : ℕ

-- The buffer of the channel to wait for, and of the other one.
abbrev pub waited_for : Channels → ℕ
waited_for c = if c.second then c.fills1 else c.fills0

abbrev pub other : Channels → ℕ
other c = if c.second then c.fills0 else c.fills1

-- DMA_ASYNC_MEMCPY: the channel is given its next buffer, and the next wait is for the other one.
pub give : Channels → ℕ → Channels
give c p =
    if c.second
    then record c { fills1 = p; second = false }
    else record c { fills0 = p; second = true }

-- The next buffer: a free one, else one taken back from the readers, as the flag says. Other threads act
-- before the call of `getEmptyFromRefills`, but not between its test and its lock.
pub next_dma_buffer : (Dev → Dev) → Dev → Dev × Option (ℕ × Bool)
next_dma_buffer before_pull d =
    let (d1, found) = get_empty d in
    elim found [
      | some p ↦ (d1, some (p, false))
      | none ↦
          let (d2, pulled) = get_empty_from_refills (before_pull d1) in
          elim pulled [
            | none ↦ (d2, none)
            | some p ↦ (record d2 { stats_errors = incr32 d2.stats_errors }, some (p, true))
          ]
    ]

-- `emergency_drain_request`
pub drain : Bool → Dev → Channels → Outcome Channels
drain quit_on_exhaustion d c =
    let d1 = record d {
      rt = record d.rt { buffers_dropped = (d.rt.buffers_dropped + length d.refills) % 2 ^ 32 };
    } in
    let d2 = move_list_to_empty in_refills d1 in
    if quit_on_exhaustion
    then quits (record d2 { rt = record d2.rt { refill_error = 1 } })
    else goes_on d2 c

-- After the search for the next buffer.
pub rearm : Bool → Bool → Channels → Dev × Option (ℕ × Bool) → Outcome Channels
rearm quit_on_exhaustion fifo_error c (d, none) = quits d
rearm quit_on_exhaustion fifo_error c (d, some (p, emergency)) =
    if fifo_error
    then quits d
    else if emergency
    then drain quit_on_exhaustion d (give c p)
    else goes_on d (give c p)

-- One turn of the inner loop.
pub turn : Bool → Turn → Dev → Channels → Outcome Channels
turn quit_on_exhaustion t d c =
    let d1 = t.during_wait d in
    let c1 = record c { callback_done = sub32 (c.callback_done + t.callbacks) 1 } in
    if t.timed_out
    then quits (record d1 { rt = record d1.rt { refill_error = 2 } })
    else if t.stop_after
    then quits d1
    else if not t.synced
    then quits d1
    else rearm quit_on_exhaustion t.fifo_error c1
        (next_dma_buffer t.before_pull (t.after_put_full (put_full d1)))

-- The turns of both loops in a row: the thread's stop is tested before each.
pub turns : Bool → List Turn → Dev → Channels → Outcome Channels
turns quit_on_exhaustion [] d c = goes_on d c
turns quit_on_exhaustion (t ∷ ts) d c = elim t.stop_before [
  | true ↦ quits d
  | false ↦ elim (turn quit_on_exhaustion t d c) [
    | quits d' ↦ quits d'
    | goes_on d' c' ↦ turns quit_on_exhaustion ts d' c'
  ]
]

-- `ai_data_loop` up to its loop; `none` if fewer than two buffers are free, when the code reads
-- through a null pointer.
pub prime : Dev → ℕ → Option (Dev × Channels)
prime d callback_done =
    let (d1, hbm0) = get_empty (record d { on_put_empty = null_put_empty }) in
    let (d2, hbm1) = get_empty d1 in
    elim hbm0 [
      | none ↦ none
      | some p ↦ elim hbm1 [
        | none ↦ none
        | some q ↦ some (
          record d2 { task_active = true },
          record { fills0 = p; fills1 = q; second = false; callback_done = callback_done },
        )
      ]
    ]

-- The end of `_acq420_continuous_dma_stop`, once the thread has ended: all buffers are free again.
pub dma_stop : Dev → Dev
dma_stop d =
    move_list_to_empty in_inflight (
      move_list_to_empty in_refills
        (move_list_to_empty in_opens (record d { task_active = false })))
