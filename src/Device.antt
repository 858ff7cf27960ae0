-- ===== src/Device.antt =====
-- acq400_structs.h and hbm.h: the state that the capture side of the driver shares. A pointer to a
-- `struct HBM` is a number, and `Dev.hbm` is the memory that it points into. The kernel lists hold
-- such pointers. A `struct list_head*` argument is a `ListHead`. Module parameters that the code
-- reads or writes are fields of `Dev` too.
use acq400drv.Prelude.{ℕ, ◌+◌, ◌%◌, ◌^◌, Bool, List, if◌then◌else◌, ◌==◌, not}

-- `enum BSTATE`
pub data BState : Type 0 where
  bs_empty bs_filling bs_full bs_full_app bs_reserved : BState

-- `struct HBM`, one host buffer: its words, physical address, length and index.
pub record Hbm : Type 0 where
  pub va : List ℕ
  pub pa : ℕ
  pub len : ℕ
  pub ix : ℕ
  pub bstate : BState
  pub poison0 : ℕ
  pub poison1 : ℕ

-- `struct RT_QUEUE_REPORT`
pub record QueueReport : Type 0 where
  pub report_active : Bool
  pub errors : ℕ

-- The part of `struct RUN_TIME` that buffer handling uses; as in C an `int` is true if not 0.
pub record RunTime : Type 0 where
  pub refill_error : ℕ
  pub buffers_dropped : ℕ
  pub please_stop : ℕ
  pub nget : ℕ
  pub ngetr : ℕ
  pub nput : ℕ
  pub axi64_wakeups : ℕ
  pub axi64_firstups : ℕ
  pub axi64_catchups : ℕ
  pub get_empty_errors : QueueReport
  pub put_full_errors : QueueReport

-- What `adev->onPutEmpty` points at.
pub data PutEmptyHook : Type 0 where
  null_put_empty poison_fastidious : PutEmptyHook

-- `struct acq400_dev`, with the module parameters.
pub record Dev : Type 0 where
  pub hbm : ℕ → Hbm
  pub empties : List ℕ
  pub inflight : List ℕ
  pub refills : List ℕ
  pub opens : List ℕ
  pub stash : List ℕ
  pub rt : RunTime
  pub bufferlen : ℕ
  pub on_put_empty : PutEmptyHook
  pub chain0 : List ℕ
  pub chain1 : List ℕ
  pub stats_errors : ℕ
  pub task_active : Bool
  pub run_buffers : ℕ
  pub axi_poison_offset : ℕ
  pub axi_init_buffers : Bool
  pub axi_debug_loopback_index : ℕ

-- Which list of a device a `struct list_head*` argument is.
pub data ListHead : Type 0 where
  in_empties in_inflight in_refills in_opens in_stash : ListHead

abbrev pub list_of : ListHead → Dev → List ℕ
list_of in_empties d = d.empties
list_of in_inflight d = d.inflight
list_of in_refills d = d.refills
list_of in_opens d = d.opens
list_of in_stash d = d.stash

abbrev pub put_list : ListHead → List ℕ → Dev → Dev
put_list in_empties l d = record d { empties = l }
put_list in_inflight l d = record d { inflight = l }
put_list in_refills l d = record d { refills = l }
put_list in_opens l d = record d { opens = l }
put_list in_stash l d = record d { stash = l }

-- A store through the pointer `p`.
abbrev pub update : (ℕ → Hbm) → ℕ → Hbm → ℕ → Hbm
update h p b q = if q == p then b else h q

-- `p->bstate = s`
abbrev pub set_state : (ℕ → Hbm) → ℕ → BState → ℕ → Hbm
set_state h p s = update h p (record (h p) { bstate = s })

-- C's reading of an `int` as a condition.
abbrev pub truthy : ℕ → Bool
truthy n = not (n == 0)

-- `++` on an `unsigned`
abbrev pub incr32 : ℕ → ℕ
incr32 n = (n + 1) % 2 ^ 32
