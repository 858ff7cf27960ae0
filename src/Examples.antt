-- ===== src/Examples.antt =====
-- Small devices and caches on which the theorems' hypotheses hold.
pub mod Sorter
pub mod ListRuns
pub mod Paths
pub mod Poisoning
pub mod Caching
pub mod Looping
pub mod Banks
pub mod Queues
pub mod Sets
pub mod Embedding
pub mod Playing
pub mod Waveforms
pub mod Knobs
pub mod Streaming
pub mod Transients
pub mod Demuxing
pub mod Transposing
use acq400drv.Prelude.{ℕ, false, [], ◌∷◌, Option, none, some}
use acq400drv.Device.{Dev, Hbm, RunTime, QueueReport, bs_empty, null_put_empty}

-- A buffer of eight words.
abbrev pub some_buffer : ℕ → Hbm
some_buffer p = record {
  va = 10 ∷ 11 ∷ 12 ∷ 13 ∷ 14 ∷ 15 ∷ 16 ∷ 17 ∷ [];
  pa = 0;
  len = 32;
  ix = p;
  bstate = bs_empty;
  poison0 = 0;
  poison1 = 0;
}

abbrev no_errors : QueueReport
no_errors = record { report_active = false; errors = 0 }

abbrev pub cleared : RunTime
cleared = record {
  refill_error = 0;
  buffers_dropped = 0;
  please_stop = 0;
  nget = 0;
  ngetr = 0;
  nput = 0;
  axi64_wakeups = 0;
  axi64_firstups = 0;
  axi64_catchups = 0;
  get_empty_errors = no_errors;
  put_full_errors = no_errors;
}

-- Three free buffers.
abbrev pub idle : Dev
idle = record {
  hbm = some_buffer;
  empties = 0 ∷ 1 ∷ 2 ∷ [];
  inflight = [];
  refills = [];
  opens = [];
  stash = [];
  rt = cleared;
  bufferlen = 32;
  on_put_empty = null_put_empty;
  chain0 = 0 ∷ 1 ∷ 2 ∷ [];
  chain1 = [];
  stats_errors = 0;
  task_active = false;
  run_buffers = 0;
  axi_poison_offset = 0;
  axi_init_buffers = false;
  axi_debug_loopback_index = 0;
}

-- The device of a result, `idle` if there is none.
abbrev pub device_of : Option Dev → Dev
device_of none = idle
device_of (some d) = d
