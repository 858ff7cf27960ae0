-- ===== src/Examples/Waveforms.antt =====
-- An AO424 of four 16-bit channels with bipolar span, on two pages of buffers, and a waveform of one
-- sample written twice.
use native.Mathlib.Nat.{dvd_of_mod-eq-zero}
use acq400drv.Prelude.{
  ◌-◌, ◌%◌, ℕ, ◌+◌, ◌≡◌, refl, arith, true, false, not, [], ◌∷◌, List, some, replicate,
  length-replicate,
}
use acq400drv.Device.{truthy}
use acq400drv.Playloop.{Settings}
use acq400drv.Playloop.Stream.{Whole}
use acq400drv.Awg.{Output, Kind, awg_open, awg_write, wronly, reset_playloop, take, signs_flipped}
use acq400drv.Awg.Calls.{status}
use acq400drv.Awg.Reset.{ResetTo, Refused, refuses, reset_playloop-ResetTo}
use acq400drv.Awg.Room.{Tracks, fitting}
use acq400drv.Awg.File.{ReadsBack, awg_write-ReadsBack}
use acq400drv.Awg.Session.{awg_writes, awg_session, awg_session-running}
use acq400drv.Examples.Playing.{ao, ao-Whole, loaded, look, host_buffer}

abbrev paged : Settings
paged = record ao { hb = λ i. record (host_buffer i) { len = 4096 } }

paged-Whole : Whole paged
paged-Whole = record {
  sample = ao-Whole.sample;
  words = ao-Whole.words;
  blocks = ao-Whole.blocks;
  block = ao-Whole.block;
  dmas = ao-Whole.dmas;
  dma = ao-Whole.dma;
  buffers = dvd_of_mod-eq-zero 8 refl;
  buffer = omega arith;
  block_int = ao-Whole.block_int;
  dma_int = ao-Whole.dma_int;
  threshold_int = ao-Whole.threshold_int;
  buffer_int = omega arith;
  fifo = ao-Whole.fifo;
  fifo_int = ao-Whole.fifo_int;
}

abbrev ao424 : Kind
ao424 = record { heads_set = false; is_dio432 = false; flips = true }

abbrev sample : List ℕ
sample = 0 ∷ 0x80 ∷ 1 ∷ 0x80 ∷ 2 ∷ 0 ∷ 3 ∷ 0 ∷ []

abbrev output : Output
output = record {
  xo = loaded 0;
  calls = [];
  task_active = false;
  segments = record {
    new_queue = record { buf = replicate 4096 0; head = 0; tail = 0 };
    ret_queue = record { buf = replicate 4096 0; head = 0; tail = 0 };
    awg_seg = 0x41;
    max_seg = 0x45;
    segment_offset = 0;
  };
  mem = λ i. replicate 4096 0;
}

output-Tracks : Tracks paged output 0
output-Tracks = record { buffers = λ ib. length-replicate {A = ℕ} 4096 0; covered = omega arith }

awg_write-ReadsBack_example :
    let r = awg_write paged ao424 (λ n. (take n sample, 0)) 0 8 output in
    (r.1 ≡ (0 + fitting paged 0 8, some (fitting paged 0 8)))
    × ReadsBack paged output r.0 0
        (fitting paged 0 8)
        (signs_flipped ao424 (take (fitting paged 0 8) sample))
        (λ n. 0)
awg_write-ReadsBack_example =
    awg_write-ReadsBack paged paged-Whole ao424 0 output output-Tracks sample
      (dvd_of_mod-eq-zero 8 refl) (omega arith) (λ n. (take n sample, 0)) (λ n. refl) (λ n. 0)
      (λ n. refl)

awg_session-running_example :
    let written =
      awg_writes paged ao424
        (sample ∷ sample ∷ [])
        0
        (awg_open paged ao424 look false wronly output) in
    let closed = awg_session paged ao424 look false (sample ∷ sample ∷ []) 1 output in
    ((status closed).running ≡ truthy written.1) × (closed.mem ≡ written.0.mem)
awg_session-running_example =
    awg_session-running paged ao424 look paged-Whole refl false (sample ∷ sample ∷ []) 1 output
      (λ ib. length-replicate {A = ℕ} 4096 0)
      (dvd_of_mod-eq-zero 8 refl, (dvd_of_mod-eq-zero 8 refl, tt)) (omega arith)

reset_playloop-ResetTo_example :
    let r = reset_playloop paged ao424 look false 2 output in
    (r.1 ≡ not (refuses paged ao424 look output false 2))
    × (refuses paged ao424 look output false 2 ≡ false → ResetTo paged ao424 2 output r.0)
    × (refuses paged ao424 look output false 2 ≡ true → Refused paged 2 output r.0)
reset_playloop-ResetTo_example = reset_playloop-ResetTo paged ao424 look output false 2

-- CIRC_CNT of the kernel's circ_buf.h, for a size that is a power of two.
abbrev circ_cnt : ℕ → ℕ → ℕ → ℕ
circ_cnt head tail size = (head + size - tail) % size

-- A waveform of two samples to be played again and again.
abbrev repeated : Output
repeated = record output {
  xo = record (loaded 2) { playloop = record { length = 2; cursor = 2; oneshot = 2; repeats = 0 } };
}
