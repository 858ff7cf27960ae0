-- ===== src/Examples/Playing.antt =====
-- An output module of four 16-bit channels, with the driver's default sizes and a FIFO of 8192
-- samples.
use native.Mathlib.Nat.{dvd_of_mod-eq-zero}
use acq400drv.Prelude.{ℕ, ◌+◌, ◌*◌, ◌<◌, ◌≡◌, refl, arith, true, false, inr, [], ◌-◌}
use acq400drv.Device.{Hbm, bs_empty}
use acq400drv.Playloop.{
  Settings, XoDev, fill_loop, fill_fifo, fifo_headroom, fill_threshold, wants_more, Look,
  check_fiferr,
}
use acq400drv.Playloop.Stream.{Whole}
use acq400drv.Playloop.Round.{InLoop}
use acq400drv.Playloop.Shots.{
  Playing, Over, play_shots, play_shots-Over, fill_fifo-starved, fill_loop-all,
}

abbrev pub host_buffer : ℕ → Hbm
host_buffer i = record {
  va = [];
  pa = 0x10000000 + i * 0x100000;
  len = 0x100000;
  ix = i;
  bstate = bs_empty;
  poison0 = 0;
  poison1 = 0;
}

abbrev pub ao : Settings
ao = record {
  hb = host_buffer;
  aoss = 8;
  max_fifo_samples = 8192;
  max_fill_block = 16384;
  min_dma_bytes = 32000;
  dma_threshold = 32000;
  contiguous_pa = false;
  has_chan0 = true;
  has_memcpy_chan = true;
  use_distributor = false;
}

pub ao-Whole : Whole ao
ao-Whole = record {
  sample = omega arith;
  words = dvd_of_mod-eq-zero 4 refl;
  blocks = dvd_of_mod-eq-zero 8 refl;
  block = omega arith;
  dmas = dvd_of_mod-eq-zero 8 refl;
  dma = omega arith;
  buffers = dvd_of_mod-eq-zero 8 refl;
  buffer = omega arith;
  block_int = omega arith;
  dma_int = omega arith;
  threshold_int = omega arith;
  buffer_int = omega arith;
  fifo = omega arith;
  fifo_int = omega arith;
}

-- A one-shot of `n` samples, to be played three times.
abbrev pub loaded : ℕ → XoDev
loaded n = record {
  playloop = record { length = n; cursor = 0; oneshot = 1; repeats = 3 };
  sent = [];
  fsr_writes = [];
  fifo_errors = 0;
  interrupt = true;
  rearms = 0;
}

loaded-InLoop : (n : ℕ) → n < 0x1000000 → InLoop ao (loaded n)
loaded-InLoop n h = record {
  loop_int = omega arith;
  length_int = omega arith;
  inside = omega arith;
}

fill_loop-all_example : (fill_loop ao (λ i. 0) 1000 (loaded 900) false).0.playloop.cursor ≡ 900
unfolding fifo_headroom fill_threshold
fill_loop-all_example =
    fill_loop-all ao ao-Whole (λ i. 0) 1000 (loaded 900) false (loaded-InLoop 900 (omega arith))
      refl (λ i. (omega arith, omega arith)) (omega arith)

abbrev pub look : Look
look = record { no_lock = false; samples = λ i. 0; fifo_sta = 0 }

wants_more_lem : wants_more ao (fifo_headroom ao 0) (loaded 20_000) ≡ true
unfolding wants_more fill_threshold fifo_headroom
wants_more_lem = refl

room_lem : fifo_headroom ao 0 < 20_000 - 0
unfolding fifo_headroom
room_lem = omega arith

-- The default sizes: a loop longer than the FIFO is not even begun.
fill_fifo-starved_example :
    fill_fifo ao look (loaded 20_000) ≡ (check_fiferr 0 (loaded 20_000), true)
fill_fifo-starved_example =
    fill_fifo-starved ao ao-Whole look (loaded 20_000) (loaded-InLoop 20_000 (omega arith))
      (inr (omega arith)) refl wants_more_lem room_lem

play_shots-Over_example :
    ((n : ℕ) → n < 3 → Playing (loaded 900) (3 - n) (play_shots 0 n (loaded 900)))
    × Over (loaded 900) (play_shots 0 3 (loaded 900))
play_shots-Over_example = play_shots-Over 0 (loaded 900) refl (omega arith) (omega arith)
