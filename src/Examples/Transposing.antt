-- ===== src/Examples/Transposing.antt =====
-- Two channels, two samples to a buffer, and five samples that begin in the second buffer.
use acq400drv.Prelude.{◌+◌, ◌*◌, ◌≡◌, false, [], some, refl, arith}
use acq400drv.Transpose.{Format, Demuxed, init_cursor, transpose}
use acq400drv.Transpose.Buffers.{Whole}
use acq400drv.Transpose.Moves.{Moved}
use acq400drv.Transpose.Loop.{Cursor, transpose-Moved}

abbrev pairs : Format
pairs = record {
  nchan = 2;
  wordsize = 2;
  double_up = false;
  sizeof_t = 2;
  bufferlen = 8;
  first_base = 0;
  ba_lo = 16;
  is_es = λ words. false;
}

pairs-Whole : Whole pairs 2
pairs-Whole = record {
  single = refl;
  some_chan = omega arith;
  some_size = omega arith;
  some_bytes = omega arith;
  same_word = refl;
  filled = refl;
}

abbrev captured : Demuxed
captured = record { dst = init_cursor pairs 0; memory = λ i. i + 100; esf = [] }

captured-Cursor : Cursor pairs 0 0 captured.dst
captured-Cursor = record { number = refl; based = refl; filled = refl }

transpose-Moved_example :
    (d1 : Demuxed) × (transpose pairs 4 (5 * 4) captured ≡ some (d1, 5 * 4))
    × Moved pairs 2 pairs-Whole 0 0 5 4 captured.memory d1.memory
transpose-Moved_example =
    transpose-Moved pairs 2 pairs-Whole 0 0 5 4 captured (omega arith) captured-Cursor (omega arith)
