-- ===== src/Examples/Demuxing.antt =====
-- Two channels, and a buffer of seven words with a signature after the first sample.
use acq400drv.Prelude.{
  ℕ, ◌≤◌, ◌≡◌, true, false, List, [], ◌∷◌, ◌++◌, none, some, ◌==◌, get_or, refl, arith,
}
use acq400drv.Demux.{Config, Channels, DemuxState, RawBuffer, skip_es, begin_at, samples}
use acq400drv.Demux.Dealing.{Holds}
use acq400drv.Demux.Streams.{samples-past_end}
use acq400drv.Demux.Alignment.{FirstAligned, begin_at-FirstAligned}

abbrev two_channels : Config
two_channels = record {
  nchan = 2;
  nchan_es = 2;
  show_es = false;
  demux_size = 0;
  id_mask = 255;
  data_fits_buffer = true;
  mask = λ ic. 4294967295;
  sizeof_t = 4;
  is_es = λ words. words 0 == 99;
}

abbrev raw : RawBuffer
raw = record { words = λ i. get_or (1 ∷ 2 ∷ 99 ∷ 99 ∷ 3 ∷ 4 ∷ 5 ∷ []) i 0; buffer_len = 28 }

abbrev nothing : DemuxState
nothing = record { channels = λ c. []; startchan = 0; new_files = λ c. none; files = λ c. none }

abbrev stream : List ℕ
stream = (1 ∷ 2 ∷ []) ++ ((3 ∷ 4 ∷ []) ++ (5 ∷ []))

-- A buffer that ends with a signature; the word after it is 7.
abbrev cut_short : ℕ → ℕ
cut_short i = get_or (1 ∷ 2 ∷ 99 ∷ 99 ∷ 7 ∷ []) i 0

at_end : 4 ≤ skip_es two_channels cut_short 2
unfolding skip_es
at_end = omega arith

empty-Holds : Holds two_channels nothing.channels 0 []
empty-Holds = record { dealt = λ c l. refl; turn = refl }

samples-past_end_example :
    (out1 : Channels) × (next : ℕ) × (samples two_channels 5 cut_short 4 nothing.channels 2 0
      ≡ some (out1, next))
    × Holds two_channels out1 next ([] ++ cut_short (skip_es two_channels cut_short 2) ∷ [])
samples-past_end_example =
    samples-past_end two_channels cut_short 4 (omega arith) 4 nothing.channels 2 0 [] (omega arith)
      at_end empty-Holds

abbrev uneven : Config
uneven = record two_channels { data_fits_buffer = false }

begin_at-FirstAligned_example : FirstAligned uneven raw.words 0 (begin_at uneven true raw.words)
begin_at-FirstAligned_example = begin_at-FirstAligned uneven raw.words refl refl
