-- ===== src/Demux/Files.antt =====
-- acq400_stream.cpp, `DemuxBuffer::writeBuffer`: the channels kept from buffer to buffer, and their files.
use acq400drv.Prelude.{ℕ, ◌+◌, ◌<◌, ◌≤◌, ◌≡◌, Bool, true, false, List, [], some}
use acq400drv.Demux.{Config, DemuxState}
use acq400drv.Demux.Dealing.{select, Holds}

module _ (cfg : Config) (some_chan : 0 < cfg.nchan) where
  -- The files from channel `ic` on, for `n` channels.
  record Wrote (ic n : ℕ) (st st1 : DemuxState) : Type 0 where
    wrote : (c : ℕ) → ic ≤ c → c < ic + n → st1.new_files c ≡ some (st.channels c)
    before : (c : ℕ) → c < ic → st1.new_files c ≡ st.new_files c
    channels : st1.channels ≡ st.channels
    startchan : st1.startchan ≡ st.startchan
    files : st1.files ≡ st.files

  -- The files after `writeBuffer`: with BO_FINISH the channels of the stream `ws`, without it what they were.
  abbrev pub Published : Bool → DemuxState → DemuxState → List ℕ → Type 0
  Published true st st1 ws = (c : ℕ) → c < cfg.nchan → st1.files c ≡ some (select cfg c 0 ws)
  Published false st st1 ws = st1.files ≡ st.files

  -- `st` when the dealing starts: with BO_START nothing is dealt yet, without it the stream `ws`.
  abbrev pub Carries : Bool → DemuxState → List ℕ → Type 0
  Carries true st ws = ws ≡ []
  Carries false st ws = Holds cfg st.channels st.startchan ws

  abbrev pub first_chan : Bool → DemuxState → ℕ
  first_chan true st = 0
  first_chan false st = st.startchan
