-- ===== src/Demux.antt =====
-- acq400_stream.cpp, `DemuxBuffer<T, DB_REGULAR>`: raw buffers are dealt out to channels, with the channel that
-- comes next kept from buffer to buffer, and the files written at the end. A pointer into a buffer is an index into the
-- words from `src1` on, also past the end. The arrays of the channels are long enough. `evX.isES` is an argument.
pub mod Alignment
pub mod Dealing
pub mod Streams
pub mod Files
use acq400drv.Prelude.{
  ℕ, zero, suc, ◌+◌, ◌-◌, ◌/◌, Bool, true, false, not, ◌&&◌, List, [], ◌∷◌, ◌++◌, Option, none,
  some, ltb, leb, ◌==◌, if◌then◌else◌, bit_and,
}

-- The members that stay, with `sizeof(T)` and the static `show_es`, `demux_size` and `ID_MASK`.
pub record Config : Type 0 where
  pub nchan : ℕ
  pub nchan_es : ℕ
  pub show_es : Bool
  pub demux_size : ℕ
  pub id_mask : ℕ
  pub data_fits_buffer : Bool
  pub mask : ℕ → ℕ
  pub sizeof_t : ℕ
  pub is_es : (ℕ → ℕ) → Bool

-- What the channels got: `dddata` up to `ddcursors`.
abbrev pub Channels : Type 0
Channels = ℕ → List ℕ

-- The words of a buffer, and its length in bytes.
pub record RawBuffer : Type 0 where
  pub words : ℕ → ℕ
  pub buffer_len : ℕ

-- The static members that change, and the files: the ones being written, and the published ones.
pub record DemuxState : Type 0 where
  pub channels : Channels
  pub startchan : ℕ
  pub new_files : ℕ → Option (List ℕ)
  pub files : ℕ → Option (List ℕ)

-- How a sample ends: at the end of the buffer, with the next channel, or before it.
pub data Dealt : Type 0 where
  ended : Channels → ℕ → Dealt
  goes_on : Channels → ℕ → Dealt

-- `*ddcursors[ichan]++ = w`
abbrev pub push : Channels → ℕ → ℕ → Channels
push out ichan w c = if c == ichan then out c ++ w ∷ [] else out c

module _ (cfg : Config) where
  abbrev pub ch_id : ℕ → ℕ
  ch_id word = bit_and word cfg.id_mask

  -- `ch_id` of four words is that of site 1.
  abbrev pub aligned : (ℕ → ℕ) → ℕ → Bool
  aligned words src =
      ch_id (words src) == ch_id 32
      && ch_id (words (src + 1)) == ch_id 33
      && ch_id (words (src + 2)) == ch_id 34
      && ch_id (words (src + 3)) == ch_id 35

  -- The search for the start, from `src` on; it gives up above 256, so `n` rounds are enough if `src + n` is.
  pub align : (ℕ → ℕ) → ℕ → ℕ → Option ℕ
  align words src zero = none
  align words src (suc n) =
      let next = align words (suc src) n in
      if aligned words src then some src else if ltb 256 src then none else next

  -- `src`, after a signature of an event.
  unfoldable pub skip_es : (ℕ → ℕ) → ℕ → ℕ
  skip_es words src =
      if not cfg.show_es && cfg.is_es (λ i. words (src + i)) then src + cfg.nchan_es else src

  -- The inner loop, for `n` channels from `ichan` on, in a buffer of `tlen` words.
  pub deal : (ℕ → ℕ) → ℕ → Channels → ℕ → ℕ → ℕ → Dealt
  deal words tlen out src ichan zero = goes_on out src
  deal words tlen out src ichan (suc n) =
      let out1 = push out ichan (bit_and (words src) (cfg.mask ichan)) in
      let rest = deal words tlen out1 (suc src) (suc ichan) n in
      if leb tlen (suc src)
      then ended out1 (if leb cfg.nchan (suc ichan) then 0 else suc ichan)
      else rest

  -- The outer loop, on fuel.
  pub samples : ℕ → (ℕ → ℕ) → ℕ → Channels → ℕ → ℕ → Option (Channels × ℕ)
  samples zero words tlen out src ichan = none
  samples (suc fuel) words tlen out src ichan =
      elim (deal words tlen out (skip_es words src) ichan (cfg.nchan - ichan)) [
        | ended out1 next ↦ some (out1, next)
        | goes_on out1 src1 ↦ samples fuel words tlen out1 src1 0
      ]

  -- Where `demux` begins; `none` if no channel alignment is found.
  unfoldable pub begin_at : Bool → (ℕ → ℕ) → Option ℕ
  begin_at start words =
      if cfg.sizeof_t == 4 && start && not cfg.data_fits_buffer then align words 0 258 else some 0

  -- `demux`, with what it returns; the fuel is a round for each word and one more.
  pub demux : Bool → (ℕ → ℕ) → ℕ → DemuxState → Option (DemuxState × Bool)
  demux start words len st =
      let tlen = len / cfg.sizeof_t in
      elim (begin_at start words) [
        | none ↦ some (st, true)
        | some src ↦ elim (samples (suc tlen) words tlen st.channels src st.startchan) [
          | none ↦ none
          | some (out, next) ↦ some (record st { channels = out; startchan = next }, false)
        ]
      ]

  -- `start`
  pub start_files : DemuxState → DemuxState
  start_files st = record st {
    channels = λ ic. if ltb ic cfg.nchan then [] else st.channels ic;
    startchan = 0;
  }

  -- The loop over `writeChan`, for `n` channels from `ic` on; false if a file can not be opened.
  pub write_chans : (ℕ → Bool) → ℕ → ℕ → DemuxState → DemuxState × Bool
  write_chans opens ic zero st = (st, true)
  write_chans opens ic (suc n) st =
      let file = some (st.channels ic) in
      let rest =
        write_chans opens (suc ic) n
          (record st { new_files = λ c. if c == ic then file else st.new_files c }) in
      if opens ic then rest else (st, false)

  -- `finish`: the new files take the place of the old ones.
  pub finish : DemuxState → DemuxState
  finish st = record st { files = st.new_files; new_files = λ c. none }

  -- The end of `writeBuffer`, with BO_FINISH, after the files are written or not; `none` is -1.
  abbrev pub finish_files : ℕ → DemuxState × Bool → DemuxState × Option ℕ
  finish_files len (st, true) = (finish st, some len)
  finish_files len (st, false) = (st, none)

  -- How many bytes of a buffer `writeBuffer` takes.
  abbrev pub demux_len : RawBuffer → ℕ
  demux_len b = if cfg.demux_size == 0 then b.buffer_len else cfg.demux_size

  -- `writeBuffer`, with BO_START and BO_FINISH.
  pub write_buffer :
      (ℕ → Bool) → Bool → Bool → RawBuffer → DemuxState → Option (DemuxState × Option ℕ)
  write_buffer opens bo_start bo_finish b st =
      let len = demux_len b in
      elim (demux bo_start b.words len (if bo_start then start_files st else st)) [
        | none ↦ none
        | some (st1, failed) ↦ some (
            if bo_finish
            then finish_files len (write_chans opens 0 cfg.nchan st1)
            else (st1, some len))
      ]
