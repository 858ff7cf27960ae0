-- ===== src/Transpose.antt =====
-- acq400_stream.cpp, the demultiplexing after a transient capture: `Demuxer` and `DemuxerImpl<T>`. The samples are
-- moved within the mapped buffers, so source and destination are one memory. Addresses count words of T, and
-- the buffers follow one another. `evX.isES` is an argument; what goes to the file es.log is a list.
pub mod Buffers
pub mod Moves
pub mod Loop
pub mod Spread
use acq400drv.Prelude.{
  ℕ, zero, suc, ◌+◌, ◌-◌, ◌*◌, ◌/◌, ◌%◌, ◌^◌, Bool, List, [], ◌∷◌, ◌++◌, Option, none, some, ltb,
  ◌==◌, if◌then◌else◌,
}
use acq400drv.Demux.Dealing.{words_from}

-- `G::nchan`, `G::wordsize`, `G::double_up`, `sizeof(T)`, and the mapping.
pub record Format : Type 0 where
  pub nchan : ℕ
  pub wordsize : ℕ
  pub double_up : Bool
  pub sizeof_t : ℕ
  pub bufferlen : ℕ
  pub first_base : ℕ
  pub ba_lo : ℕ
  pub is_es : (ℕ → ℕ) → Bool

-- `Demuxer::BufferCursor`
pub record BufferCursor : Type 0 where
  pub ibuf : ℕ
  pub base : ℕ
  pub cursor : ℕ

-- What is written to es.log for a signature: where it is in bytes and in samples, and its words.
pub record EsEntry : Type 0 where
  pub at_byte : ℕ
  pub at_sample : ℕ
  pub es_words : List ℕ

pub record Demuxed : Type 0 where
  pub dst : BufferCursor
  pub memory : ℕ → ℕ
  pub esf : List EsEntry

abbrev pub write_word : (ℕ → ℕ) → ℕ → ℕ → ℕ → ℕ
write_word memory at w i = if i == at then w else memory i

module _ (f : Format) where
  -- `getBase` of a buffer
  abbrev pub get_base : ℕ → ℕ
  get_base ibuf = f.first_base + ibuf * (f.bufferlen / f.sizeof_t)

  abbrev pub channel_buffer_bytes : ℕ
  channel_buffer_bytes = f.bufferlen / f.nchan

  abbrev pub channel_buffer_sam : ℕ
  channel_buffer_sam = channel_buffer_bytes / f.sizeof_t

  abbrev pub total_remain_bytes : BufferCursor → ℕ
  total_remain_bytes c = (channel_buffer_bytes - (c.cursor - c.base) * f.sizeof_t) * f.nchan

  -- `BufferCursor::init`
  abbrev pub init_cursor : ℕ → BufferCursor
  init_cursor ibuf = record { ibuf = ibuf; base = get_base ibuf; cursor = get_base ibuf }

  -- The inner loop of `_demux`, for `n` channels from `chan` on.
  pub spread : ℕ → ℕ → ℕ → ℕ → ℕ → (ℕ → ℕ) → ℕ → ℕ
  spread pdst sam psrct chan zero memory = memory
  spread pdst sam psrct chan (suc n) memory =
      let at = pdst + chan * channel_buffer_sam + sam in
      let m1 = write_word memory at (memory psrct) in
      let m2 = write_word m1 (at + 1) (m1 (psrct + 1)) in
      let two = spread pdst sam (psrct + 2) (suc chan) n m2 in
      let one = spread pdst sam (psrct + 1) (suc chan) n m1 in if f.double_up then two else one

  abbrev pub step : ℕ
  step = if f.double_up then 2 else 1

  -- What is logged of a sample.
  abbrev pub log_es : (ℕ → ℕ) → ℕ → List EsEntry → List EsEntry
  log_es memory psrc esf =
      let p1 = (psrc * f.sizeof_t + (2 ^ 32 - f.ba_lo)) % 2 ^ 32 in
      if f.is_es (λ i. memory (psrc + i))
      then esf
        ++ record {
          at_byte = p1;
          at_sample = p1 / (f.nchan * f.sizeof_t);
          es_words = words_from memory psrc f.nchan;
        }
          ∷ []
      else esf

  -- The outer loop of `_demux`, for `n` rounds from `sam` on.
  pub harvest : ℕ → ℕ → ℕ → ℕ → (ℕ → ℕ) × List EsEntry → (ℕ → ℕ) × List EsEntry
  harvest pdst sam psrc zero (memory, esf) = (memory, esf)
  harvest pdst sam psrc (suc n) (memory, esf) =
      harvest pdst (sam + step) (psrc + f.nchan * step) n
        (spread pdst sam psrc 0 f.nchan memory, log_es memory psrc esf)

  -- `DemuxerImpl::_demux`
  pub demux_part : ℕ → ℕ → Demuxed → Demuxed
  demux_part start nbytes d =
      let nsam = nbytes / (f.nchan * f.wordsize) in
      let r = harvest d.dst.cursor 0 start ((nsam + step - 1) / step) (d.memory, d.esf) in
      record { dst = record d.dst { cursor = d.dst.cursor + nsam }; memory = r.0; esf = r.1 }

  -- The loop of `Demuxer::demux`, on fuel.
  pub demux_loop : ℕ → ℕ → ℕ → ℕ → Demuxed → Option (Demuxed × ℕ)
  demux_loop zero startp nbytes rc d = none
  demux_loop (suc fuel) startp nbytes rc d =
      let trb = total_remain_bytes d.dst in
      let d1 = demux_part startp trb d in
      let last = demux_loop fuel startp 0 (rc + nbytes) (demux_part startp nbytes d) in
      let next =
        demux_loop fuel (startp + trb / f.sizeof_t) (nbytes - trb) (rc + trb)
          (record d1 { dst = init_cursor (d.dst.ibuf + 1) }) in
      if nbytes == 0 then some (d, rc) else if ltb nbytes trb then last else next

  -- `Demuxer::demux`; `none` is the failed `assert`. Every round but the last two takes a byte at least.
  pub transpose : ℕ → ℕ → Demuxed → Option (Demuxed × ℕ)
  transpose start nbytes d =
      if nbytes % (f.nchan * f.wordsize) == 0
      then demux_loop (nbytes + 2) start nbytes 0 d
      else none
