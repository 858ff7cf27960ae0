-- ===== src/Shuffle/Distribution.antt =====
-- acq400_stream.cpp, `BufferDistribution`: where a capture lies around the corner of the ring, and the
-- segments that are copied out. Sizes are below 2 GB. `dist.esp` is the event's address.
pub mod Corners
pub mod Unrolled
use acq400drv.Prelude.{
  ℕ, ◌+◌, ◌-◌, ◌*◌, ◌/◌, Bool, not, ◌&&◌, List, [], ◌∷◌, ◌++◌, Option, none, some, ltb, leb, ◌==◌,
  if◌then◌else◌,
}
use acq400drv.Shuffle.{Mapping, ba, get_buffer, Buffers, unlabelled, sort_to_linear}

-- The settings of the capture, `G::pre` and `G::post` in samples, and the sizes that `sample_size` and
-- `es_size` give.
pub record Capture : Type 0 where
  pub pre : ℕ
  pub post : ℕ
  pub sample_size : ℕ
  pub es_size : ℕ
  pub show_es : Bool

-- `s2b` and `b2s`
abbrev pub s2b : Capture → ℕ → ℕ
s2b g samples = samples * g.sample_size

abbrev pub b2s : Capture → ℕ → ℕ
b2s g bytes = bytes / g.sample_size

pub record Segment : Type 0 where
  pub base : ℕ
  pub len : ℕ

pub data BdMode : Type 0 where
  bd_error bd_linear bd_precorner bd_postcorner : BdMode

module _ (mp : Mapping) (g : Capture) where
  abbrev pub tailroom : ℕ → ℕ
  tailroom esp = b2s g (esp - mp.ba_lo)

  abbrev pub headroom : ℕ → ℕ
  headroom esp = b2s g (mp.ba_hi - esp)

  abbrev pub pre_fits : ℕ → Bool
  pre_fits esp = leb g.pre (tailroom esp)

  abbrev pub post_fits : ℕ → Bool
  post_fits esp = leb g.post (headroom esp)

  -- `BufferDistribution::mode`
  unfoldable pub mode : ℕ → BdMode
  mode esp =
      if pre_fits esp && post_fits esp
      then bd_linear
      else if not (pre_fits esp) && not (post_fits esp)
      then bd_error
      else if not (pre_fits esp)
      then bd_precorner
      else bd_postcorner

  -- How far `getSegmentsLinear` winds back with the channels split over two buffers.
  pub wind_back : ℕ → ℕ
  wind_back esp =
      let prebytes = s2b g g.pre in
      let offbytes = esp - ba mp (get_buffer mp esp) in
      let bbbs = prebytes - offbytes / 2 in
      let nb = bbbs / mp.bufferlen in
      let residue = bbbs - nb * mp.bufferlen in
      if ltb offbytes (prebytes / 2)
      then offbytes + (nb + 2) * mp.bufferlen + (mp.bufferlen - residue / 2)
      else prebytes / 2

  -- `BufferDistribution::getSegmentsLinear`
  pub segments_linear : ℕ → ℕ → List Segment
  segments_linear bd_scale esp =
      let prebytes = s2b g g.pre in
      let esp_decr = if bd_scale == 2 then wind_back esp else prebytes in
      record { base = esp - esp_decr; len = prebytes }
        ∷ (if g.show_es then record { base = esp; len = g.es_size } ∷ [] else [])
      ++ record { base = esp + g.es_size; len = s2b g g.post } ∷ []

  -- The bounds that `getSegmentsPrecorner` and `getSegmentsPostcorner` sort between.
  abbrev pub precorner_start : ℕ → ℕ
  precorner_start esp = mp.ba_hi - s2b g (g.pre - tailroom esp)

  abbrev pub precorner_finish : ℕ → ℕ
  precorner_finish esp = mp.ba_lo + s2b g (tailroom esp) + s2b g g.post

  abbrev pub postcorner_start : ℕ → ℕ
  postcorner_start esp = esp - s2b g g.pre

  abbrev pub postcorner_finish : ℕ → ℕ
  postcorner_finish esp = mp.ba_lo + s2b g (g.post - headroom esp)

  -- `sortToLinearBuffer` and the segments of what it made.
  abbrev pub sorted_segments : ℕ → Option (Buffers × ℕ) → Option (Buffers × List Segment)
  sorted_segments bd_scale none = none
  sorted_segments bd_scale (some (mm, esp)) = some (mm, segments_linear bd_scale esp)

  abbrev pub by_mode : (ℕ → List ℕ) → ℕ → ℕ → BdMode → Option (Buffers × List Segment)
  by_mode mem bd_scale esp bd_linear = some (unlabelled mem, segments_linear bd_scale esp)
  by_mode mem bd_scale esp bd_precorner =
      sorted_segments bd_scale
        (sort_to_linear mp mem esp (precorner_start esp) (precorner_finish esp))
  by_mode mem bd_scale esp bd_postcorner =
      sorted_segments bd_scale
        (sort_to_linear mp mem esp (postcorner_start esp) (postcorner_finish esp))
  by_mode mem bd_scale esp bd_error = none

  -- `BufferDistribution::getSegments`, with the buffers that it leaves.
  pub get_segments : (ℕ → List ℕ) → ℕ → ℕ → Option (Buffers × List Segment)
  get_segments mem bd_scale esp = by_mode mem bd_scale esp (mode esp)
