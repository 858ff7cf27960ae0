-- ===== src/Examples/Transients.antt =====
-- A ring of eight buffers of four bytes, and a capture of ten samples before and twenty after an event.
use acq400drv.Prelude.{
  ℕ, ◌<◌, ◌≤◌, ◌≡◌, ◌⊎◌, Bool, true, false, List, [], ◌∷◌, some, length, refl, arith,
}
use acq400drv.Shuffle.{Mapping, Buffers, sort_to_linear}
use acq400drv.Shuffle.Linear.{Linear, sort_to_linear-Linear}
use acq400drv.Shuffle.Distribution.{
  Capture, Segment, get_segments, precorner_start, precorner_finish, postcorner_start,
  postcorner_finish, mode, bd_precorner, bd_postcorner,
}
use acq400drv.Shuffle.Distribution.Corners.{Mapped, Fits, postcorner}
use acq400drv.Shuffle.Distribution.Unrolled.{
  Unrolled, get_segments-postcorner, get_segments-precorner,
}
use acq400drv.PrePost.{Settings, Core, goes_on, returns, stream_core, armed}
use acq400drv.PrePost.Capture.{Sizes, RoundSound, Complete, stream_core-Sound}
use acq400drv.PrePost.Completes.{buffers, post_buffers, stream_core-answers}

abbrev ring : Mapping
ring = record { ba0 = 4096; ba_lo = 4104; ba_hi = 4128; bufferlen = 4; nbuffers = 8 }

ring-Mapped : Mapped ring 2
ring-Mapped = record {
  based = omega arith;
  some_length = omega arith;
  reserved = omega arith;
  low = refl;
  high = refl;
}

abbrev around : Capture
around = record { pre = 8; post = 6; sample_size = 1; es_size = 1; show_es = true }

-- Four bytes before the end of the ring, and four after its start.
abbrev late : ℕ
late = 4124

abbrev early : ℕ
early = 4108

late-Fits : Fits ring around late
late-Fits = record {
  before = 20;
  after = 4;
  some_sample = omega arith;
  from_low = refl;
  to_high = refl;
  not_last = omega arith;
  room = omega arith;
}

early-Fits : Fits ring around early
early-Fits = record {
  before = 4;
  after = 20;
  some_sample = omega arith;
  from_low = refl;
  to_high = refl;
  not_last = omega arith;
  room = omega arith;
}

late_lem : mode ring around late ≡ bd_postcorner
unfolding mode
late_lem = refl

early_lem : mode ring around early ≡ bd_precorner
unfolding mode
early_lem = refl

abbrev contents : ℕ → List ℕ
contents ib = ib ∷ ib ∷ ib ∷ ib ∷ []

sort_to_linear-Linear_example :
    (r : Buffers × ℕ) × (sort_to_linear ring contents late 4116 4106 ≡ some r)
    × Linear ring contents late 4116 4106
        (postcorner ring 2 ring-Mapped around late late-Fits late_lem)
        r.0
        r.1
sort_to_linear-Linear_example =
    sort_to_linear-Linear ring contents late 4116 4106
      (postcorner ring 2 ring-Mapped around late late-Fits late_lem)

get_segments-postcorner_example :
    (mm : Buffers) × (segments : List Segment) × (esp : ℕ) × (get_segments ring around contents 1
        late
      ≡ some (mm, segments))
    × Unrolled ring around contents late
        (postcorner_start ring around late)
        (postcorner_finish ring around late)
        mm
        esp
        segments
get_segments-postcorner_example =
    get_segments-postcorner ring 2 ring-Mapped around contents late late-Fits late_lem

get_segments-precorner_example :
    (mm : Buffers) × (segments : List Segment) × (esp : ℕ) × (get_segments ring around contents 1
        early
      ≡ some (mm, segments))
    × Unrolled ring around contents early
        (precorner_start ring around early)
        (precorner_finish ring around early)
        mm
        esp
        segments
get_segments-precorner_example =
    get_segments-precorner ring 2 ring-Mapped around contents early early-Fits early_lem

abbrev shot : Settings
shot = record { pre = 10; post = 20; samples_buffer = 8; corner_turn_delay = 1 }

shot-Sizes : Sizes shot
shot-Sizes = record { some_samples = omega arith; pre_fits = omega arith; post_fits = omega arith }

stream_core-Sound_example :
    RoundSound shot (stream_core shot armed (true ∷ false ∷ false ∷ true ∷ []))
stream_core-Sound_example = stream_core-Sound shot shot-Sizes (true ∷ false ∷ false ∷ true ∷ [])

-- An event at the first buffer does not count.
abbrev too_early : List Bool
too_early = true ∷ false ∷ false ∷ []

abbrev five : List Bool
five = false ∷ false ∷ true ∷ false ∷ false ∷ []

stream_core-answers_example :
    ((post_buffers shot ≤ length five)
      × ((c : Core) × (stream_core shot armed (buffers too_early 2 five) ≡ returns c)
          × Complete shot c))
    ⊎ ((length five < post_buffers shot)
        × ((c : Core) × (stream_core shot armed (buffers too_early 2 five) ≡ goes_on c)))
stream_core-answers_example =
    stream_core-answers shot too_early 2 five shot-Sizes (omega arith) refl
