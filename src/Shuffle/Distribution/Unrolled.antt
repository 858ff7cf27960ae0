-- ===== src/Shuffle/Distribution/Unrolled.antt =====
-- acq400_stream.cpp, `BufferDistribution::getSegments` for a capture around the corner of the ring:
-- what is copied out is the capture in order of time.
use native.Mathlib.Nat.{add-mul, mul-le-mul_right}
use acq400drv.Prelude.{
  refl, [], ◌∷◌, ◌++◌, if◌then◌else◌, ℕ, ◌+◌, ◌-◌, ◌*◌, ◌<◌, ◌≤◌, ◌≡◌, inl, inr, List, some, arith,
  ap, ◌∙◌,
}
use acq400drv.Shuffle.{Mapping, ba, get_buffer, Buffers, to_end}
use acq400drv.Shuffle.Order.{Corner, cut, source-early, source-late}
use acq400drv.Shuffle.Linear.{Linear, sort_to_linear-Linear}
use acq400drv.Shuffle.Distribution.{
  Segment, Capture, s2b, bd_precorner, bd_postcorner, mode, segments_linear, precorner_start,
  precorner_finish, postcorner_start, postcorner_finish, get_segments, by_mode, sorted_segments,
}
use acq400drv.Shuffle.Distribution.Corners.{
  Mapped, Fits, precorner, postcorner, precorner_rooms, postcorner_rooms, precorner_start_lem,
  precorner_finish_lem, ba_lo-le, ba-get_buffer, get_buffer_mono, ba_first,
}

module _ (mp : Mapping) (lo : ℕ) (m : Mapped mp lo) (mem : ℕ → List ℕ) (esp start finish : ℕ)
    (c : Corner mp esp start finish) (mm : Buffers) (esp' : ℕ)
    (l : Linear mp mem esp start finish c mm esp') where
  -- An event before the corner keeps its distance from the start of the oldest buffer.
  esp_before :
      get_buffer mp finish < get_buffer mp esp → ba mp (get_buffer mp start) + esp' ≡ ba mp 1 + esp
  esp_before h =
      let (k, p, q, e, at) = l.event in
      let ib = get_buffer mp esp in
      let s = get_buffer mp start in
      elim (cut (to_end mp start) k) [
        | inl late ↦
            absurd
              (omega (arith, h, e, q, source-late mp mem esp start finish c k late, c.data_first))
        | inr early ↦
            let sum : k + s ≡ 1 + ib =
              omega (arith, e, p, source-early mp mem esp start finish c k early) in
            omega (
              arith,
              at,
              c.event_after,
              ap (λ v. v * mp.bufferlen) sum,
              add-mul k s mp.bufferlen,
              add-mul 1 ib mp.bufferlen,
            )
      ]

  esp_after :
      get_buffer mp esp < get_buffer mp start
      → ba mp (get_buffer mp mp.ba_lo) + esp' + ba mp (get_buffer mp start)
        ≡ ba mp 1 + ba mp mp.nbuffers + esp
  esp_after h =
      let (k, p, q, e, at) = l.event in
      let ib = get_buffer mp esp in
      let first = get_buffer mp mp.ba_lo in
      let s = get_buffer mp start in
      elim (cut (to_end mp start) k) [
        | inl late ↦
            let sum : k + first + s ≡ 1 + mp.nbuffers + ib =
              omega
                (arith, e, late, c.start_inside, source-late mp mem esp start finish c k late) in
            omega (
              arith,
              at,
              c.event_after,
              ap (λ v. v * mp.bufferlen) sum,
              add-mul (k + first) s mp.bufferlen,
              add-mul k first mp.bufferlen,
              add-mul (1 + mp.nbuffers) ib mp.bufferlen,
              add-mul 1 mp.nbuffers mp.bufferlen,
            )
        | inr early ↦
            absurd (omega (arith, h, e, p, source-early mp mem esp start finish c k early))
      ]

-- What `getSegments` makes of a capture whose oldest part begins at `start`: the buffers are in order of
-- time from buffer 1 on, the event's pointer goes with its data, and the segments are `first`, which begins
-- where `start` has come to, the signature if it is to be shown, and what comes after it.
pub record Unrolled (mp : Mapping) (g : Capture) (mem : ℕ → List ℕ) (esp start finish : ℕ)
    (mm : Buffers) (esp' : ℕ) (segments : List Segment) : Type 0 where
  pub turned : Corner mp esp start finish
  pub linear : Linear mp mem esp start finish turned mm esp'
  pub first : Segment
  pub segments_are :
      segments
      ≡ first ∷ (if g.show_es then record { base = esp'; len = g.es_size } ∷ [] else [])
        ++ record { base = esp' + g.es_size; len = g.post * g.sample_size } ∷ []
  pub begins : ba mp (get_buffer mp start) + first.base ≡ ba mp 1 + start
  pub length : first.len ≡ g.pre * g.sample_size

module _ (mp : Mapping) (lo : ℕ) (m : Mapped mp lo) (g : Capture) (mem : ℕ → List ℕ) (esp : ℕ)
    (f : Fits mp g esp) where
  postcorner_begins :
      (h : mode mp g esp ≡ bd_postcorner) (mm : Buffers) (esp' : ℕ)
      → Linear mp mem esp
          (postcorner_start mp g esp)
          (postcorner_finish mp g esp)
          (postcorner mp lo m g esp f h)
          mm
          esp'
      → ba mp (get_buffer mp (postcorner_start mp g esp)) + (esp' - s2b g g.pre)
        ≡ ba mp 1 + postcorner_start mp g esp
  postcorner_begins h mm esp' l =
      let c = postcorner mp lo m g esp f h in
      let pa : s2b g g.pre ≤ s2b g f.before =
        mul-le-mul_right {m = g.pre} {n = f.before} g.sample_size
          (postcorner_rooms mp lo m g esp f h).0 in
      let low : mp.ba0 ≤ postcorner_start mp g esp =
        omega (arith, pa, f.from_low, ba_lo-le mp lo m g esp f) in
      let rise =
        get_buffer_mono mp lo m (postcorner_start mp g esp) esp low (omega arith)
          (omega (arith, f.to_high)) in
      omega (
        arith,
        pa,
        f.from_low,
        esp_before mp lo m mem esp _ _ c mm esp' l (omega (arith, rise, c.apart)),
        (ba-get_buffer mp lo m (postcorner_start mp g esp) low (omega (arith, f.to_high))).0,
      )

  precorner_begins :
      (h : mode mp g esp ≡ bd_precorner) (mm : Buffers) (esp' : ℕ)
      → Linear mp mem esp
          (precorner_start mp g esp)
          (precorner_finish mp g esp)
          (precorner mp lo m g esp f h)
          mm
          esp'
      → ba mp (get_buffer mp (precorner_start mp g esp)) + (esp' - s2b g g.pre)
        ≡ ba mp 1 + precorner_start mp g esp
  precorner_begins h mm esp' l =
      let c = precorner mp lo m g esp f h in
      let (a, b) = precorner_rooms mp lo m g esp f h in
      let pa : s2b g f.before ≤ s2b g g.pre =
        mul-le-mul_right {m = f.before} {n = g.pre} g.sample_size (omega (arith, a)) in
      let pb : s2b g g.post ≤ s2b g f.after =
        mul-le-mul_right {m = g.post} {n = f.after} g.sample_size b in
      let above = ba_lo-le mp lo m g esp f in
      let start = precorner_start_lem mp lo m g esp f a in
      let finish = precorner_finish_lem mp lo m g esp f in
      let low : mp.ba0 ≤ precorner_start mp g esp =
        omega (arith, start, f.room, f.from_low, f.to_high, above) in
      let rise =
        get_buffer_mono mp lo m esp (precorner_finish mp g esp) (omega (arith, f.from_low, above))
          (omega (arith, finish)) (omega (arith, finish, pb, f.to_high)) in
      omega (
        arith,
        pa,
        f.from_low,
        f.to_high,
        f.room,
        start,
        m.high,
        esp_after mp lo m mem esp _ _ c mm esp' l (omega (arith, rise, c.apart)),
        ba_first mp lo m (omega (arith, f.from_low, f.to_high)),
        (ba-get_buffer mp lo m (precorner_start mp g esp) low (omega (arith, start))).0,
      )

  -- An event before the corner, at a whole number of samples from both ends of the data and not at the
  -- very end, with at least one buffer reserved below the data, with room in it for the capture and one buffer
  -- more, and one buffer for all channels: `getSegments` does not fail, buffer by buffer from 1 on the
  -- memory is in order of time, the event's pointer has gone with its data, and the first segment
  -- has the length of `pre` and begins where the oldest sample has come to, and the last one, of the
  -- length of `post`, begins after the signature.
  pub get_segments-postcorner :
      mode mp g esp ≡ bd_postcorner
      → (mm : Buffers) × (segments : List Segment) × (esp' : ℕ) × (get_segments mp g mem 1 esp
          ≡ some (mm, segments))
        × Unrolled mp g mem esp
            (postcorner_start mp g esp)
            (postcorner_finish mp g esp)
            mm
            esp'
            segments
  unfolding get_segments segments_linear
  get_segments-postcorner h =
      let c = postcorner mp lo m g esp f h in
      let (r, runs, l) = sort_to_linear-Linear mp mem esp _ _ c in
      (
        r.0,
        segments_linear mp g 1 r.1,
        r.1,
        ap (by_mode mp g mem 1 esp) h ∙ ap (sorted_segments mp g 1) runs,
        record {
          turned = c;
          linear = l;
          first = record { base = r.1 - s2b g g.pre; len = s2b g g.pre };
          segments_are = refl;
          begins = postcorner_begins h r.0 r.1 l;
          length = refl;
        },
      )

  -- An event after the corner, where the samples before it run back over the start of the ring, under the
  -- same conditions: `getSegments` does not fail, buffer by buffer from 1 on the memory is in order of time,
  -- the event's pointer has gone with its data, and the first segment has the length
  -- of `pre` and begins where the oldest sample, near the end of the ring, has come to, and the last one,
  -- of the length of `post`, begins after the signature.
  pub get_segments-precorner :
      mode mp g esp ≡ bd_precorner
      → (mm : Buffers) × (segments : List Segment) × (esp' : ℕ) × (get_segments mp g mem 1 esp
          ≡ some (mm, segments))
        × Unrolled mp g mem esp
            (precorner_start mp g esp)
            (precorner_finish mp g esp)
            mm
            esp'
            segments
  unfolding get_segments segments_linear
  get_segments-precorner h =
      let c = precorner mp lo m g esp f h in
      let (r, runs, l) = sort_to_linear-Linear mp mem esp _ _ c in
      (
        r.0,
        segments_linear mp g 1 r.1,
        r.1,
        ap (by_mode mp g mem 1 esp) h ∙ ap (sorted_segments mp g 1) runs,
        record {
          turned = c;
          linear = l;
          first = record { base = r.1 - s2b g g.pre; len = s2b g g.pre };
          segments_are = refl;
          begins = precorner_begins h r.0 r.1 l;
          length = refl;
        },
      )
