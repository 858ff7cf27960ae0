-- ===== src/Shuffle/Distribution/Corners.antt =====
-- acq400_stream.cpp, `BufferDistribution::getSegments` for a capture around the corner of the ring.
use native.Mathlib.Nat.{
  div-mul-le_self, lt-div-mul-add, div-lt_iff_lt-mul, mul-le-mul_right, mul-div_cancel, add-mul,
  suc-mul,
}
use acq400drv.Prelude.{
  ℕ, suc, ◌+◌, ◌-◌, ◌*◌, ◌/◌, ◌<◌, ◌≤◌, ◌≡◌, ◌⊎◌, inl, inr, arith, ap, sym, subst, ◌∙◌,
}
use acq400drv.Shuffle.{Mapping, ba, get_buffer}
use acq400drv.Shuffle.Order.{Corner, cut}
use acq400drv.Shuffle.Distribution.{
  Capture, s2b, bd_precorner, bd_postcorner, tailroom, headroom, mode, precorner_start,
  precorner_finish, postcorner_start, postcorner_finish,
}

-- The mapping as `MapBuffer` makes it, with whole buffers reserved below the data.
pub record Mapped (mp : Mapping) (lo : ℕ) : Type 0 where
  pub based : 0 < mp.ba0
  pub some_length : 0 < mp.bufferlen
  pub reserved : 0 < lo
  pub low : mp.ba_lo ≡ ba mp lo
  pub high : mp.ba_hi ≡ ba mp mp.nbuffers

pub diff-mul : (a b c : ℕ) → b ≤ a → (a - b) * c ≡ a * c - b * c
diff-mul a b c h =
    let whole : b + (a - b) ≡ a = omega (arith, h) in
    omega (arith, add-mul b (a - b) c, ap (λ v. v * c) whole)

module _ (mp : Mapping) (lo : ℕ) (m : Mapped mp lo) where
  get_buffer_lem :
      (p : ℕ) → mp.ba0 ≤ p → p ≤ mp.ba_hi → get_buffer mp p ≡ (p - mp.ba0) / mp.bufferlen
  unfolding get_buffer
  get_buffer_lem p a b = ground arith

  pub ba-get_buffer :
      (p : ℕ)
      → mp.ba0 ≤ p
      → p ≤ mp.ba_hi
      → (ba mp (get_buffer mp p) ≤ p) × (p < ba mp (get_buffer mp p) + mp.bufferlen)
  ba-get_buffer p a b = rw (get_buffer_lem p a b) (
    omega (arith, a, div-mul-le_self (p - mp.ba0) mp.bufferlen),
    omega (arith, a, lt-div-mul-add {a = p - mp.ba0} {b = mp.bufferlen} m.some_length),
  )

  get_buffer-le : (i p : ℕ) → mp.ba0 ≤ p → p ≤ mp.ba_hi → ba mp i ≤ p → i ≤ get_buffer mp p
  get_buffer-le i p a b h = elim (cut (get_buffer mp p) i) [
    | inl l ↦ absurd (
        omega (
          arith,
          a,
          h,
          (div-lt_iff_lt-mul {k = mp.bufferlen} {x = p - mp.ba0} {y = i} m.some_length).0
              (subst (λ v. v < i) (get_buffer_lem p a b) l),
        ))
    | inr l ↦ l
  ]

  get_buffer-lt : (i p : ℕ) → mp.ba0 ≤ p → p ≤ mp.ba_hi → p < ba mp i → get_buffer mp p < i
  get_buffer-lt i p a b h =
      subst (λ v. v < i) (sym (get_buffer_lem p a b))
        ((div-lt_iff_lt-mul {k = mp.bufferlen} {x = p - mp.ba0} {y = i} m.some_length).1
          (omega (arith, a, h)))

  pub get_buffer_mono :
      (p q : ℕ) → mp.ba0 ≤ p → p ≤ q → q ≤ mp.ba_hi → get_buffer mp p ≤ get_buffer mp q
  get_buffer_mono p q a b d =
      get_buffer-le (get_buffer mp p) q (omega (arith, a, b)) d
        (omega (arith, b, (ba-get_buffer p a (omega (arith, b, d))).0))

  get_buffer-apart :
      (p q : ℕ)
      → mp.ba0 ≤ p
      → p + mp.bufferlen ≤ q
      → q ≤ mp.ba_hi
      → get_buffer mp p < get_buffer mp q
  get_buffer-apart p q a b d = get_buffer-le (suc (get_buffer mp p)) q (omega (arith, a, b)) d (
      omega (
        arith,
        b,
        (ba-get_buffer p a (omega (arith, b, d))).0,
        suc-mul (get_buffer mp p) mp.bufferlen,
      ))

  pub ba_first : mp.ba_lo ≤ mp.ba_hi → ba mp (get_buffer mp mp.ba_lo) ≡ mp.ba_lo
  ba_first h = omega (
    arith,
    m.low,
    (ba-get_buffer mp.ba_lo (omega (arith, m.low)) h).0,
    mul-le-mul_right {m = lo} {n = get_buffer mp mp.ba_lo} mp.bufferlen
        (get_buffer-le lo mp.ba_lo (omega (arith, m.low)) h (omega (arith, m.low))),
  )

  -- From two addresses in the data, the newest part below the oldest, the corner that the sort expects.
  corner :
      (esp start finish : ℕ)
      → mp.ba_lo ≤ finish
      → finish ≤ mp.ba_hi
      → mp.ba0 ≤ start
      → start < mp.ba_hi
      → get_buffer mp finish < get_buffer mp start
      → ((mp.ba_lo ≤ esp) × (esp ≤ finish)) ⊎ ((start ≤ esp) × (esp < mp.ba_hi))
      → Corner mp esp start finish
  corner esp start finish a b d e apart inside = record {
    based = m.based;
    reserved = omega (
      arith,
      m.reserved,
      get_buffer-le lo mp.ba_lo (omega (arith, m.low)) (omega (arith, a, b)) (omega (arith, m.low)),
    );
    data_first = get_buffer_mono mp.ba_lo finish (omega (arith, m.low)) a b;
    apart = apart;
    start_inside = get_buffer-lt mp.nbuffers start d (omega (arith, e)) (omega (arith, e, m.high));
    event_after =
        (ba-get_buffer esp (omega (arith, m.low, d, inside)) (omega (arith, b, inside))).0;
    event_inside = elim inside [
      | inl (x, y) ↦ inl (
        get_buffer_mono mp.ba_lo esp (omega (arith, m.low)) x (omega (arith, y, b)),
        get_buffer_mono esp finish (omega (arith, m.low, x)) y b,
      )
      | inr (x, y) ↦ inr (
        get_buffer_mono start esp d x (omega (arith, y)),
        get_buffer-lt mp.nbuffers esp (omega (arith, d, x)) (omega (arith, y))
            (omega (arith, y, m.high)),
      )
    ];
  }

-- The event is whole samples from both ends of the data, and the capture leaves a buffer free.
pub record Fits (mp : Mapping) (g : Capture) (esp : ℕ) : Type 0 where
  pub before : ℕ
  pub after : ℕ
  pub some_sample : 0 < g.sample_size
  pub from_low : esp ≡ mp.ba_lo + s2b g before
  pub to_high : mp.ba_hi ≡ esp + s2b g after
  pub not_last : 0 < after
  pub room : s2b g g.pre + s2b g g.post + mp.bufferlen ≤ mp.ba_hi - mp.ba_lo

module _ (mp : Mapping) (lo : ℕ) (m : Mapped mp lo) (g : Capture) (esp : ℕ)
    (f : Fits mp g esp) where
  tailroom_lem : tailroom mp g esp ≡ f.before
  tailroom_lem =
      ap (λ v. v / g.sample_size) (omega (arith, f.from_low))
      ∙ mul-div_cancel f.before f.some_sample

  headroom_lem : headroom mp g esp ≡ f.after
  headroom_lem =
      ap (λ v. v / g.sample_size) (omega (arith, f.to_high)) ∙ mul-div_cancel f.after f.some_sample

  pub precorner_rooms : mode mp g esp ≡ bd_precorner → (f.before < g.pre) × (g.post ≤ f.after)
  unfolding mode
  precorner_rooms h = ground (arith, tailroom_lem, headroom_lem)

  pub postcorner_rooms : mode mp g esp ≡ bd_postcorner → (g.pre ≤ f.before) × (f.after < g.post)
  unfolding mode
  postcorner_rooms h = ground (arith, tailroom_lem, headroom_lem)

  -- The bounds in bytes.
  pub precorner_start_lem :
      f.before < g.pre → precorner_start mp g esp ≡ mp.ba_hi - (s2b g g.pre - s2b g f.before)
  precorner_start_lem h =
      rw tailroom_lem
        (ap (λ v. mp.ba_hi - v) (diff-mul g.pre f.before g.sample_size (omega (arith, h))))

  pub precorner_finish_lem : precorner_finish mp g esp ≡ esp + s2b g g.post
  precorner_finish_lem = rw tailroom_lem (omega (arith, f.from_low))

  pub postcorner_finish_lem :
      f.after < g.post → postcorner_finish mp g esp ≡ mp.ba_lo + (s2b g g.post - s2b g f.after)
  postcorner_finish_lem h =
      rw headroom_lem
        (ap (λ v. mp.ba_lo + v) (diff-mul g.post f.after g.sample_size (omega (arith, h))))

  not_last_byte : g.sample_size ≤ s2b g f.after
  not_last_byte = omega (arith, mul-le-mul_right {m = 1} {n = f.after} g.sample_size f.not_last)

  pub ba_lo-le : mp.ba0 ≤ mp.ba_lo
  ba_lo-le = omega (arith, m.low)

  corner_of :
      (start finish : ℕ)
      → start < mp.ba_hi
      → finish + mp.bufferlen ≤ start
      → mp.ba_lo ≤ finish
      → (esp ≤ finish) ⊎ (start ≤ esp)
      → Corner mp esp start finish
  corner_of start finish e apart a inside =
      corner mp lo m esp start finish a (omega (arith, e, apart))
        (omega (arith, a, apart, ba_lo-le)) e
        (get_buffer-apart mp lo m finish start (omega (arith, a, ba_lo-le)) apart
          (omega (arith, e)))
        (elim inside [
          | inl x ↦ inl (omega (arith, f.from_low), x)
          | inr x ↦ inr (x, omega (arith, f.to_high, not_last_byte, f.some_sample))
        ])

  pub precorner :
      mode mp g esp ≡ bd_precorner
      → Corner mp esp (precorner_start mp g esp) (precorner_finish mp g esp)
  precorner h =
      let (a, b) = precorner_rooms h in
      let pa : s2b g (suc f.before) ≤ s2b g g.pre =
        mul-le-mul_right {m = suc f.before} {n = g.pre} g.sample_size a in
      let pb : s2b g g.post ≤ s2b g f.after =
        mul-le-mul_right {m = g.post} {n = f.after} g.sample_size b in
      let more : s2b g (suc f.before) ≡ s2b g f.before + g.sample_size =
        suc-mul f.before g.sample_size in
      corner_of (precorner_start mp g esp) (precorner_finish mp g esp)
        (omega
          (arith, precorner_start_lem a, pa, more, f.some_sample, f.room, f.from_low, f.to_high))
        (omega (
          arith,
          precorner_start_lem a,
          precorner_finish_lem,
          pa,
          more,
          f.room,
          f.from_low,
          f.to_high,
        ))
        (omega (arith, precorner_finish_lem, f.from_low))
        (inl (omega (arith, precorner_finish_lem, f.from_low)))

  pub postcorner :
      mode mp g esp ≡ bd_postcorner
      → Corner mp esp (postcorner_start mp g esp) (postcorner_finish mp g esp)
  postcorner h =
      let (a, b) = postcorner_rooms h in
      let pa : s2b g g.pre ≤ s2b g f.before =
        mul-le-mul_right {m = g.pre} {n = f.before} g.sample_size a in
      let pb : s2b g f.after ≤ s2b g g.post =
        mul-le-mul_right {m = f.after} {n = g.post} g.sample_size (omega (arith, b)) in
      corner_of (postcorner_start mp g esp) (postcorner_finish mp g esp)
        (omega (arith, f.to_high, not_last_byte, f.some_sample))
        (omega (arith, postcorner_finish_lem b, pa, pb, f.room, f.from_low, f.to_high))
        (omega (arith, postcorner_finish_lem b)) (inr (omega arith))
