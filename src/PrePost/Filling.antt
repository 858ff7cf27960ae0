-- ===== src/PrePost/Filling.antt =====
-- acq400_stream.cpp, `StreamHeadPrePost::streamCore`: the buffers up to the one at which the event is heard.
use native.Mathlib.Nat.{div-mul-le_self, lt-div-mul-add, suc-mul, mul-le-mul_right}
use acq400drv.Prelude.{
  ℕ, zero, suc, ◌+◌, ◌-◌, ◌*◌, ◌/◌, ◌%◌, ◌^◌, ◌<◌, ◌≤◌, ◌≡◌, ◌⊎◌, inl, inr, Bool, true, false, List,
  [], ◌∷◌, ◌++◌, length, replicate, refl, arith, ap, ◌∙◌,
}
use acq400drv.PrePost.{
  st_arm, st_run_pre, st_run_post, Settings, Core, goes_on, hear, arm, next_pre, run_pre, elapse,
  dispatch, round, stream_core, armed,
}
use acq400drv.PrePost.Capture.{Sizes}

-- The buffers that the samples before the event fill, the last one in part.
abbrev pub fill_buffers : Settings → ℕ
fill_buffers s = (s.pre + s.samples_buffer - 1) / s.samples_buffer

pub stream_core-goes_on :
    (s : Settings) (c c1 : Core) (heard : Bool) (hs : List Bool)
    → round s heard c ≡ goes_on c1
    → stream_core s c (heard ∷ hs) ≡ stream_core s c1 hs
unfolding stream_core
stream_core-goes_on s c c1 heard hs e = rw (e, stream_core) refl

pub cut : (a b : ℕ) → (a < b) ⊎ (b ≤ a)
cut a b = omega arith

fill_cases : (n : ℕ) → (n ≡ 0) ⊎ (0 < n)
fill_cases n = omega arith

-- Before the event: after `i` rounds, from the start.
pub record Filling (s : Settings) (i : ℕ) (c : Core) : Type 0 where
  pub state : (c.state ≡ st_run_pre) ⊎ ((c.state ≡ st_arm) × (i ≡ 0))
  pub pre :
      ((i < fill_buffers s) × (c.pre ≡ i * s.samples_buffer))
      ⊎ ((fill_buffers s ≤ i) × (c.pre ≡ s.pre))
  pub over : c.buffers_over_pre ≡ i + 1 - fill_buffers s
  pub deaf : c.event_received ≡ false
  pub accepts : (c.accepting_events ≡ false) ⊎ (fill_buffers s + s.corner_turn_delay ≤ i)
  pub accepts_then : fill_buffers s + s.corner_turn_delay ≤ i → c.accepting_events ≡ true
  pub post : c.post ≡ 0
  pub overrun : c.post_run_over_one ≡ 0

-- After the event: `k` rounds before a buffer has samples over, and `over` such buffers have come.
pub record Posting (s : Settings) (k over : ℕ) (c : Core) : Type 0 where
  pub state : c.state ≡ st_run_post
  pub pre : c.pre ≡ s.pre
  pub triggered : (s.pre ≡ 0) ⊎ (c.event_received ≡ true)
  pub overrun : c.post_run_over_one ≡ over
  pub within :
      ((over ≡ 0)
        × (c.post + k * s.samples_buffer ≤ s.post)
        × (s.post < c.post + k * s.samples_buffer + s.samples_buffer))
      ⊎ ((k ≡ 0) × (c.post ≡ s.post))

module _ (s : Settings) (z : Sizes s) (some_pre : 0 < s.pre) where
  fill_enough : s.pre ≤ fill_buffers s * s.samples_buffer
  fill_enough = omega (
    arith,
    some_pre,
    z.some_samples,
    lt-div-mul-add {a = s.pre + s.samples_buffer - 1} {b = s.samples_buffer} z.some_samples,
  )

  fill_needed : fill_buffers s * s.samples_buffer < s.pre + s.samples_buffer
  fill_needed =
      omega (arith, z.some_samples, div-mul-le_self (s.pre + s.samples_buffer - 1) s.samples_buffer)

  fill_below : (i : ℕ) → suc i < fill_buffers s → i * s.samples_buffer + s.samples_buffer < s.pre
  fill_below i h = omega (
    arith,
    fill_needed,
    suc-mul i s.samples_buffer,
    suc-mul (suc i) s.samples_buffer,
    mul-le-mul_right {m = suc (suc i)} {n = fill_buffers s} s.samples_buffer h,
  )

  fill_partial : (i : ℕ) → i < fill_buffers s → i * s.samples_buffer < s.pre
  fill_partial i h = omega (
    arith,
    fill_needed,
    suc-mul i s.samples_buffer,
    mul-le-mul_right {m = suc i} {n = fill_buffers s} s.samples_buffer h,
  )

  fill_above : (i : ℕ) → fill_buffers s ≤ suc i → s.pre ≤ i * s.samples_buffer + s.samples_buffer
  fill_above i h = omega (
    arith,
    fill_enough,
    suc-mul i s.samples_buffer,
    mul-le-mul_right {m = fill_buffers s} {n = suc i} s.samples_buffer h,
  )

  fill_some : 0 < fill_buffers s
  fill_some = elim (fill_cases (fill_buffers s)) [
    | inl e ↦ absurd (omega (arith, fill_enough, ap (λ v. v * s.samples_buffer) e, some_pre))
    | inr h ↦ h
  ]

  pub armed-Filling : Filling s 0 armed
  armed-Filling = record {
    state = inr (refl, refl);
    pre = inl (fill_some, omega arith);
    over = omega (arith, fill_some);
    deaf = refl;
    accepts = inl refl;
    accepts_then = λ h. absurd (omega (arith, h, fill_some));
    post = refl;
    overrun = refl;
  }

  -- What the first `switch` leaves.
  prepared : Bool → Core → Core
  prepared heard c = arm s (hear heard c) c.state

  prepared-Filling :
      (heard : Bool) (i : ℕ) (c : Core)
      → Filling s i c
      → (heard ≡ false) ⊎ (i < fill_buffers s + s.corner_turn_delay)
      → Filling s i (prepared heard c) × ((prepared heard c).state ≡ st_run_pre)
  unfolding prepared arm hear
  prepared-Filling heard i c f quiet = ground (arith, some_pre)

  abbrev Filled : ℕ → ℕ → Type 0
  Filled i pre =
      ((i < fill_buffers s) × (pre ≡ i * s.samples_buffer)) ⊎ ((fill_buffers s ≤ i) × (pre ≡ s.pre))

  next_pre-Filled : (i pre : ℕ) → Filled i pre → Filled (suc i) (next_pre s pre)
  unfolding next_pre
  next_pre-Filled i pre (inl (h, e)) = elim (cut (suc i) (fill_buffers s)) [
    | inl l ↦ inl (l, grind (arith, fill_below i l, suc-mul i s.samples_buffer, z.pre_fits, h, e))
    | inr l ↦ inr (l, ground (arith, fill_above i l, fill_partial i h, z.pre_fits, e))
  ]
  next_pre-Filled i pre (inr (h, e)) = inr (omega (arith, h), ground arith)

  run_pre-Filling :
      (i : ℕ) (c : Core) → Filling s i c → c.state ≡ st_run_pre → Filling s (suc i) (run_pre s c)
  unfolding run_pre
  run_pre-Filling i c f e =
      ground (arith, next_pre-Filled i c.pre f.pre, fill_partial (suc i), fill_some)

  elapsed-Filling : (i n : ℕ) (c : Core) → Filling s i c → Filling s i (record c { elapsed = n })
  elapsed-Filling i n c f = record {
    state = f.state;
    pre = f.pre;
    over = f.over;
    deaf = f.deaf;
    accepts = f.accepts;
    accepts_then = f.accepts_then;
    post = f.post;
    overrun = f.overrun;
  }

  -- A round that does not hear an event that counts.
  fill_round :
      (heard : Bool) (i : ℕ) (c : Core)
      → Filling s i c
      → (heard ≡ false) ⊎ (i < fill_buffers s + s.corner_turn_delay)
      → (c1 : Core) × (round s heard c ≡ goes_on c1) × Filling s (suc i) c1
  unfolding round dispatch elapse prepared
  fill_round heard i c f quiet =
      let (g, e) = prepared-Filling heard i c f quiet in
      let c1 = run_pre s (prepared heard c) in
      let n = (c1.elapsed + s.samples_buffer) % 2 ^ 64 in
      (
        record c1 { elapsed = n },
        ap (dispatch s (prepared heard c)) e,
        elapsed-Filling (suc i) n c1 (run_pre-Filling i (prepared heard c) g e),
      )

  -- The rounds before an event can count, whatever is heard.
  pub fill_early :
      (early : List Bool) (i j : ℕ) (c : Core) (hs : List Bool)
      → Filling s i c
      → j ≡ i + length early
      → j ≤ fill_buffers s + s.corner_turn_delay
      → (c1 : Core) × (stream_core s c (early ++ hs) ≡ stream_core s c1 hs) × Filling s j c1
  fill_early [] i j c hs f e h = let at : j ≡ i = omega (arith, e) in (c, refl, rw at f)
  fill_early (heard ∷ early) i j c hs f e h =
      let (c1, e1, g) = fill_round heard i c f (inr (omega (arith, e, h))) in
      let (c2, e2, g2) = fill_early early (suc i) j c1 hs g (omega (arith, e)) h in
      (c2, stream_core-goes_on s c c1 heard (early ++ hs) e1 ∙ e2, g2)

  -- The rounds at which nothing is heard.
  pub fill_quiet :
      (n i j : ℕ) (c : Core) (hs : List Bool)
      → Filling s i c
      → j ≡ i + n
      → (c1 : Core) × (stream_core s c (replicate n false ++ hs) ≡ stream_core s c1 hs)
        × Filling s j c1
  fill_quiet zero i j c hs f e = let at : j ≡ i = omega (arith, e) in (c, refl, rw at f)
  fill_quiet (suc n) i j c hs f e =
      let (c1, e1, g) = fill_round false i c f (inl refl) in
      let (c2, e2, g2) = fill_quiet n (suc i) j c1 hs g (omega (arith, e)) in
      (c2, stream_core-goes_on s c c1 false (replicate n false ++ hs) e1 ∙ e2, g2)

  -- What the event finds.
  record Ready (c : Core) : Type 0 where
    state : c.state ≡ st_run_pre
    pre : c.pre ≡ s.pre
    received : c.event_received ≡ true
    post : c.post ≡ 0
    overrun : c.post_run_over_one ≡ 0

  prepared-Ready :
      (i : ℕ) (c : Core)
      → Filling s i c
      → fill_buffers s + s.corner_turn_delay ≤ i
      → Ready (prepared true c)
  unfolding prepared arm hear
  prepared-Ready i c f h = ground (arith, fill_some, h, f.accepts_then h)

  run_pre-Ready :
      (c : Core) (n : ℕ)
      → Ready c
      → Posting s (s.post / s.samples_buffer) 0 (record (run_pre s c) { elapsed = n })
  unfolding run_pre next_pre
  run_pre-Ready c n r = ground (
    arith,
    some_pre,
    div-mul-le_self s.post s.samples_buffer,
    lt-div-mul-add {a = s.post} {b = s.samples_buffer} z.some_samples,
  )

  -- The round at which the event is heard.
  pub event_round :
      (i : ℕ) (c : Core)
      → Filling s i c
      → fill_buffers s + s.corner_turn_delay ≤ i
      → (c1 : Core) × (round s true c ≡ goes_on c1) × Posting s (s.post / s.samples_buffer) 0 c1
  unfolding round dispatch elapse prepared
  event_round i c f h =
      let r = prepared-Ready i c f h in
      let n = ((run_pre s (prepared true c)).elapsed + s.samples_buffer) % 2 ^ 64 in
      (
        record (run_pre s (prepared true c)) { elapsed = n },
        ap (dispatch s (prepared true c)) r.state,
        run_pre-Ready (prepared true c) n r,
      )
