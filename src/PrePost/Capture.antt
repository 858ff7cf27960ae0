-- ===== src/PrePost/Capture.antt =====
-- acq400_stream.cpp, `StreamHeadPrePost::streamCore`: what every run keeps, whatever the events.
use acq400drv.Prelude.{◌+◌, ◌^◌, ◌<◌, ◌≤◌, ◌≡◌, ◌⊎◌, Bool, true, List, [], ◌∷◌, refl, arith}
use acq400drv.PrePost.{
  State, st_stop, st_arm, st_run_pre, st_run_post, st_postprocess, st_cleanup, Settings, Core,
  Round, goes_on, returns, hear, arm, next_pre, run_pre, run_post, elapse, dispatch, round,
  stream_core, armed,
}

-- A buffer holds samples, and the counts do not wrap.
pub record Sizes (s : Settings) : Type 0 where
  pub some_samples : 0 < s.samples_buffer
  pub pre_fits : s.pre + s.samples_buffer < 2 ^ 32
  pub post_fits : s.post + s.samples_buffer < 2 ^ 32

-- Between two rounds: no more samples are counted than asked for, events count only once the samples
-- before it are there and the delay is over, and the samples after it only once one has counted.
pub record Sound (s : Settings) (c : Core) : Type 0 where
  pub pre_within : c.pre ≤ s.pre
  pub post_within : c.post ≤ s.post
  pub accepting :
      c.accepting_events ≡ true → (c.pre ≡ s.pre) × (s.corner_turn_delay < c.buffers_over_pre)
  pub received : c.event_received ≡ true → c.accepting_events ≡ true
  pub live : (c.state ≡ st_arm) ⊎ (c.state ≡ st_run_pre) ⊎ (c.state ≡ st_run_post)
  pub after_pre :
      c.state ≡ st_run_post → (c.pre ≡ s.pre) × ((s.pre ≡ 0) ⊎ (c.event_received ≡ true))
  pub no_post : (c.state ≡ st_run_post) ⊎ ((c.post ≡ 0) × (c.post_run_over_one ≡ 0))
  pub overrun : (c.post_run_over_one ≡ 0) ⊎ (c.post ≡ s.post)

-- What a capture that is complete has.
pub record Complete (s : Settings) (c : Core) : Type 0 where
  pub pre_full : c.pre ≡ s.pre
  pub post_full : c.post ≡ s.post
  pub triggered : (s.pre ≡ 0) ⊎ (c.event_received ≡ true)
  pub state : c.state ≡ st_postprocess

-- The outcome of a round from a sound state.
abbrev pub RoundSound : Settings → Round → Type 0
RoundSound s (goes_on c) = Sound s c
RoundSound s (returns c) = Complete s c

armed-Sound : (s : Settings) → Sound s armed
armed-Sound s = ground arith

module _ (s : Settings) (z : Sizes s) where
  hear-Sound : (heard : Bool) (c : Core) → Sound s c → Sound s (hear heard c)
  unfolding hear
  hear-Sound heard c h = ground arith

  arm-Sound : (c : Core) → Sound s c → Sound s (arm s c c.state)
  unfolding arm
  arm-Sound c h = ground arith

  elapse-Sound : (c : Core) → Sound s c → RoundSound s (elapse s c)
  unfolding elapse
  elapse-Sound c h = ground arith

  run_pre-Sound : (c : Core) → c.state ≡ st_run_pre → Sound s c → Sound s (run_pre s c)
  unfolding run_pre next_pre
  run_pre-Sound c e h = ground (arith, z.pre_fits)

  run_post-Sound : (c : Core) → c.state ≡ st_run_post → Sound s c → RoundSound s (run_post s c)
  unfolding run_post elapse
  run_post-Sound c e h = ground (arith, z.post_fits)

  dispatch-Sound :
      (c : Core) (st : State) → c.state ≡ st → Sound s c → RoundSound s (dispatch s c st)
  unfolding dispatch
  dispatch-Sound c st_run_pre e h = elapse-Sound (run_pre s c) (run_pre-Sound c e h)
  dispatch-Sound c st_run_post e h = run_post-Sound c e h
  dispatch-Sound c st_stop e h = elapse-Sound c h
  dispatch-Sound c st_arm e h = elapse-Sound c h
  dispatch-Sound c st_postprocess e h = elapse-Sound c h
  dispatch-Sound c st_cleanup e h = elapse-Sound c h

  round-Sound : (heard : Bool) (c : Core) → Sound s c → RoundSound s (round s heard c)
  unfolding round hear
  round-Sound heard c h =
      let c1 = arm s (hear heard c) c.state in
      dispatch-Sound c1 c1.state refl (arm-Sound (hear heard c) (hear-Sound heard c h))

  after-Sound :
      (hs : List Bool) (r : Round)
      → ((c : Core) → Sound s c → RoundSound s (stream_core s c hs))
      → RoundSound s r
      → RoundSound s (elim r [ returns c1 ↦ returns c1 | goes_on c1 ↦ stream_core s c1 hs ])
  after-Sound hs (returns c1) ih k = k
  after-Sound hs (goes_on c1) ih k = ih c1 k

  Sound-run : (hs : List Bool) (c : Core) → Sound s c → RoundSound s (stream_core s c hs)
  unfolding stream_core
  Sound-run [] c h = h
  Sound-run (heard ∷ hs) c h =
      after-Sound hs (round s heard c) (λ c1 k. Sound-run hs c1 k) (round-Sound heard c h)

  -- With buffers that hold samples and counts that do not wrap, every run from the start, whatever events
  -- are heard at whatever buffers: a run that goes on counts no more samples than asked for, lets events
  -- count only when all samples before it are there and more than `corner_turn_delay` buffers have come since, and
  -- takes samples after it only once one has counted; a run that returns is complete.
  pub stream_core-Sound : (hs : List Bool) → RoundSound s (stream_core s armed hs)
  stream_core-Sound hs = Sound-run hs armed (armed-Sound s)
