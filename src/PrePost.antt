-- ===== src/PrePost.antt =====
-- acq400_stream.cpp, a transient capture before and after an event: `StreamHeadPrePost::streamCore`,
-- with the events that `getBufferId` reads before it has a buffer. The progress report sets its state.
-- A buffer comes with whether an event message was read before it. Log lines, peers and the clock have no state here.
pub mod Capture
pub mod Completes
pub mod Filling
use acq400drv.Prelude.{
  ℕ, ◌+◌, ◌%◌, ◌^◌, Bool, true, false, ◌&&◌, ◌||◌, List, [], ◌∷◌, ltb, leb, if◌then◌else◌,
}
use acq400drv.Device.{truthy}

-- `enum STATE`
pub data State : Type 0 where
  st_stop st_arm st_run_pre st_run_post st_postprocess st_cleanup : State

-- The members of `StreamHeadPrePost` that do not change in `streamCore`, and `G::corner_turn_delay`.
pub record Settings : Type 0 where
  pub pre : ℕ
  pub post : ℕ
  pub samples_buffer : ℕ
  pub corner_turn_delay : ℕ

-- `Progress`, the members that change and the local variables of `streamCore`.
pub record Core : Type 0 where
  pub state : State
  pub pre : ℕ
  pub post : ℕ
  pub elapsed : ℕ
  pub event_received : Bool
  pub accepting_events : Bool
  pub post_run_over_one : ℕ
  pub buffers_over_pre : ℕ

-- What a round of the loop ends with: the next round, or `return`.
pub data Round : Type 0 where
  goes_on returns : Core → Round

-- `getBufferId`, when it returns a buffer.
pub hear : Bool → Core → Core
hear heard c = record c { event_received = c.event_received || (heard && c.accepting_events) }

-- The first `switch`.
pub arm : Settings → Core → State → Core
arm s c st_arm = record c { state = if truthy s.pre then st_run_pre else st_run_post }
arm s c st_stop = c
arm s c st_run_pre = c
arm s c st_run_post = c
arm s c st_postprocess = c
arm s c st_cleanup = c

module _ (s : Settings) where
  -- `actual.pre` after a buffer more.
  pub next_pre : ℕ → ℕ
  next_pre pre =
      let more = (pre + s.samples_buffer) % 2 ^ 32 in
      if ltb pre s.pre then (if ltb more s.pre then more else s.pre) else pre

  -- The case ST_RUN_PRE.
  pub run_pre : Core → Core
  run_pre c =
      let c1 = record c { pre = next_pre c.pre } in
      let c2 = record c1 { buffers_over_pre = c1.buffers_over_pre + 1 } in
      if leb s.pre c1.pre
      then (if c1.event_received
          then record c1 { state = st_run_post }
          else if ltb s.corner_turn_delay c2.buffers_over_pre
          then record c2 { accepting_events = true }
          else c2)
      else c1

  -- The end of a round.
  pub elapse : Core → Round
  elapse c = goes_on (record c { elapsed = (c.elapsed + s.samples_buffer) % 2 ^ 64 })

  -- The case ST_RUN_POST, and the end of the round.
  pub run_post : Core → Round
  run_post c =
      let post = (c.post + s.samples_buffer) % 2 ^ 32 in
      let c1 = record c {
        post = s.post;
        elapsed = (c.elapsed + s.samples_buffer) % 2 ^ 64;
        post_run_over_one = c.post_run_over_one + 1;
      } in
      if ltb s.post post
      then (if ltb 1 c.post_run_over_one
          then returns (record c1 { state = st_postprocess })
          else elapse c1)
      else elapse (record c { post = post })

  -- The second `switch`.
  pub dispatch : Core → State → Round
  dispatch c st_run_pre = elapse (run_pre c)
  dispatch c st_run_post = run_post c
  dispatch c st_stop = elapse c
  dispatch c st_arm = elapse c
  dispatch c st_postprocess = elapse c
  dispatch c st_cleanup = elapse c

  -- One round of `streamCore`.
  pub round : Bool → Core → Round
  round heard c = let c1 = arm s (hear heard c) c.state in dispatch c1 c1.state

  -- `streamCore` on the buffers that come, until it returns or there is none.
  pub stream_core : Core → List Bool → Round
  stream_core c [] = goes_on c
  stream_core c (heard ∷ rest) = elim (round heard c) [
    | returns c1 ↦ returns c1
    | goes_on c1 ↦ stream_core c1 rest
  ]

-- The members when `stream` calls `streamCore`.
abbrev pub armed : Core
armed = record {
  state = st_arm;
  pre = 0;
  post = 0;
  elapsed = 0;
  event_received = false;
  accepting_events = false;
  post_run_over_one = 0;
  buffers_over_pre = 0;
}
