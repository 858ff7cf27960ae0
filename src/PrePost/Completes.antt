-- ===== src/PrePost/Completes.antt =====
-- acq400_stream.cpp, `StreamHeadPrePost::streamCore`: how many buffers a capture takes.
use native.Mathlib.Nat.{suc-mul}
use acq400drv.Prelude.{
  ℕ, zero, suc, ◌+◌, ◌/◌, ◌<◌, ◌≤◌, ◌≡◌, ◌⊎◌, inl, inr, Bool, true, false, List, [], ◌∷◌, ◌++◌,
  length, replicate, refl, arith, ap, ◌∙◌,
}
use acq400drv.PrePost.{
  st_run_post, Settings, Core, Round, goes_on, returns, hear, arm, run_post, elapse, dispatch,
  round, stream_core, armed,
}
use acq400drv.PrePost.Capture.{Sizes, Complete}
use acq400drv.PrePost.Filling.{
  fill_buffers, stream_core-goes_on, cut, Posting, armed-Filling, fill_early, fill_quiet,
  event_round,
}

-- The buffers that are taken after the one at which the event has been heard.
abbrev pub post_buffers : Settings → ℕ
post_buffers s = s.post / s.samples_buffer + 3

-- A round goes on, or returns, with a state that is `P`.
abbrev GoesOn : (Core → Type 0) → Round → Type 0
GoesOn P (goes_on c) = P c
GoesOn P (returns c) = ⊥

abbrev Returns : (Core → Type 0) → Round → Type 0
Returns P (goes_on c) = ⊥
Returns P (returns c) = P c

GoesOn-round : (P : Core → Type 0) (r : Round) → GoesOn P r → (c : Core) × (r ≡ goes_on c) × P c
GoesOn-round P (goes_on c) h = (c, refl, h)
GoesOn-round P (returns c) h = elim h [ ]

Returns-round : (P : Core → Type 0) (r : Round) → Returns P r → (c : Core) × (r ≡ returns c) × P c
Returns-round P (returns c) h = (c, refl, h)
Returns-round P (goes_on c) h = elim h [ ]

stream_core-returns :
    (s : Settings) (c c1 : Core) (heard : Bool) (hs : List Bool)
    → round s heard c ≡ returns c1
    → stream_core s c (heard ∷ hs) ≡ returns c1
unfolding stream_core
stream_core-returns s c c1 heard hs e = rw (e, stream_core) refl

module _ (s : Settings) (z : Sizes s) where
  -- After the event what is heard changes nothing.
  prepared-Posting :
      (heard : Bool) (k over : ℕ) (c : Core)
      → Posting s k over c
      → Posting s k over (arm s (hear heard c) c.state)
        × ((arm s (hear heard c) c.state).state ≡ st_run_post)
  unfolding arm hear
  prepared-Posting heard k over c p = ground arith

  post_run : (k : ℕ) (c : Core) → Posting s (suc k) 0 c → GoesOn (Posting s k 0) (run_post s c)
  unfolding run_post elapse
  post_run k c p = ground (arith, z.post_fits, suc-mul k s.samples_buffer)

  over_run :
      (over : ℕ) (c : Core)
      → Posting s 0 over c
      → over < 2
      → GoesOn (Posting s 0 (suc over)) (run_post s c)
  unfolding run_post elapse
  over_run over c p h = ground (arith, z.post_fits, h)

  last_run : (c : Core) → Posting s 0 2 c → Returns (Complete s) (run_post s c)
  unfolding run_post elapse
  last_run c p = ground (arith, z.post_fits)

  -- With `left` buffers to come from `c`: that many make the capture complete, fewer do not.
  abbrev pub Takes : ℕ → List Bool → Core → Type 0
  Takes left hs c =
      (left ≤ length hs → (c1 : Core) × (stream_core s c hs ≡ returns c1) × Complete s c1)
      × (length hs < left → (c1 : Core) × (stream_core s c hs ≡ goes_on c1))

  Takes-none : (left : ℕ) (c : Core) → 0 < left → Takes left [] c
  unfolding stream_core
  Takes-none left c h = (λ l. absurd (omega (arith, h, l)), λ l. (c, refl))

  Takes-next :
      (left : ℕ) (heard : Bool) (hs : List Bool) (c c1 : Core)
      → round s heard c ≡ goes_on c1
      → Takes left hs c1
      → Takes (suc left) (heard ∷ hs) c
  Takes-next left heard hs c c1 e (enough, fewer) =
      let step = stream_core-goes_on s c c1 heard hs e in
      (
        λ l. let (c2, e2, d) = enough (omega (arith, l)) in (c2, step ∙ e2, d),
        λ l. let (c2, e2) = fewer (omega (arith, l)) in (c2, step ∙ e2),
      )

  Takes-last :
      (heard : Bool) (hs : List Bool) (c c1 : Core)
      → round s heard c ≡ returns c1
      → Complete s c1
      → Takes 1 (heard ∷ hs) c
  Takes-last heard hs c c1 e d =
      (λ l. (c1, stream_core-returns s c c1 heard hs e, d), λ l. absurd (omega (arith, l)))

  post_round :
      (heard : Bool) (k over : ℕ) (c : Core) (P : Core → Type 0)
      → Posting s k over c
      → ((c1 : Core) → Posting s k over c1 → GoesOn P (run_post s c1))
      → (c1 : Core) × (round s heard c ≡ goes_on c1) × P c1
  unfolding round dispatch
  post_round heard k over c P p run =
      let (q, e) = prepared-Posting heard k over c p in
      let (c1, e1, h) =
        GoesOn-round P (run_post s (arm s (hear heard c) c.state))
          (run (arm s (hear heard c) c.state) q) in
      (c1, ap (dispatch s (arm s (hear heard c) c.state)) e ∙ e1, h)

  last_round :
      (heard : Bool) (c : Core)
      → Posting s 0 2 c
      → (c1 : Core) × (round s heard c ≡ returns c1) × Complete s c1
  unfolding round dispatch
  last_round heard c p =
      let (q, e) = prepared-Posting heard 0 2 c p in
      let (c1, e1, h) =
        Returns-round (Complete s) (run_post s (arm s (hear heard c) c.state))
          (last_run (arm s (hear heard c) c.state) q) in
      (c1, ap (dispatch s (arm s (hear heard c) c.state)) e ∙ e1, h)

  Takes-over :
      (n over : ℕ) (hs : List Bool) (c : Core)
      → over + n ≡ 2
      → Posting s 0 over c
      → Takes (suc n) hs c
  Takes-over n over [] c e p = Takes-none (suc n) c (omega arith)
  Takes-over zero over (heard ∷ hs) c e p =
      let at : over ≡ 2 = omega (arith, e) in
      let (c1, e1, d) = last_round heard c (rw (← at) p) in Takes-last heard hs c c1 e1 d
  Takes-over (suc n) over (heard ∷ hs) c e p =
      let (c1, e1, q) =
        post_round heard 0 over c (Posting s 0 (suc over)) p
          (λ c1 q. over_run over c1 q (omega (arith, e))) in
      Takes-next (suc n) heard hs c c1 e1 (Takes-over n (suc over) hs c1 (omega (arith, e)) q)

  Takes-post : (k : ℕ) (hs : List Bool) (c : Core) → Posting s k 0 c → Takes (k + 3) hs c
  Takes-post zero hs c p = Takes-over 2 0 hs c refl p
  Takes-post (suc k) [] c p = Takes-none (suc k + 3) c (omega arith)
  Takes-post (suc k) (heard ∷ hs) c p =
      let (c1, e1, q) = post_round heard (suc k) 0 c (Posting s k 0) p (post_run k) in
      let left : suc k + 3 ≡ suc (k + 3) = omega arith in
      rw left (Takes-next (k + 3) heard hs c c1 e1 (Takes-post k hs c1 q))

-- The buffers of a capture: `early` ones, then `quiet` ones at which nothing is heard, then the one at
-- which the event is, then the `rest`.
abbrev pub buffers : List Bool → ℕ → List Bool → List Bool
buffers early quiet rest = early ++ (replicate quiet false ++ (true ∷ rest))

event_reached :
    (s : Settings) (early : List Bool) (quiet : ℕ) (rest : List Bool)
    → Sizes s
    → 0 < s.pre
    → length early ≡ fill_buffers s + s.corner_turn_delay
    → (c : Core) × (stream_core s armed (buffers early quiet rest) ≡ stream_core s c rest)
      × Posting s (s.post / s.samples_buffer) 0 c
event_reached s early quiet rest z h e =
    let n = length early in
    let (c1, e1, f1) =
      fill_early s z h early 0 n armed (replicate quiet false ++ (true ∷ rest))
        (armed-Filling s z h) (omega arith) (omega (arith, e)) in
    let (c2, e2, f2) = fill_quiet s z h quiet n (n + quiet) c1 (true ∷ rest) f1 refl in
    let (c3, e3, p) = event_round s z h (n + quiet) c2 f2 (omega (arith, e)) in
    (c3, e1 ∙ e2 ∙ stream_core-goes_on s c2 c3 true rest e3, p)

-- A capture with samples before the event, buffers that hold samples, and counts that do not wrap. Whatever is heard at the buffers that these samples fill and at the
-- `corner_turn_delay` buffers after them, and after any number of buffers at which nothing is heard, the next
-- event is answered: with `post / samples_buffer` + 3 buffers more `streamCore` returns and the capture is complete, with
-- fewer it goes on.
pub stream_core-answers :
    (s : Settings) (early : List Bool) (quiet : ℕ) (rest : List Bool)
    → Sizes s
    → 0 < s.pre
    → length early ≡ fill_buffers s + s.corner_turn_delay
    → ((post_buffers s ≤ length rest)
        × ((c : Core) × (stream_core s armed (buffers early quiet rest) ≡ returns c)
            × Complete s c))
      ⊎ ((length rest < post_buffers s)
          × ((c : Core) × (stream_core s armed (buffers early quiet rest) ≡ goes_on c)))
stream_core-answers s early quiet rest z h e =
    let (c, to_event, p) = event_reached s early quiet rest z h e in
    let (enough, fewer) = Takes-post s z (s.post / s.samples_buffer) rest c p in
    elim (cut (length rest) (post_buffers s)) [
      | inl l ↦ (let (c1, e1) = fewer l in inr (l, (c1, to_event ∙ e1)))
      | inr l ↦ (let (c1, e1, d) = enough l in inl (l, (c1, to_event ∙ e1, d)))
    ]
