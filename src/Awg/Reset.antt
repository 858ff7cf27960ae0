-- ===== src/Awg/Reset.antt =====
-- acq400_drv.c, `xo400_reset_playloop`: what is running when it returns.
use mathlib.Core.Bool.{true≢false}
use acq400drv.Prelude.{
  ℕ, ◌≡◌, refl, arith, Bool, true, false, not, ◌&&◌, ◌||◌, ◌==◌, Bool-cases, inl, inr,
  if◌then◌else◌, sym, subst, ==_iff, ap, ◌∙◌, [], ◌∷◌, ◌++◌,
}
use acq400drv.Device.{truthy}
use acq400drv.Playloop.{Settings, Look}
use acq400drv.Awg.{
  task_ended, Output, Kind, abort_en, abort_clr, call, with_playloop, reset_locked, reset_playloop,
  leads_set, play_continuous,
}
use acq400drv.Awg.Calls.{
  Status, replay-snoc, status, starts, start_lem, start-task_active, start-mem, stop_lem,
  stop-task_active, stop-mem, stop-length, halt_lem, reset_locked-stop, reset_locked-start,
  with_length-rest, with_length,
}

stop_fields :
    (b f : Bool)
    → Path Status
        (record { running = if b then false else false; fed = f })
        (record { running = false; fed = f })
stop_fields true f = refl
stop_fields false f = refl

start_fields :
    (b h c f : Bool)
    → Path Status
        (record {
          running = if b then true else false;
          fed = if h && not c then true else (if h then false else f);
        })
        (record { running = b; fed = if h then not c else f })
start_fields true true true f = refl
start_fields true true false f = refl
start_fields true false c f = refl
start_fields false true true f = refl
start_fields false true false f = refl
start_fields false false c f = refl

false_or : (a b : Bool) → b ≡ false → (a || b) ≡ a
false_or true b e = refl
false_or false b e = e

-- What a reset for a length of `n` leaves, of the output that was `o`.
pub record ResetTo (cfg : Settings) (k : Kind) (n : ℕ) (o o1 : Output) : Type 0 where
  pub running : (status o1).running ≡ (truthy n && starts cfg k)
  pub fed :
      (status o1).fed
      ≡ (if leads_set cfg k then truthy n && not (n == play_continuous) else (status o).fed)
  pub worker : o1.task_active ≡ (truthy n && leads_set cfg k && not (n == play_continuous))
  pub mem : o1.mem ≡ o.mem
  pub emptied : n ≡ 0 → o1.xo.playloop.length ≡ 0

module _ (cfg : Settings) (k : Kind) (look : Look) (o : Output) where
  length_zero : (with_length cfg k look 0 o).xo.playloop.length ≡ 0
  unfolding with_length
  length_zero = refl

  stopped_lem :
      status (reset_locked cfg k look 0 o)
      ≡ record { running = false; fed = if leads_set cfg k then false else (status o).fed }
  stopped_lem =
      ap status (reset_locked-stop cfg k look o)
      ∙ stop_lem cfg k look (with_length cfg k look 0 o)
      ∙ rw ((with_length-rest cfg k look 0 o).0, halt_lem cfg k look o)
          (stop_fields (starts cfg k) _)

  started_lem :
      (n : ℕ)
      → (n == 0) ≡ false
      → status (reset_locked cfg k look n o) ≡ record {
        running = starts cfg k;
        fed = if leads_set cfg k then not (n == play_continuous) else (status o).fed;
      }
  started_lem n e =
      ap status (reset_locked-start cfg k look n o e)
      ∙ start_lem cfg k look n (with_length cfg k look n o)
      ∙ rw ((with_length-rest cfg k look n o).0, halt_lem cfg k look o)
          (start_fields (starts cfg k) (leads_set cfg k) (n == play_continuous) (status o).fed)

  locked-ResetTo : (n : ℕ) → ResetTo cfg k n o (reset_locked cfg k look n o)
  locked-ResetTo n = elim (Bool-cases (n == 0)) [
    | inl z ↦
        subst (λ m. ResetTo cfg k m o (reset_locked cfg k look m o)) (sym ((==_iff n 0).0 z))
          (record {
            running = ap (λ s. s.running) stopped_lem;
            fed = ap (λ s. s.fed) stopped_lem;
            worker = rw (reset_locked-stop cfg k look o) (
                stop-task_active cfg k look (with_length cfg k look 0 o)
                ∙ (with_length-rest cfg k look 0 o).1);
            mem = rw (reset_locked-stop cfg k look o) (
                stop-mem cfg k look (with_length cfg k look 0 o)
                ∙ (with_length-rest cfg k look 0 o).2);
            emptied = λ e.
                ap (λ x. x.xo.playloop.length) (reset_locked-stop cfg k look o)
                ∙ stop-length cfg k look (with_length cfg k look 0 o)
                ∙ length_zero;
          })
    | inr p ↦ record {
      running = rw p (ap (λ s. s.running) (started_lem n p));
      fed = rw p (ap (λ s. s.fed) (started_lem n p));
      worker =
          rw (reset_locked-start cfg k look n o p, p)
            (start-task_active cfg k look n (with_length cfg k look n o)
              ∙ false_or _ _ (with_length-rest cfg k look n o).1);
      mem = rw (reset_locked-start cfg k look n o p) (
          start-mem cfg k look n (with_length cfg k look n o)
          ∙ (with_length-rest cfg k look n o).2);
      emptied = λ e. ground arith;
    }
  ]

  -- `xo400_reset_playloop` as it begins, with the worker thread made to end for a length of 0.
  aborted : ℕ → Output
  aborted n =
      if n == 0 && cfg.use_distributor
      then call abort_clr
          (task_ended (call abort_en (with_playloop (λ p. record p { oneshot = 1 }) o)))
      else o

  aborted-status : (n : ℕ) → status (aborted n) ≡ status o
  unfolding aborted
  aborted-status n = elim (Bool-cases (n == 0 && cfg.use_distributor)) [
    | inl e ↦ rw e (simp replay-snoc)
    | inr e ↦ rw e refl
  ]

  aborted-rest :
      (n : ℕ) → ((aborted n).mem ≡ o.mem) × ((aborted n).xo.playloop.length ≡ o.xo.playloop.length)
  unfolding aborted
  aborted-rest n = (ground arith, ground arith)

-- Whether a reset begins by aborting what the distributor's worker thread plays.
abbrev pub aborts : Settings → ℕ → Bool
aborts cfg n = n == 0 && cfg.use_distributor

-- What a reset for a length of `n` that is refused or interrupted leaves of the output `o`.
pub record Refused (cfg : Settings) (n : ℕ) (o o1 : Output) : Type 0 where
  pub unchanged : aborts cfg n ≡ false → o1 ≡ o
  pub as_before : status o1 ≡ status o
  pub mem : o1.mem ≡ o.mem
  pub length : o1.xo.playloop.length ≡ o.xo.playloop.length
  pub calls : aborts cfg n ≡ true → o1.calls ≡ (o.calls ++ abort_en ∷ []) ++ abort_clr ∷ []
  pub worker : aborts cfg n ≡ true → o1.task_active ≡ false
  pub oneshot : aborts cfg n ≡ true → o1.xo.playloop.oneshot ≡ 1

module _ (cfg : Settings) (k : Kind) (look : Look) (o : Output) where
  aborted-Refused : (n : ℕ) → Refused cfg n o (aborted cfg k look o n)
  unfolding aborted
  aborted-Refused n = record {
    unchanged = λ e. rw e refl;
    as_before = aborted-status cfg k look o n;
    mem = (aborted-rest cfg k look o n).0;
    length = (aborted-rest cfg k look o n).1;
    calls = λ e. rw e refl;
    worker = λ e. rw e refl;
    oneshot = λ e. rw e refl;
  }

  same-Refused :
      (n : ℕ) → (truthy n && cfg.use_distributor && o.task_active) ≡ true → Refused cfg n o o
  same-Refused n busy =
      let e : aborts cfg n ≡ false = ground arith in
      record {
        unchanged = λ h. refl;
        as_before = refl;
        mem = refl;
        length = refl;
        calls = λ h. absurd (true≢false (sym h ∙ e));
        worker = λ h. absurd (true≢false (sym h ∙ e));
        oneshot = λ h. absurd (true≢false (sym h ∙ e));
      }

  ResetTo-after :
      (n : ℕ) (o1 o2 : Output)
      → status o1 ≡ status o
      → o1.mem ≡ o.mem
      → ResetTo cfg k n o1 o2
      → ResetTo cfg k n o o2
  ResetTo-after n o1 o2 e m r = record {
    running = r.running;
    fed =
        r.fed
        ∙ ap (λ s. if leads_set cfg k then truthy n && not (n == play_continuous) else s.fed) e;
    worker = r.worker;
    mem = r.mem ∙ m;
    emptied = r.emptied;
  }

  abbrev pub refuses : Bool → ℕ → Bool
  refuses no_lock n = (truthy n && cfg.use_distributor && o.task_active) || no_lock

  -- A reset is refused for a length that is not 0 while the distributor's worker thread is active, or
  -- if the wait for the mutex is interrupted, and then nothing is changed, except that a length of 0
  -- with the distributor and an interrupted wait leave a one-shot, the abort switched on and off again
  -- and the worker thread ended: no output is started or stopped, the feeding is left as it was, and
  -- the waveform and the length stay. Any other reset succeeds: what is to be started is running exactly if the length is not
  -- 0, the worker thread is fed exactly if moreover the length is not that of continuous playing, and
  -- a length of 0 leaves a length of 0.
  pub reset_playloop-ResetTo :
      (no_lock : Bool) (n : ℕ)
      → let r = reset_playloop cfg k look no_lock n o in
        (r.1 ≡ not (refuses no_lock n))
        × (refuses no_lock n ≡ false → ResetTo cfg k n o r.0)
        × (refuses no_lock n ≡ true → Refused cfg n o r.0)
  unfolding reset_playloop aborted
  reset_playloop-ResetTo no_lock n =
      elim (Bool-cases (truthy n && cfg.use_distributor && o.task_active)) [
        | inl e ↦ rw e (refl, (λ h. absurd (true≢false h)), λ h. same-Refused n e)
        | inr e ↦ elim (Bool-cases no_lock) [
          | inl l ↦ rw (e, l) (refl, (λ h. absurd (true≢false h)), λ h. aborted-Refused n)
          | inr l ↦
              rw (e, l)
                (
                  refl,
                  (λ h.
                      ResetTo-after n (aborted cfg k look o n) _ (aborted-status cfg k look o n)
                        (aborted-rest cfg k look o n).0
                        (locked-ResetTo cfg k look (aborted cfg k look o n) n)),
                  λ h. absurd (true≢false (sym h)),
                )
        ]
      ]
