-- ===== src/Awg/Calls.antt =====
-- acq400_drv.c, `xo400_reset_playloop` and its parts: what the calls made leave running.
use acq400drv.Prelude.{
  ℕ, ◌≡◌, refl, arith, Bool, true, false, not, ◌&&◌, ◌||◌, List, [], ◌∷◌, ◌++◌, ◌==◌, Bool-cases,
  inl, inr, if◌then◌else◌,
}
use acq400drv.Playloop.{Settings, Look}
use acq400drv.Awg.{
  Output, Kind, Call, on_stop, on_start, stop_set, start_set, feeder_off, feeder_on, dio432_clocked,
  call, start_play, stop_play, halt, with_playloop, reset_locked, leads_set, play_continuous,
}

-- Whether outputs have been started since they were last stopped, and the worker thread is fed.
pub record Status : Type 0 where
  pub running : Bool
  pub fed : Bool

abbrev pub after_call : Call → Status → Status
after_call on_stop s = record s { running = false }
after_call stop_set s = record s { running = false }
after_call on_start s = record s { running = true }
after_call start_set s = record s { running = true }
after_call feeder_off s = record s { fed = false }
after_call feeder_on s = record s { fed = true }
after_call c s = s

-- What a list of calls, the first one first, leaves.
abbrev pub replay : List Call → Status → Status
replay [] s = s
replay (c ∷ cs) s = replay cs (after_call c s)

pub replay-snoc :
    (cs : List Call) (c : Call) (s : Status) → replay (cs ++ c ∷ []) s ≡ after_call c (replay cs s)
replay-snoc [] c s = refl
replay-snoc (d ∷ cs) c s = replay-snoc cs c (after_call d s)

abbrev pub at_rest : Status
at_rest = record { running = false; fed = false }

abbrev pub status : Output → Status
status o = replay o.calls at_rest

-- Whether a reset of this device is to start outputs: its set's, or its own without a distributor.
abbrev pub starts : Settings → Kind → Bool
starts cfg k = leads_set cfg k || not cfg.use_distributor

module _ (cfg : Settings) (k : Kind) (look : Look) where
  clocked_lem : (o : Output) → status (if k.is_dio432 then call dio432_clocked o else o) ≡ status o
  clocked_lem o = elim (Bool-cases k.is_dio432) [
    | inl e ↦ rw e (replay-snoc o.calls dio432_clocked at_rest)
    | inr e ↦ rw e refl
  ]

  pub start_lem :
      (n : ℕ) (o : Output)
      → status (start_play cfg k look n o) ≡ record {
        running = if starts cfg k then true else (status o).running;
        fed = if leads_set cfg k && not (n == play_continuous) then true else (status o).fed;
      }
  unfolding start_play
  start_lem n o = elim (Bool-cases cfg.use_distributor) [
    | inl d ↦ elim (Bool-cases k.heads_set) [
      | inl h ↦ elim (Bool-cases (n == play_continuous)) [
        | inl c ↦ rw (d, h, c) (simp (replay-snoc, clocked_lem))
        | inr c ↦ rw (d, h, c) (simp replay-snoc)
      ]
      | inr h ↦ rw (d, h) (clocked_lem o)
    ]
    | inr d ↦ rw d (simp (replay-snoc, clocked_lem))
  ]

  pub start-task_active :
      (n : ℕ) (o : Output)
      → (start_play cfg k look n o).task_active
        ≡ ((leads_set cfg k && not (n == play_continuous)) || o.task_active)
  unfolding start_play
  start-task_active n o = ground arith

  pub start-mem : (n : ℕ) (o : Output) → (start_play cfg k look n o).mem ≡ o.mem
  unfolding start_play
  start-mem n o = ground arith

  pub stop_lem :
      (o : Output)
      → status (stop_play cfg k o) ≡ record {
        running = if starts cfg k then false else (status o).running;
        fed = (status o).fed;
      }
  unfolding stop_play
  stop_lem o = elim (Bool-cases cfg.use_distributor) [
    | inl d ↦ elim (Bool-cases k.heads_set) [
      | inl h ↦ rw (d, h) (replay-snoc o.calls stop_set at_rest)
      | inr h ↦ rw (d, h) refl
    ]
    | inr d ↦ rw d (replay-snoc o.calls on_stop at_rest)
  ]

  pub stop-task_active : (o : Output) → (stop_play cfg k o).task_active ≡ o.task_active
  unfolding stop_play
  stop-task_active o = ground arith

  pub stop-mem : (o : Output) → (stop_play cfg k o).mem ≡ o.mem
  unfolding stop_play
  stop-mem o = ground arith

  pub stop-length : (o : Output) → (stop_play cfg k o).xo.playloop.length ≡ o.xo.playloop.length
  unfolding stop_play
  stop-length o = ground arith

  pub halt_lem :
      (o : Output)
      → status (halt cfg k o)
        ≡ record { running = false; fed = if leads_set cfg k then false else (status o).fed }
  unfolding halt
  halt_lem o = elim (Bool-cases cfg.use_distributor) [
    | inl d ↦ elim (Bool-cases k.heads_set) [
      | inl h ↦ rw (d, h) (simp replay-snoc)
      | inr h ↦ rw (d, h) (simp replay-snoc)
    ]
    | inr d ↦ rw d (replay-snoc o.calls on_stop at_rest)
  ]

  halt-rest : (o : Output) → ((halt cfg k o).task_active ≡ false) × ((halt cfg k o).mem ≡ o.mem)
  unfolding halt
  halt-rest o = (refl, ground arith)

  unfoldable pub with_length : ℕ → Output → Output
  with_length n o =
      with_playloop
        (λ p. if n == play_continuous then record p { oneshot = 0 } else record p { length = n })
        (halt cfg k o)

  pub reset_locked-stop :
      (o : Output) → reset_locked cfg k look 0 o ≡ stop_play cfg k (with_length 0 o)
  unfolding reset_locked with_length
  reset_locked-stop o = refl

  pub reset_locked-start :
      (n : ℕ) (o : Output)
      → (n == 0) ≡ false
      → reset_locked cfg k look n o ≡ start_play cfg k look n (with_length n o)
  unfolding reset_locked with_length
  reset_locked-start n o e = rw e refl

  pub with_length-rest :
      (n : ℕ) (o : Output)
      → (status (with_length n o) ≡ status (halt cfg k o))
        × ((with_length n o).task_active ≡ false)
        × ((with_length n o).mem ≡ o.mem)
  unfolding with_length
  with_length-rest n o = let (a, b) = halt-rest o in (refl, a, b)
