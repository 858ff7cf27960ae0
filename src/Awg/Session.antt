-- ===== src/Awg/Session.antt =====
-- acq400_ui.c, a waveform file from `xo400_awg_open` for writing over `xo400_awg_write` on: how its
-- length and position go together.
use Prim.Native.Nat.{◌∣◌}
use acq400drv.Prelude.{
  ℕ, ◌+◌, ◌*◌, ◌^◌, ◌<◌, ◌≤◌, ◌≡◌, refl, arith, Bool, false, List, [], ◌∷◌, length, ap, sym, ◌∙◌,
  Bool-cases, inl, inr,
}
use acq400drv.Playloop.{Settings, Look}
use acq400drv.Playloop.Stream.{Whole, hb_len}
use acq400drv.Awg.Calls.{status}
use acq400drv.Awg.Rearm.{truthy-pos, idle_worker, frontside}
use native.Mathlib.Nat.{le-mul_of_pos_right}
use acq400drv.Device.{truthy}
use acq400drv.Awg.{awg_release, Output, Kind, wronly, awg_open, awg_write, take, with_playloop}
use acq400drv.Awg.Room.{Tracks, fitting, zero_or_pos}
use acq400drv.Awg.File.{awg_write-ReadsBack}
use acq400drv.Awg.Reset.{reset_playloop-ResetTo, refuses}

module _ (cfg : Settings) (k : Kind) where
  -- A waveform file opened for writing is empty, whether the playing could be stopped or not: its
  -- length is 0 at position 0, and the buffers are as they were.
  pub awg_open-Tracks :
      (look : Look) (no_lock : Bool) (o : Output)
      → ((ib : ℕ) → length (o.mem ib) ≡ hb_len cfg)
      → Tracks cfg (awg_open cfg k look no_lock wronly o) 0
        × ((awg_open cfg k look no_lock wronly o).mem ≡ o.mem)
  unfolding awg_open
  awg_open-Tracks look no_lock o sizes =
      let o1 = with_playloop (λ p. record p { length = 0 }) o in
      let (rc, good, bad) = reset_playloop-ResetTo cfg k look o1 no_lock 0 in
      elim (Bool-cases (refuses cfg k look o1 no_lock 0)) [
        | inl e ↦ (
          record {
            buffers = λ ib. ap (λ m. length (m ib)) (bad e).mem ∙ sizes ib;
            covered = rw ((bad e).length) (omega arith);
          },
          (bad e).mem,
        )
        | inr e ↦ (
          record {
            buffers = λ ib. ap (λ m. length (m ib)) (good e).mem ∙ sizes ib;
            covered = rw ((good e).emptied refl) (omega arith);
          },
          (good e).mem,
        )
      ]

  -- A user's writes, one after the other, all of whose bytes can be read, and the position after them.
  abbrev pub awg_writes : List (List ℕ) → ℕ → Output → Output × ℕ
  awg_writes [] f_pos o = (o, f_pos)
  awg_writes (chunk ∷ chunks) f_pos o =
      let (o1, (f_pos1, count)) = awg_write cfg k (λ n. (take n chunk, 0)) f_pos (length chunk) o in
      awg_writes chunks f_pos1 o1

  abbrev pub WholeSamples : List (List ℕ) → Type 0
  WholeSamples [] = Unit
  WholeSamples (chunk ∷ chunks) = (cfg.aoss ∣ length chunk) × WholeSamples chunks

  abbrev pub total_length : List (List ℕ) → ℕ
  total_length [] = 0
  total_length (chunk ∷ chunks) = length chunk + total_length chunks

  module _ (w : Whole cfg) where
    awg_writes-Tracks :
        (chunks : List (List ℕ)) (f_pos : ℕ) (o : Output)
        → WholeSamples chunks
        → f_pos + total_length chunks < 2 ^ 32
        → Tracks cfg o f_pos
        → let r = awg_writes chunks f_pos o in
          Tracks cfg r.0 r.1 × (r.1 ≤ f_pos + total_length chunks)
    awg_writes-Tracks [] f_pos o d small t = (t, omega arith)
    awg_writes-Tracks (chunk ∷ chunks) f_pos o d small t =
        let step =
          awg_write-ReadsBack cfg w k f_pos o t chunk d.0 (omega arith) (λ n. (take n chunk, 0))
            (λ n. refl) (λ n. 0) (λ n. refl) in
        let r = awg_write cfg k (λ n. (take n chunk, 0)) f_pos (length chunk) o in
        let at : r.1.0 ≡ f_pos + fitting cfg f_pos (length chunk) = ap (λ m. m.0) step.0 in
        let t1 : Tracks cfg r.0 r.1.0 = rw at step.1.tracks in
        let (t2, le) = awg_writes-Tracks chunks r.1.0 r.0 d.1 (omega (arith, at)) t1 in
        (t2, omega (arith, at, le))

truthy-mul : (n a : ℕ) → 0 < a → truthy (n * a) ≡ truthy n
truthy-mul n a pos = elim (zero_or_pos n) [
  | inl e ↦ rw e (ground arith)
  | inr h ↦ truthy-pos (n * a) (omega (arith, h, le-mul_of_pos_right n pos)) ∙ sym (truthy-pos n h)
]

module _ (cfg : Settings) (k : Kind) (look : Look) where
  -- A file opened for writing, written and closed; the open's wait for the mutex may be interrupted.
  abbrev pub awg_session : Bool → List (List ℕ) → ℕ → Output → Output
  awg_session no_lock chunks oneshot o =
      awg_release cfg k look false wronly oneshot
        (awg_writes cfg k chunks 0 (awg_open cfg k look no_lock wronly o)).0

  -- Without the distributor, with blocks and buffers of whole samples, and if its wait for the mutex is
  -- not interrupted, closing a file that whole samples were written to, less than 4 GB in all, starts
  -- the output if the position is not 0 and leaves it stopped if it is 0, and it keeps what was written.
  pub awg_session-running :
      Whole cfg
      → cfg.use_distributor ≡ false
      → (no_lock : Bool) (chunks : List (List ℕ)) (oneshot : ℕ) (o : Output)
      → ((ib : ℕ) → length (o.mem ib) ≡ hb_len cfg)
      → WholeSamples cfg k chunks
      → total_length cfg k chunks < 2 ^ 32
      → let written = awg_writes cfg k chunks 0 (awg_open cfg k look no_lock wronly o) in
        let closed = awg_session no_lock chunks oneshot o in
        ((status closed).running ≡ truthy written.1) × (closed.mem ≡ written.0.mem)
  unfolding awg_release
  awg_session-running w d no_lock chunks oneshot o sizes whole small =
      let written = awg_writes cfg k chunks 0 (awg_open cfg k look no_lock wronly o) in
      let t =
        (awg_writes-Tracks cfg k w chunks 0 (awg_open cfg k look no_lock wronly o) whole
          (omega arith) (awg_open-Tracks cfg k look no_lock o sizes).0).0 in
      let o2 = with_playloop (λ p. record p { oneshot = oneshot }) written.0 in
      let n = o2.xo.playloop.length in
      let good =
        (reset_playloop-ResetTo cfg k look o2 false n).1
          (idle_worker (truthy n) cfg.use_distributor o2.task_active d) in
      (
        good.running
            ∙ frontside (truthy n) k.heads_set cfg.use_distributor d
            ∙ sym (truthy-mul n cfg.aoss w.sample)
            ∙ ap truthy (sym t.covered),
        good.mem,
      )
