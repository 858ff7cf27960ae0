-- ===== src/Transpose/Loop.antt =====
-- acq400_stream.cpp, `Demuxer::demux` as a whole: it returns, and every sample is moved to its place.
use native.Mathlib.Nat.{suc-mul, add-mul, mul-le-mul_right, mul-mod_left, mul_comm}
use acq400drv.Prelude.{
  ℕ, zero, suc, ◌+◌, ◌-◌, ◌*◌, ◌/◌, ◌<◌, ◌≤◌, ◌≡◌, inl, inr, Option, some, refl, arith, ap, ap₂,
  sym, subst, ◌∙◌, if_true, if_false, eq→==, ne→==, lt→ltb, le→ltb,
}
use acq400drv.Transpose.{
  Format, BufferCursor, Demuxed, total_remain_bytes, get_base, init_cursor, demux_part, demux_loop,
  transpose,
}
use acq400drv.Transpose.Buffers.{
  Whole, unit, base_lem, some_unit, remain_lem, words_lem, demux_part-Filled,
}
use acq400drv.Transpose.Moves.{Moved, Filled-Moved, Moved-next, cut}

-- The destination is buffer `ibuf`, with `done` samples in it.
pub record Cursor (f : Format) (ibuf done : ℕ) (c : BufferCursor) : Type 0 where
  pub number : c.ibuf ≡ ibuf
  pub based : c.base ≡ get_base f ibuf
  pub filled : c.cursor ≡ c.base + done

module _ (f : Format) where
  loop-zero :
      (fuel startp nbytes rc : ℕ) (d : Demuxed)
      → nbytes ≡ 0
      → demux_loop f (suc fuel) startp nbytes rc d ≡ some (d, rc)
  unfolding demux_loop
  loop-zero fuel startp nbytes rc d e = if_true _ _ (eq→== nbytes 0 e)

  loop-last :
      (fuel startp nbytes rc : ℕ) (d : Demuxed)
      → 0 < nbytes
      → nbytes < total_remain_bytes f d.dst
      → demux_loop f (suc fuel) startp nbytes rc d
        ≡ demux_loop f fuel startp 0 (rc + nbytes) (demux_part f startp nbytes d)
  unfolding demux_loop
  loop-last fuel startp nbytes rc d h l =
      if_false _ _ (ne→== nbytes 0 (λ e. omega (arith, e, h))) ∙ if_true _ _ (lt→ltb nbytes _ l)

  -- What a round that fills the buffer goes on with, `trb` being the bytes that it took.
  abbrev after_full : ℕ → ℕ → ℕ → ℕ → Demuxed → ℕ → Option (Demuxed × ℕ)
  after_full fuel startp nbytes rc d trb =
      demux_loop f fuel (startp + trb / f.sizeof_t) (nbytes - trb) (rc + trb)
        (record (demux_part f startp trb d) { dst = init_cursor f (d.dst.ibuf + 1) })

  loop-next :
      (fuel startp nbytes rc : ℕ) (d : Demuxed)
      → 0 < nbytes
      → total_remain_bytes f d.dst ≤ nbytes
      → demux_loop f (suc fuel) startp nbytes rc d
        ≡ after_full fuel startp nbytes rc d (total_remain_bytes f d.dst)
  unfolding demux_loop
  loop-next fuel startp nbytes rc d h l =
      if_false _ _ (ne→== nbytes 0 (λ e. omega (arith, e, h))) ∙ if_false _ _ (le→ltb nbytes _ l)

module _ (f : Format) (size : ℕ) (z : Whole f size) where
  units-lt : (m n : ℕ) → m < n → m * unit f size z < n * unit f size z
  units-lt m n h = omega (
    arith,
    some_unit f size z,
    suc-mul m (unit f size z),
    mul-le-mul_right {m = suc m} {n = n} (unit f size z) h,
  )

  -- `demux_loop` returns all bytes, with the samples moved.
  abbrev Returns : ℕ → ℕ → ℕ → ℕ → ℕ → ℕ → Demuxed → Type 0
  Returns fuel ibuf done n start rc d =
      (d1 : Demuxed) × (demux_loop f fuel start (n * unit f size z) rc d
        ≡ some (d1, rc + n * unit f size z))
      × Moved f size z ibuf done n start d.memory d1.memory

  Returns-last :
      (fuel ibuf done n start rc : ℕ) (d : Demuxed)
      → 0 < n
      → n < size - done
      → Cursor f ibuf done d.dst
      → get_base f (ibuf + 1) + done * f.nchan ≤ start
      → Returns (suc (suc fuel)) ibuf done n start rc d
  Returns-last fuel ibuf done n start rc d some_left h k ahead = (
    demux_part f start (n * unit f size z) d,
    loop-last f (suc fuel) start (n * unit f size z) rc d (omega (arith, units-lt 0 n some_left)) (
          subst (λ v. n * unit f size z < v)
            (sym (remain_lem f size z d.dst done k.filled (omega (arith, h))))
            (units-lt n (size - done) h))
        ∙ loop-zero f fuel start 0 _ _ refl,
    Filled-Moved f size z ibuf done n start d.memory _ (omega (arith, h)) (
        demux_part-Filled f size z ibuf done n start d (k.filled ∙ ap (λ v. v + done) k.based)
          (omega (arith, h)) (omega (arith, ahead))),
  )

  Returns-none :
      (fuel ibuf done start rc : ℕ) (d : Demuxed) → Returns (suc fuel) ibuf done 0 start rc d
  Returns-none fuel ibuf done start rc d = (
    d,
    loop-zero f fuel start (0 * unit f size z) rc d (omega arith)
        ∙ ap (λ v. some (d, v)) (omega arith),
    record {
      moved = λ q r c i j m o. absurd (omega (arith, m, o));
      before = λ a i. refl;
      earlier = λ c r i j. refl;
    },
  )

  -- What a full buffer leaves.
  abbrev filled_up : ℕ → ℕ → Demuxed → Demuxed
  filled_up done start d = record (demux_part f start ((size - done) * unit f size z) d) {
    dst = init_cursor f (d.dst.ibuf + 1);
  }

  filled_up-Cursor :
      (ibuf done start : ℕ) (d : Demuxed)
      → Cursor f ibuf done d.dst
      → Cursor f (ibuf + 1) 0 (filled_up done start d).dst
  filled_up-Cursor ibuf done start d k = record {
    number = omega (arith, k.number);
    based = ap (λ v. get_base f (v + 1)) k.number;
    filled = omega arith;
  }

  full_round :
      (fuel ibuf done n start rc : ℕ) (d : Demuxed)
      → 0 < n
      → done < size
      → size - done ≤ n
      → Cursor f ibuf done d.dst
      → demux_loop f (suc fuel) start (n * unit f size z) rc d
        ≡ demux_loop f fuel
            (start + (size - done) * f.nchan)
            ((n - (size - done)) * unit f size z)
            (rc + (size - done) * unit f size z)
            (filled_up done start d)
  full_round fuel ibuf done n start rc d some_left l e k =
      let u = unit f size z in
      let full = size - done in
      let remain = remain_lem f size z d.dst done k.filled (omega (arith, l)) in
      let whole : full + (n - full) ≡ n = omega (arith, e) in
      loop-next f fuel start (n * u) rc d (omega (arith, units-lt 0 n some_left))
        (subst (λ v. v ≤ n * u) (sym remain) (mul-le-mul_right {m = full} {n = n} u e))
      ∙ ap (after_full f fuel start (n * u) rc d) remain
      ∙ ap₂ (λ w b. demux_loop f fuel (start + w) b (rc + full * u) (filled_up done start d))
          (words_lem f size z full)
          (omega (arith, ap (λ v. v * u) whole, add-mul full (n - full) u))

  Returns-next :
      (fuel ibuf done n start rc : ℕ) (d : Demuxed)
      → 0 < n
      → done < size
      → size - done ≤ n
      → Cursor f ibuf done d.dst
      → get_base f (ibuf + 1) + done * f.nchan ≤ start
      → Returns fuel
          (ibuf + 1)
          0
          (n - (size - done))
          (start + (size - done) * f.nchan)
          (rc + (size - done) * unit f size z)
          (filled_up done start d)
      → Returns (suc fuel) ibuf done n start rc d
  Returns-next fuel ibuf done n start rc d some_left l e k ahead (d1, runs, m) =
      let u = unit f size z in
      let full = size - done in
      let whole : full + (n - full) ≡ n = omega (arith, e) in
      (
        d1,
        full_round fuel ibuf done n start rc d some_left l e k
            ∙ runs
            ∙ ap (λ v. some (d1, v))
                (omega (arith, ap (λ v. v * u) whole, add-mul full (n - full) u)),
        Moved-next f size z ibuf done n start d.memory _ d1.memory l (omega (arith, e)) ahead
            (demux_part-Filled f size z ibuf done full start d
              (k.filled ∙ ap (λ v. v + done) k.based) (omega (arith, l)) (omega (arith, ahead)))
            m,
      )

  demux_loop-Returns :
      (fuel ibuf done n start rc : ℕ) (d : Demuxed)
      → done < size
      → n + 1 < fuel
      → Cursor f ibuf done d.dst
      → get_base f (ibuf + 1) + done * f.nchan ≤ start
      → Returns fuel ibuf done n start rc d
  demux_loop-Returns zero ibuf done n start rc d l h k ahead = absurd (omega (arith, h))
  demux_loop-Returns (suc fuel) ibuf done zero start rc d l h k ahead =
      Returns-none fuel ibuf done start rc d
  demux_loop-Returns (suc zero) ibuf done (suc n) start rc d l h k ahead = absurd (omega (arith, h))
  demux_loop-Returns (suc (suc fuel)) ibuf done (suc n) start rc d l h k ahead =
      elim (cut (suc n) (size - done)) [
        | inl e ↦ Returns-last fuel ibuf done (suc n) start rc d (omega arith) e k ahead
        | inr e ↦
            let whole : done + (size - done) ≡ size = omega (arith, l) in
            Returns-next (suc fuel) ibuf done (suc n) start rc d (omega arith) l e k ahead (
              demux_loop-Returns (suc fuel) (ibuf + 1) 0 (suc n - (size - done)) _ _
                (filled_up done start d) z.some_size (omega (arith, h, l))
                (filled_up-Cursor ibuf done start d k)
                (omega (
                  arith,
                  ahead,
                  base_lem f size z (ibuf + 1),
                  add-mul done (size - done) f.nchan,
                  ap (λ v. v * f.nchan) whole,
                )))
      ]

  -- One sample at a time, with a whole number of samples in a buffer of all channels, and the words to be read
  -- ahead of the buffer being filled by what it lacks: `demux` returns all bytes of `n` samples, every
  -- channel of every sample stands at its place in the buffers from the cursor's on, also where these
  -- overwrite what has been read, and the buffers before and the samples already there are untouched.
  pub transpose-Moved :
      (ibuf done n start : ℕ) (d : Demuxed)
      → done < size
      → Cursor f ibuf done d.dst
      → get_base f (ibuf + 1) + done * f.nchan ≤ start
      → (d1 : Demuxed) × (transpose f start (n * (f.nchan * f.wordsize)) d
          ≡ some (d1, n * (f.nchan * f.wordsize)))
        × Moved f size z ibuf done n start d.memory d1.memory
  unfolding transpose
  transpose-Moved ibuf done n start d l k ahead =
      let nbytes = n * (f.nchan * f.wordsize) in
      let enough : n + 1 < nbytes + 2 = omega (
        arith,
        mul_comm n (unit f size z),
        mul-le-mul_right {m = 1} {n = unit f size z} n (some_unit f size z),
      ) in
      let (d1, runs, m) = demux_loop-Returns (nbytes + 2) ibuf done n start 0 d l enough k ahead in
      (
        d1,
        if_true _ _ (eq→== _ 0 (mul-mod_left n (f.nchan * f.wordsize)))
            ∙ runs
            ∙ ap (λ v. some (d1, v)) (omega arith),
        m,
      )
