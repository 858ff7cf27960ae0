-- ===== src/Awg/File.antt =====
-- acq400_ui.c, `xo400_awg_write` and `xo400_awg_read`: what is written is read back.
use Prim.Native.Nat.{◌∣◌}
use acq400drv.Prelude.{
  ℕ, ◌+◌, ◌-◌, ◌*◌, ◌/◌, ◌%◌, ◌^◌, ◌<◌, ◌≤◌, ◌≡◌, ◌⊎◌, inl, inr, refl, arith, List, [], ◌∷◌, length,
  ap, some, ◌==◌, get_or, sym, ap₂, Bool-cases, eq→==, ne→==, ==_iff, ◌∙◌,
}
use acq400drv.Playloop.{Settings}
use acq400drv.Playloop.Stream.{Whole, hb_len, offset}
use acq400drv.Awg.{
  Output, Kind, Transfer, take, bytes_at, copy_to, signs_flipped, awg_write, awg_read,
  with_playloop, put_bytes,
}
use acq400drv.Awg.Bytes.{
  length-signs_flipped, length-take, bytes_at-copy_to, length-copy_to, get_or-copy_to,
}
use acq400drv.Awg.Room.{
  Tracks, fitting, Outside, zero_or_pos, length-grows, length-fits, n-le, at_le, awg_read-at_end,
  awg_read-before_end,
}

-- What a write of `n` bytes from `f_pos` on leaves: the length up to the new position, every other
-- byte as it was, and the bytes written for a read of the same place.
pub record ReadsBack (cfg : Settings) (o o1 : Output) (f_pos n : ℕ) (bytes : List ℕ)
    (to_user : ℕ → ℕ) : Type 0 where
  pub tracks : Tracks cfg o1 (f_pos + n)
  pub kept : (ib j : ℕ) → Outside cfg f_pos n ib j → get_or (o1.mem ib) j 0 ≡ get_or (o.mem ib) j 0
  pub read_back : awg_read cfg to_user f_pos n o1 ≡ (bytes, (f_pos + n, some n))

abbrev pub after_write : Settings → Kind → ℕ → ℕ → List ℕ → Output → Output
after_write cfg k f_pos n wave o =
    with_playloop (λ p. record p { length = p.length + n / cfg.aoss })
      (put_bytes (f_pos / hb_len cfg) (f_pos - f_pos / hb_len cfg * hb_len cfg)
        (signs_flipped k (take n wave)) o)

module _ (cfg : Settings) (w : Whole cfg) (k : Kind) (f_pos : ℕ) (o : Output)
    (t : Tracks cfg o f_pos) (wave : List ℕ) (whole : cfg.aoss ∣ length wave)
    (small : f_pos + length wave < 2 ^ 32) (from_user : ℕ → List ℕ × ℕ)
    (got : (n : ℕ) → from_user n ≡ (take n wave, 0)) (to_user : ℕ → ℕ)
    (gave : (n : ℕ) → to_user n ≡ 0) where
  m : ℕ
  m = fitting cfg f_pos (length wave)

  write_lem : awg_write cfg k from_user f_pos (length wave) o ≡ (
    after_write cfg k f_pos (fitting cfg f_pos (length wave)) wave o,
    (f_pos + fitting cfg f_pos (length wave), some (fitting cfg f_pos (length wave))),
  )
  unfolding awg_write
  write_lem =
      rw
        (
          got (fitting cfg f_pos (length wave)),
          length-fits cfg w k f_pos (length wave) o t whole small,
        )
        refl

  flipped_bytes : List ℕ
  flipped_bytes = signs_flipped k (take (fitting cfg f_pos (length wave)) wave)

  length-flipped_bytes : length flipped_bytes ≡ fitting cfg f_pos (length wave)
  unfolding flipped_bytes
  length-flipped_bytes =
      length-signs_flipped k (take (fitting cfg f_pos (length wave)) wave)
      ∙ length-take (fitting cfg f_pos (length wave)) wave
          (n-le cfg w k f_pos (length wave) o t whole small)

  mem-put_bytes :
      (ib : ℕ)
      → (put_bytes ib (offset cfg w f_pos) flipped_bytes o).mem ib
        ≡ copy_to (o.mem ib) (offset cfg w f_pos) flipped_bytes
  mem-put_bytes ib = rw (eq→== ib ib refl) refl

  fits : (ib : ℕ) → offset cfg w f_pos + length flipped_bytes ≤ length (o.mem ib)
  fits ib =
      omega (
        arith,
        length-flipped_bytes,
        t.buffers ib,
        at_le cfg w k f_pos (length wave) o t whole small,
      )

  put_bytes-buffers :
      (at : ℕ) (ib : ℕ)
      → length ((put_bytes at (offset cfg w f_pos) flipped_bytes o).mem ib) ≡ hb_len cfg
  put_bytes-buffers at ib = elim (Bool-cases (ib == at)) [
    | inl e ↦ rw e (length-copy_to (o.mem at) (offset cfg w f_pos) flipped_bytes ∙ t.buffers at)
    | inr e ↦ rw e (t.buffers ib)
  ]

  outside :
      {j : ℕ}
      → (j < offset cfg w f_pos) ⊎ (offset cfg w f_pos + fitting cfg f_pos (length wave) ≤ j)
      → (j < offset cfg w f_pos) ⊎ (offset cfg w f_pos + length flipped_bytes ≤ j)
  outside (inl h) = inl h
  outside (inr h) = inr (omega (arith, length-flipped_bytes))

  put_bytes-kept :
      (ib j : ℕ)
      → Outside cfg f_pos (fitting cfg f_pos (length wave)) ib j
      → get_or ((put_bytes (f_pos / hb_len cfg) (offset cfg w f_pos) flipped_bytes o).mem ib) j 0
        ≡ get_or (o.mem ib) j 0
  put_bytes-kept ib j (inl ne) = rw (ne→== ib (f_pos / hb_len cfg) ne) refl
  put_bytes-kept ib j (inr h) = elim (Bool-cases (ib == f_pos / hb_len cfg)) [
    | inl e ↦ rw e (
        get_or-copy_to (o.mem (f_pos / hb_len cfg)) (offset cfg w f_pos) flipped_bytes j (outside h)
        ∙ ap (λ i. get_or (o.mem i) j 0) (sym ((==_iff ib (f_pos / hb_len cfg)).0 e)))
    | inr e ↦ rw e refl
  ]

  pll :
      (after_write cfg k f_pos (fitting cfg f_pos (length wave)) wave o).xo.playloop.length
        * cfg.aoss
        % 2 ^ 32
      ≡ f_pos + fitting cfg f_pos (length wave)
  pll = omega (
    arith,
    length-grows cfg w k f_pos (length wave) o t whole small,
    n-le cfg w k f_pos (length wave) o t whole small,
  )

  none_lem : (xs : List ℕ) → length xs ≡ 0 → xs ≡ []
  none_lem [] h = refl
  none_lem (x ∷ xs) h = absurd (omega arith)

  bytes_read :
      bytes_at
        ((put_bytes (f_pos / hb_len cfg) (offset cfg w f_pos) flipped_bytes o).mem
          (f_pos / hb_len cfg))
        (offset cfg w f_pos)
        (fitting cfg f_pos (length wave))
      ≡ flipped_bytes
  bytes_read =
      let ib = f_pos / hb_len cfg in
      let at = offset cfg w f_pos in
      ap (λ l. bytes_at l at (fitting cfg f_pos (length wave))) (mem-put_bytes ib)
      ∙ ap (bytes_at (copy_to (o.mem ib) at flipped_bytes) at) (sym length-flipped_bytes)
      ∙ bytes_at-copy_to (o.mem ib) at flipped_bytes (fits ib)

  read_lem :
      awg_read cfg to_user f_pos
        (fitting cfg f_pos (length wave))
        (after_write cfg k f_pos (fitting cfg f_pos (length wave)) wave o)
      ≡ (
        flipped_bytes,
        (f_pos + fitting cfg f_pos (length wave), some (fitting cfg f_pos (length wave))),
      )
  unfolding flipped_bytes
  read_lem =
      let n = fitting cfg f_pos (length wave) in
      let o1 = after_write cfg k f_pos n wave o in
      elim (zero_or_pos n) [
        | inl e ↦
            awg_read-at_end cfg to_user f_pos n o1 (omega (arith, pll))
            ∙ ap₂ {C = List ℕ × Transfer} (λ (bs : List ℕ) (p : Transfer). (bs, p))
                (sym (none_lem flipped_bytes (length-flipped_bytes ∙ e)))
                (ap₂ {C = Transfer} (λ (q : ℕ) (c : ℕ). (q, some c)) (omega (arith, e)) (sym e))
        | inr pos ↦
            awg_read-before_end cfg to_user f_pos n o1 (omega (arith, pll)) (omega (arith, pll))
              (gave n)
            ∙ ap {B = List ℕ × Transfer} (λ (bs : List ℕ). (bs, (f_pos + n, some n))) bytes_read
      ]

  -- A write of whole samples, in the first 4 GB of a file whose length covers what is before its
  -- position, of bytes that can be copied from and to the user, with blocks and buffers of whole samples: as
  -- much is taken as the buffer has room for, and no more. Every other byte stays, the length covers
  -- what is before the new position, and a read of the same place gives what was written, with the
  -- sign bits flipped if the write flips them.
  pub awg_write-ReadsBack :
      let n = fitting cfg f_pos (length wave) in
      let r = awg_write cfg k from_user f_pos (length wave) o in
      (r.1 ≡ (f_pos + n, some n))
      × ReadsBack cfg o r.0 f_pos n (signs_flipped k (take n wave)) to_user
  unfolding flipped_bytes
  awg_write-ReadsBack = rw write_lem (
    refl,
    record {
      tracks = record {
        buffers = put_bytes-buffers (f_pos / hb_len cfg);
        covered = sym (length-grows cfg w k f_pos (length wave) o t whole small);
      };
      kept = put_bytes-kept;
      read_back = read_lem;
    },
  )
