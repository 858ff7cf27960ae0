-- ===== src/Awg/Room.antt =====
-- acq400_ui.c, what `xo400_awg_write` has room for and `xo400_awg_read` gives, by the file's position.
use Prim.Native.Nat.{◌∣◌}
use native.Mathlib.Nat.{dvd-sub, dvd-mul_left, div-mul_cancel, add-mul, le-mul_of_pos_right}
use acq400drv.Prelude.{
  ℕ, ◌+◌, ◌-◌, ◌*◌, ◌/◌, ◌%◌, ◌^◌, ◌<◌, ◌≤◌, ◌≡◌, ◌≢◌, ◌⊎◌, inl, inr, min, refl, arith, true, false,
  [], length, some, leb,
}
use acq400drv.Playloop.{Settings}
use acq400drv.Playloop.Stream.{Whole, hb_len, offset, offset-lt, offset_sample}
use acq400drv.Awg.{Output, Kind, bytes_at, awg_read}

-- The length that is played covers exactly what is before the file's position, in buffers of the size
-- of the first.
pub record Tracks (cfg : Settings) (o : Output) (f_pos : ℕ) : Type 0 where
  pub buffers : (ib : ℕ) → length (o.mem ib) ≡ hb_len cfg
  pub covered : f_pos ≡ o.xo.playloop.length * cfg.aoss

-- How much of a write of `count` bytes is taken: what the buffer has room for.
abbrev pub fitting : Settings → ℕ → ℕ → ℕ
fitting cfg f_pos count = min count (hb_len cfg - (f_pos - f_pos / hb_len cfg * hb_len cfg))

-- A byte of the buffers that a transfer of `n` bytes from `f_pos` on does not touch.
abbrev pub Outside : Settings → ℕ → ℕ → ℕ → ℕ → Type 0
Outside cfg f_pos n ib j =
    let len = hb_len cfg in
    let at = f_pos - f_pos / len * len in (ib ≢ f_pos / len) ⊎ (j < at) ⊎ (at + n ≤ j)

min-cases : (a b : ℕ) → (min a b ≡ a) ⊎ (min a b ≡ b)
min-cases a b = omega arith

min-le : (a b : ℕ) → a ≤ b → min a b ≡ a
min-le a b h = omega arith

le→leb : (a b : ℕ) → a ≤ b → leb a b ≡ true
le→leb a b h = ground arith

lt→leb : (a b : ℕ) → b < a → leb a b ≡ false
lt→leb a b h = ground arith

pub zero_or_pos : (n : ℕ) → (n ≡ 0) ⊎ (0 < n)
zero_or_pos n = omega arith

module _ (cfg : Settings) (w : Whole cfg) (k : Kind) (f_pos count : ℕ) (o : Output)
    (t : Tracks cfg o f_pos) (whole : cfg.aoss ∣ count) (small : f_pos + count < 2 ^ 32) where
  abbrev n : ℕ
  n = fitting cfg f_pos count

  fitting_samples : cfg.aoss ∣ n
  fitting_samples = elim (min-cases count (hb_len cfg - offset cfg w f_pos)) [
    | inl e ↦ rw e whole
    | inr e ↦ rw e (
        dvd-sub cfg.aoss w.buffers
          (offset_sample cfg w f_pos (rw t.covered (dvd-mul_left cfg.aoss o.xo.playloop.length))))
  ]

  pub length-grows : (o.xo.playloop.length + n / cfg.aoss) * cfg.aoss ≡ f_pos + n
  length-grows = omega (
    arith,
    add-mul o.xo.playloop.length (n / cfg.aoss) cfg.aoss,
    div-mul_cancel cfg.aoss fitting_samples,
    t.covered,
  )

  pub length-fits :
      (o.xo.playloop.length + n / cfg.aoss) % 2 ^ 32 ≡ o.xo.playloop.length + n / cfg.aoss
  length-fits =
      omega
        (arith, length-grows, le-mul_of_pos_right (o.xo.playloop.length + n / cfg.aoss) w.sample)

  pub n-le : n ≤ count
  n-le = omega arith

  pub at_le : offset cfg w f_pos + n ≤ hb_len cfg
  at_le = omega (arith, offset-lt cfg w f_pos)

module _ (cfg : Settings) (to_user : ℕ → ℕ) (f_pos n : ℕ) (o : Output) where
  pub awg_read-at_end :
      o.xo.playloop.length * cfg.aoss % 2 ^ 32 ≤ f_pos
      → awg_read cfg to_user f_pos n o ≡ ([], (f_pos, some 0))
  unfolding awg_read
  awg_read-at_end h = rw (le→leb (o.xo.playloop.length * cfg.aoss % 2 ^ 32) f_pos h) refl

  pub awg_read-before_end :
      f_pos < o.xo.playloop.length * cfg.aoss % 2 ^ 32
      → n
        ≤ min
            (hb_len cfg - (f_pos - f_pos / hb_len cfg * hb_len cfg))
            (o.xo.playloop.length * cfg.aoss % 2 ^ 32 - f_pos)
      → to_user n ≡ 0
      → awg_read cfg to_user f_pos n o ≡ (
        bytes_at (o.mem (f_pos / hb_len cfg)) (f_pos - f_pos / hb_len cfg * hb_len cfg) n,
        (f_pos + n, some n),
      )
  unfolding awg_read
  awg_read-before_end h fit e =
      rw
        (
          lt→leb (o.xo.playloop.length * cfg.aoss % 2 ^ 32) f_pos h,
          min-le n
              (min (hb_len cfg - (f_pos - f_pos / hb_len cfg * hb_len cfg))
                (o.xo.playloop.length * cfg.aoss % 2 ^ 32 - f_pos))
              fit,
          e,
        )
        refl
