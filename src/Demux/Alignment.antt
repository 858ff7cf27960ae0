-- ===== src/Demux/Alignment.antt =====
-- acq400_stream.cpp, `DemuxBuffer::demux`: the search for the first channel.
use acq400drv.Prelude.{
  ℕ, zero, suc, ◌+◌, ◌<◌, ◌≤◌, ◌≡◌, ◌⊎◌, inl, inr, true, false, Option, none, some, if_true,
  if_false, Bool-cases, refl, arith, sym, subst, ltb-cases, eq→==,
}
use acq400drv.Demux.{Config, aligned, align, begin_at}

module _ (cfg : Config) (words : ℕ → ℕ) where
  -- The first place from `src` on at which the words are those of site 1, if there is one below 258.
  abbrev pub FirstAligned : ℕ → Option ℕ → Type 0
  FirstAligned src (some p) =
      (src ≤ p)
      × (p < 258)
      × (aligned cfg words p ≡ true)
      × ((j : ℕ) → src ≤ j → j < p → aligned cfg words j ≡ false)
  FirstAligned src none = (j : ℕ) → src ≤ j → j < 258 → aligned cfg words j ≡ false

  same_or_later : (i j : ℕ) → i ≤ j → (j ≡ i) ⊎ (suc i ≤ j)
  same_or_later i j h = omega arith

  FirstAligned-next :
      (src : ℕ) (r : Option ℕ)
      → aligned cfg words src ≡ false
      → FirstAligned (suc src) r
      → FirstAligned src r
  FirstAligned-next src (some p) e (a, b, c, d) = (
    omega (arith, a),
    b,
    c,
    λ j l m. elim (same_or_later src j l) [
      | inl s ↦ subst (λ v. aligned cfg words v ≡ false) (sym s) e
      | inr s ↦ d j s m
    ],
  )
  FirstAligned-next src none e d = λ j l m. elim (same_or_later src j l) [
    | inl s ↦ subst (λ v. aligned cfg words v ≡ false) (sym s) e
    | inr s ↦ d j s m
  ]

  align_from : (n src : ℕ) → src + n ≡ 258 → FirstAligned src (align cfg words src n)
  unfolding align
  align_from zero src e = λ j l m. absurd (omega (arith, e, l, m))
  align_from (suc n) src e = elim (Bool-cases (aligned cfg words src)) [
    | inl b ↦
        rw (if_true _ _ b) (omega arith, omega (arith, e), b, λ j l m. absurd (omega (arith, l, m)))
    | inr b ↦ rw (if_false _ _ b) (elim (ltb-cases 256 src) [
      | inl (l, c) ↦
          rw (if_true _ _ c)
            (FirstAligned-next src none b (λ j i m. absurd (omega (arith, l, i, m))))
      | inr (l, c) ↦
          rw (if_false _ _ c)
            (FirstAligned-next src _ b (align_from n (suc src) (omega (arith, e))))
    ])
  ]

  -- Words of four bytes whose samples do not fill a buffer: the stream starts at the first place at which
  -- four words in a row have the channel numbers of site 1, and if there is none among the first 258
  -- places, no place is found.
  pub begin_at-FirstAligned :
      cfg.sizeof_t ≡ 4 → cfg.data_fits_buffer ≡ false → FirstAligned 0 (begin_at cfg true words)
  unfolding begin_at align
  begin_at-FirstAligned four not_whole =
      rw (eq→== cfg.sizeof_t 4 four) (rw not_whole (align_from 258 0 refl))
