-- ===== src/Transpose/Spread.antt =====
-- acq400_stream.cpp, `DemuxerImpl::_demux`: where the words of a buffer go, one sample at a time.
use native.Mathlib.Nat.{suc-mul, mul-le-mul_right}
use acq400drv.Prelude.{
  ℕ, zero, suc, ◌+◌, ◌-◌, ◌*◌, ◌<◌, ◌≤◌, ◌≡◌, ◌≢◌, ◌⊎◌, inl, inr, false, List, refl, arith, ap, ap₂,
  ◌∙◌, if_true, if_false, eq→==, ne→==,
}
use acq400drv.Transpose.{
  Format, EsEntry, write_word, channel_buffer_sam, spread, step, harvest, log_es,
}

same_or_other : (a b : ℕ) → (a ≡ b) ⊎ (a ≢ b)
same_or_other a b = ground arith

-- Slot `s` of a channel below another one is below all slots of that one.
pub slot_below : (c d s w : ℕ) → c < d → s < w → c * w + s < d * w
slot_below c d s w h l = omega (arith, l, suc-mul c w, mul-le-mul_right {m = suc c} {n = d} w h)

same_or_later : (i c : ℕ) → i ≤ c → (c ≡ i) ⊎ (suc i ≤ c)
same_or_later i c h = omega arith

ordered : (c d : ℕ) → (c < d) ⊎ ((d < c) ⊎ (c ≡ d))
ordered c d = ground arith

pub apart : (p c d s r w : ℕ) → s < w → r < w → s < r → p + c * w + s ≢ p + d * w + r
apart p c d s r w h k l = λ (e : p + c * w + s ≡ p + d * w + r). elim (ordered c d) [
  | inl m ↦ omega (arith, e, slot_below c d s w m h)
  | inr (inl m) ↦ omega (arith, e, slot_below d c r w m k)
  | inr (inr m) ↦ omega (arith, e, l, ap (λ v. v * w) m)
]

module _ (f : Format) (single : f.double_up ≡ false) where
  abbrev pub cbs : ℕ
  cbs = channel_buffer_sam f

  spread-next :
      (pdst sam psrct chan n : ℕ) (memory : ℕ → ℕ)
      → spread f pdst sam psrct chan (suc n) memory
        ≡ spread f pdst sam
            (psrct + 1)
            (suc chan)
            n
            (write_word memory (pdst + chan * cbs + sam) (memory psrct))
  unfolding spread
  spread-next pdst sam psrct chan n memory = if_false _ _ single

  -- Nothing but the slots of sample `sam` changes.
  spread-kept :
      (pdst sam psrct chan n : ℕ) (memory : ℕ → ℕ) (a : ℕ)
      → ((c : ℕ) → chan ≤ c → c < chan + n → a ≢ pdst + c * cbs + sam)
      → spread f pdst sam psrct chan n memory a ≡ memory a
  unfolding spread
  spread-kept pdst sam psrct chan zero memory a h = refl
  spread-kept pdst sam psrct chan (suc n) memory a h =
      ap (λ m. m a) (spread-next pdst sam psrct chan n memory)
      ∙ spread-kept pdst sam (psrct + 1) (suc chan) n _ a
          (λ c l m. h c (omega (arith, l)) (omega (arith, m)))
      ∙ if_false _ _ (ne→== a _ (h chan (omega arith) (omega arith)))

  -- Channel `c` of the sample goes to its slot.
  spread-moved :
      (pdst sam psrct chan n c : ℕ) (memory : ℕ → ℕ)
      → 0 < cbs
      → ((d : ℕ) → d < chan + n → pdst + d * cbs + sam < psrct)
      → chan ≤ c
      → c < chan + n
      → spread f pdst sam psrct chan n memory (pdst + c * cbs + sam) ≡ memory (psrct + (c - chan))
  spread-moved pdst sam psrct chan zero c memory w h l m = absurd (omega (arith, l, m))
  spread-moved pdst sam psrct chan (suc n) c memory w h l m =
      let at = pdst + chan * cbs + sam in
      ap (λ v. v (pdst + c * cbs + sam)) (spread-next pdst sam psrct chan n memory)
      ∙ elim (same_or_later chan c l) [
        | inl e ↦
            spread-kept pdst sam (psrct + 1) (suc chan) n _ (pdst + c * cbs + sam)
              (λ d i j x. omega (arith, x, e, slot_below c d 0 cbs (omega (arith, i, e)) w))
            ∙ if_true _ _ (eq→== _ _ (ap (λ v. pdst + v * cbs + sam) e))
            ∙ ap memory (omega (arith, e))
        | inr g ↦
            spread-moved pdst sam (psrct + 1) (suc chan) n c _ w
              (λ d j. omega (arith, h d (omega (arith, j)))) g (omega (arith, m))
            ∙ if_false _ _ (ne→== _ at (λ x. omega (arith, x, h chan (omega arith))))
            ∙ ap memory (omega (arith, g))
      ]

  harvest-next :
      (pdst sam psrc n : ℕ) (memory : ℕ → ℕ) (esf : List EsEntry)
      → harvest f pdst sam psrc (suc n) (memory, esf)
        ≡ harvest f pdst
            (sam + 1)
            (psrc + f.nchan)
            n
            (spread f pdst sam psrc 0 f.nchan memory, log_es f memory psrc esf)
  unfolding harvest
  harvest-next pdst sam psrc n memory esf =
      let one : step f ≡ 1 = if_false 2 1 single in
      let whole : psrc + f.nchan * 1 ≡ psrc + f.nchan = omega arith in
      ap₂
        (λ s p.
          harvest f pdst s p n (spread f pdst sam psrc 0 f.nchan memory, log_es f memory psrc esf))
        (ap (λ v. sam + v) one) (ap (λ v. psrc + f.nchan * v) one ∙ whole)

  -- Nothing but the slots of the samples from `sam` on changes.
  pub harvest-kept :
      (pdst sam psrc n : ℕ) (memory : ℕ → ℕ) (esf : List EsEntry) (a : ℕ)
      → ((c s : ℕ) → c < f.nchan → sam ≤ s → s < sam + n → a ≢ pdst + c * cbs + s)
      → (harvest f pdst sam psrc n (memory, esf)).0 a ≡ memory a
  unfolding harvest
  harvest-kept pdst sam psrc zero memory esf a h = refl
  harvest-kept pdst sam psrc (suc n) memory esf a h =
      ap (λ r. r.0 a) (harvest-next pdst sam psrc n memory esf)
      ∙ harvest-kept pdst (sam + 1) (psrc + f.nchan) n _ _ a
          (λ c s i l m. h c s i (omega (arith, l)) (omega (arith, m)))
      ∙ spread-kept pdst sam psrc 0 f.nchan memory a
          (λ c l m. h c sam (omega (arith, m)) (omega arith) (omega arith))

  -- Sample `s` goes to slot `s` of every channel, if the words to come lie above all slots.
  pub harvest-moved :
      (pdst sam psrc n c s : ℕ) (memory : ℕ → ℕ) (esf : List EsEntry)
      → 0 < cbs
      → ((d r : ℕ) → d < f.nchan → r < sam + n → pdst + d * cbs + r < psrc)
      → sam + n ≤ cbs
      → c < f.nchan
      → sam ≤ s
      → s < sam + n
      → (harvest f pdst sam psrc n (memory, esf)).0 (pdst + c * cbs + s)
        ≡ memory (psrc + (s - sam) * f.nchan + c)
  harvest-moved pdst sam psrc zero c s memory esf w h b l i m = absurd (omega (arith, i, m))
  harvest-moved pdst sam psrc (suc n) c s memory esf w h b l i m =
      ap (λ r. r.0 (pdst + c * cbs + s)) (harvest-next pdst sam psrc n memory esf)
      ∙ elim (same_or_later sam s i) [
        | inl e ↦
            harvest-kept pdst (sam + 1) (psrc + f.nchan) n _ _ (pdst + c * cbs + s) (λ d r k p q.
              apart pdst c d s r cbs (omega (arith, b, m)) (omega (arith, b, q))
                (omega (arith, e, p)))
            ∙ ap (λ v. spread f pdst sam psrc 0 f.nchan memory (pdst + c * cbs + v)) e
            ∙ spread-moved pdst sam psrc 0 f.nchan c memory w
                (λ d j. h d sam (omega (arith, j)) (omega arith)) (omega arith) (omega (arith, l))
            ∙ ap memory (
                let none_left : s - sam ≡ 0 = omega (arith, e) in
                omega (arith, ap (λ v. v * f.nchan) none_left))
        | inr g ↦
            harvest-moved pdst (sam + 1) (psrc + f.nchan) n c s _ _ w
              (λ d r j k. omega (arith, h d r j (omega (arith, k)))) (omega (arith, b)) l
              (omega (arith, g)) (omega (arith, m))
            ∙ spread-kept pdst sam psrc 0 f.nchan memory _
                (λ d j k x. omega (arith, x, h d sam (omega (arith, k)) (omega arith)))
            ∙ ap memory (
                let more : s - sam ≡ suc (s - (sam + 1)) = omega (arith, g) in
                omega (arith, ap (λ v. v * f.nchan) more, suc-mul (s - (sam + 1)) f.nchan))
      ]
