-- ===== src/Transpose/Moves.antt =====
-- acq400_stream.cpp, `Demuxer::demux`: where the samples of one buffer and of those after it go.
use native.Mathlib.Nat.{suc-mul, add-mul}
use acq400drv.Prelude.{
  ℕ, zero, suc, ◌+◌, ◌-◌, ◌*◌, ◌<◌, ◌≤◌, ◌≡◌, ◌⊎◌, inl, inr, refl, arith, ap, sym, ◌∙◌,
}
use acq400drv.Transpose.{Format, get_base}
use acq400drv.Transpose.Buffers.{Whole, base_lem, slot_top, Filled}

pub cut : (a b : ℕ) → (a < b) ⊎ (b ≤ a)
cut a b = omega arith

first_or_later : (q : ℕ) → (q ≡ 0) ⊎ ((p : ℕ) × (q ≡ suc p))
first_or_later zero = inl refl
first_or_later (suc p) = inr (p, refl)

module _ (f : Format) (size : ℕ) (z : Whole f size) where
  -- `n` samples from `start` on have gone to the buffers from `ibuf` on, after the `done` samples that it has:
  -- sample `r` of buffer `ibuf + q` stands in the part of each channel at place `r`.
  pub record Moved (ibuf done n start : ℕ) (memory after : ℕ → ℕ) : Type 0 where
    pub moved :
        (q r c : ℕ)
        → r < size
        → c < f.nchan
        → done ≤ q * size + r
        → q * size + r < done + n
        → after (get_base f (ibuf + q) + c * size + r)
          ≡ memory (start + (q * size + r - done) * f.nchan + c)
    pub before : (a : ℕ) → a < get_base f ibuf → after a ≡ memory a
    pub earlier :
        (c r : ℕ)
        → c < f.nchan
        → r < done
        → after (get_base f ibuf + c * size + r) ≡ memory (get_base f ibuf + c * size + r)

  in_first :
      (ibuf q c r : ℕ)
      → q ≡ 0
      → get_base f (ibuf + q) + c * size + r ≡ get_base f ibuf + c * size + r
  in_first ibuf q c r e = ap (λ v. get_base f v + c * size + r) (omega (arith, e))

  number_first : (q r : ℕ) → q ≡ 0 → q * size + r ≡ r
  number_first q r e = omega (arith, ap (λ v. v * size) e)

  number_later : (q p r : ℕ) → q ≡ suc p → q * size + r ≡ size + (p * size + r)
  number_later q p r e = omega (arith, ap (λ v. v * size) e, suc-mul p size)

  pub Filled-Moved :
      (ibuf done n start : ℕ) (memory after : ℕ → ℕ)
      → done + n ≤ size
      → Filled f size z ibuf done n start memory after
      → Moved ibuf done n start memory after
  Filled-Moved ibuf done n start memory after h k = record {
    moved = λ q r c l i j m. elim (first_or_later q) [
      | inl e ↦
          let num = number_first q r e in
          ap after (in_first ibuf q c r e)
          ∙ k.moved c r i (omega (arith, num, j)) (omega (arith, num, m))
          ∙ ap (λ v. memory (start + (v - done) * f.nchan + c)) (sym num)
      | inr (p, e) ↦ absurd (omega (arith, m, h, l, number_later q p r e))
    ];
    before = k.before;
    earlier = k.earlier;
  }

  pub Moved-next :
      (ibuf done n start : ℕ) (memory middle after : ℕ → ℕ)
      → done < size
      → size ≤ done + n
      → get_base f (ibuf + 1) + done * f.nchan ≤ start
      → Filled f size z ibuf done (size - done) start memory middle
      → Moved (ibuf + 1) 0 (n - (size - done)) (start + (size - done) * f.nchan) middle after
      → Moved ibuf done n start memory after
  Moved-next ibuf done n start memory middle after l h ahead k more = record {
    moved = λ q r c i j m o. elim (first_or_later q) [
      | inl e ↦
          let num = number_first q r e in
          ap after (in_first ibuf q c r e)
          ∙ more.before _ (slot_top f size z ibuf c r j i)
          ∙ k.moved c r j (omega (arith, num, m)) (omega (arith, i, l))
          ∙ ap (λ v. memory (start + (v - done) * f.nchan + c)) (sym num)
      | inr (p, e) ↦
          let num = number_later q p r e in
          let counted : q * size + r - done ≡ (size - done) + (p * size + r - 0) =
            omega (arith, num, l) in
          ap after (ap (λ v. get_base f v + c * size + r) (omega (arith, e)))
          ∙ more.moved p r c i j (omega arith) (omega (arith, o, num, h))
          ∙ k.ahead _ (omega (arith, ahead))
          ∙ ap memory (
              omega (
                arith,
                ap (λ v. v * f.nchan) counted,
                add-mul (size - done) (p * size + r - 0) f.nchan,
              ))
    ];
    before = λ a i. more.before a (omega (arith, i, base_lem f size z ibuf)) ∙ k.before a i;
    earlier = λ c r i j.
        more.before _ (slot_top f size z ibuf c r i (omega (arith, j, l))) ∙ k.earlier c r i j;
  }
