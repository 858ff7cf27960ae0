-- ===== src/Coalesce/Pairs.antt =====
-- What one pass of `_coalesce_buffers` does with the buffers.
use acq400drv.Prelude.{
  ℕ, zero, suc, ◌+◌, ◌%◌, ◌^◌, ◌<◌, ◌≡◌, refl, List, [], ◌∷◌, ◌++◌, arith, inl, inr, Bool-cases,
  ◌==◌, if◌then◌else◌, count, count-append, length,
}
use acq400drv.Device.{Dev}
use acq400drv.Coalesce.{Coalesced, merge, coalesce_pairs, coalesce_once, Layout, coalesce_buffers}

length-append : (xs ys : List ℕ) → length (xs ++ ys) ≡ length xs + length ys
length-append [] ys = omega arith
length-append (x ∷ xs) ys = omega (arith, length-append xs ys)

-- The counts after the pass over `ps`, from device `d` and `n` buffers so far.
record Accounted (ps : List ℕ) (d : Dev) (n : ℕ) (c : Coalesced) : Type 0 where
  shared : (q : ℕ) → count q c.dev.empties + count q c.left ≡ count q d.empties + count q ps
  number : c.nbuffers + length d.empties ≡ n + length c.dev.empties

coalesce_pairs-Accounted :
    (ps : List ℕ) (d : Dev) (n blen : ℕ) → Accounted ps d n (coalesce_pairs ps d n blen)
unfolding coalesce_pairs
coalesce_pairs-Accounted [] d n blen = record { shared = λ q. refl; number = omega arith }
coalesce_pairs-Accounted (b0 ∷ []) d n blen = record { shared = λ q. refl; number = omega arith }
coalesce_pairs-Accounted (b0 ∷ b1 ∷ rest) d n blen =
    let merged =
      coalesce_pairs-Accounted rest (merge b0 b1 d) (n + 1)
        (if blen == 0 then ((merge b0 b1 d).hbm b0).len else blen) in
    let kept = coalesce_pairs-Accounted rest d n blen in
    elim (Bool-cases ((d.hbm b1).pa == ((d.hbm b0).pa + (d.hbm b0).len) % 2 ^ 32)) [
      | inl e ↦ rw e (record {
        shared = λ q. omega (arith, merged.shared q, count-append q d.empties (b0 ∷ []));
        number = omega (arith, merged.number, length-append d.empties (b0 ∷ []));
      })
      | inr e ↦ rw e (record { shared = λ q. omega (arith, kept.shared q); number = kept.number })
    ]

-- One pass leaves each buffer either in EMPTIES or on the abandoned list, as often as it stood in
-- EMPTIES, and counts in `nbuffers` those in EMPTIES.
pub coalesce_once-shared :
    (d : Dev) (q : ℕ)
    → let c = coalesce_once d in
      (count q c.dev.empties + count q c.left ≡ count q d.empties)
      × (c.nbuffers ≡ length c.dev.empties)
unfolding coalesce_once
coalesce_once-shared d q =
    let a = coalesce_pairs-Accounted d.empties (record d { empties = [] }) 0 0 in
    (omega (arith, a.shared q), omega (arith, a.number))

-- Whatever the factor above 0, `nbuffers` ends as the number of buffers in EMPTIES.
nbuffers-coalesce_buffers :
    (factor : ℕ) (y : Layout)
    → 0 < factor
    → let z = coalesce_buffers factor y in z.nbuffers ≡ length z.device.empties
unfolding coalesce_buffers
nbuffers-coalesce_buffers zero y h = absurd (omega arith)
nbuffers-coalesce_buffers (suc zero) y h = (coalesce_once-shared y.device 0).1
nbuffers-coalesce_buffers (suc (suc factor)) y h =
    let c : Coalesced = coalesce_once y.device in
    nbuffers-coalesce_buffers (suc factor)
      (record { device = c.dev; nbuffers = c.nbuffers; bufferlen = c.bufferlen }) (omega arith)
