-- ===== src/Shuffle/Sorting.antt =====
-- acq400_stream.cpp, the loop of `sortToLinearBuffer`: it puts the buffer with number `k` at index `k`.
use mathlib.Core.Bool.{true≢false}
use acq400drv.Prelude.{
  if_true, if_false, ℕ, zero, suc, ◌+◌, ◌<◌, ◌≤◌, ◌≡◌, ◌≢◌, inl, inr, Bool, true, false, some, ◌==◌,
  if◌then◌else◌, refl, arith, ap, Bool-cases, eq→==, ne→==, ==_iff, sym, subst, ◌∙◌,
}
use acq400drv.Shuffle.{Mapping, Buffers, swap, find_seq, sort_loop, is_empty_state}
use acq400drv.Shuffle.Cards.{Card, card, Placed, swap-AllPlaced, card-swap}

pub differ : {a b : ℕ} → (a == b) ≡ false → a ≢ b
differ {a} {b} h e = true≢false (sym (eq→== a b e) ∙ h)

find_seq-some :
    (mm : Buffers) (q i n p : ℕ)
    → i ≤ p
    → p < i + n
    → (mm p).iseq ≡ q
    → ((r : ℕ) → i ≤ r → r ≤ p → (mm r).iseq ≡ q → r ≡ p)
    → find_seq mm q i n ≡ some (mm p).ibuf
unfolding find_seq
find_seq-some mm q i zero p le lt e only = absurd (omega arith)
find_seq-some mm q i (suc n) p le lt e only = elim (Bool-cases ((mm i).iseq == q)) [
  | inl h ↦ rw (h, only i (omega arith) le ((==_iff (mm i).iseq q).0 h)) refl
  | inr h ↦
      rw h
        (find_seq-some mm q (suc i) n p (next h) (omega arith) e (λ r g l. only r (omega arith) l))
]
  where
    next : ((mm i).iseq == q) ≡ false → suc i ≤ p
    next h = omega (arith, λ (x : i ≡ p). differ h (ap (λ r. (mm r).iseq) x ∙ e))

full_if :
    (b : Bool) (x y : Card)
    → is_empty_state x.state ≡ false
    → is_empty_state y.state ≡ false
    → is_empty_state (if b then x else y).state ≡ false
full_if true x y p q = p
full_if false x y p q = q

-- The vector before round `j`. `at k` is the index of the buffer with number `k`, of `count`.
pub record Sorting (mp : Mapping) (orig : ℕ → Card) (count : ℕ) (mm : Buffers) (j : ℕ)
    : Type 0 where
  pub placed : (i : ℕ) → Placed mp i (mm i)
  pub at : ℕ → ℕ
  pub found :
      (k : ℕ)
      → 0 < k
      → k ≤ count
      → (0 < at k) × (at k < mp.nbuffers) × (card mp (mm (at k)) ≡ orig k)
  pub only : (i k : ℕ) → 0 < i → i < mp.nbuffers → 0 < k → k ≤ count → (mm i).iseq ≡ k → i ≡ at k
  pub saved : (mm 0).iseq < j
  pub done : (k : ℕ) → 0 < k → k < j → k ≤ count → at k ≡ k
  pub full : (i : ℕ) → is_empty_state (mm i).state ≡ false

sort_loop-suc :
    (mp : Mapping) (mm : Buffers) (j n a : ℕ)
    → find_seq mm j 0 mp.nbuffers ≡ some a
    → is_empty_state (mm j).state ≡ false
    → sort_loop mp mm j (suc n) ≡ sort_loop mp (swap mp mm a j 0) (suc j) n
unfolding sort_loop
sort_loop-suc mp mm j n a e f = rw (e, sort_loop) (rw f refl)

module _ (mp : Mapping) (pos : 0 < mp.ba0) (orig : ℕ → Card) (count : ℕ)
    (room : count < mp.nbuffers) (numbered : (k : ℕ) → 0 < k → k ≤ count → (orig k).iseq ≡ k) where
  module _ (mm : Buffers) (j : ℕ) (s : Sorting mp orig count mm j) (low : 0 < j)
      (high : j ≤ count) where
    only_j : (r : ℕ) → r ≤ s.at j → (mm r).iseq ≡ j → r ≡ s.at j
    only_j zero l e = absurd (omega (arith, s.saved))
    only_j (suc r) l e =
        s.only (suc r) j (omega arith) (omega (arith, s.found j low high)) low high e

    found_j : find_seq mm j 0 mp.nbuffers ≡ some (s.at j)
    found_j =
        find_seq-some mm j 0 mp.nbuffers (s.at j) (omega arith) (omega (arith, s.found j low high))
          (ap (λ c. c.iseq) (s.found j low high).2 ∙ numbered j low high) (λ r g l. only_j r l)
        ∙ ap some (s.placed (s.at j)).index

    -- Where the buffers are after the round, and the vector.
    at_next : ℕ → ℕ
    at_next k = if k == j then j else if s.at k == j then s.at j else s.at k

    next : Buffers
    next = swap mp mm (s.at j) j 0

    from_pos : s.at j ≢ 0
    from_pos e = omega (arith, e, s.found j low high)

    card-next :
        (i : ℕ)
        → card mp (next i) ≡ (
            if i == j
            then card mp (mm (s.at j))
            else if i == s.at j
            then card mp (mm j)
            else if i == 0
            then card mp (mm (s.at j))
            else card mp (mm i))
    unfolding next
    card-next i = card-swap mp pos mm (s.at j) j 0 i s.placed from_pos (λ e. omega (arith, e))

    card-next_j : card mp (next j) ≡ orig j
    card-next_j = card-next j ∙ if_true _ _ (eq→== j j refl) ∙ (s.found j low high).2

    card-next_from : s.at j ≢ j → card mp (next (s.at j)) ≡ card mp (mm j)
    card-next_from ne =
        card-next (s.at j)
        ∙ if_false _ _ (ne→== (s.at j) j ne)
        ∙ if_true _ _ (eq→== (s.at j) (s.at j) refl)

    card-next_other : (i : ℕ) → i ≢ j → i ≢ s.at j → i ≢ 0 → card mp (next i) ≡ card mp (mm i)
    card-next_other i a b c =
        card-next i
        ∙ if_false _ _ (ne→== i j a)
        ∙ if_false _ _ (ne→== i (s.at j) b)
        ∙ if_false _ _ (ne→== i 0 c)

    apart : (k : ℕ) → 0 < k → k ≤ count → k ≢ j → s.at k ≢ s.at j
    apart k p q ne e = ne (
        sym (numbered k p q)
        ∙ ap (λ c. c.iseq)
            (sym (s.found k p q).2 ∙ ap (λ i. card mp (mm i)) e ∙ (s.found j low high).2)
        ∙ numbered j low high)

    at_next-j : at_next j ≡ j
    unfolding at_next
    at_next-j = if_true _ _ (eq→== j j refl)

    at_next-moved : (k : ℕ) → k ≢ j → s.at k ≡ j → at_next k ≡ s.at j
    unfolding at_next
    at_next-moved k a b = if_false _ _ (ne→== k j a) ∙ if_true _ _ (eq→== (s.at k) j b)

    at_next-same : (k : ℕ) → k ≢ j → s.at k ≢ j → at_next k ≡ s.at k
    unfolding at_next
    at_next-same k a b = if_false _ _ (ne→== k j a) ∙ if_false _ _ (ne→== (s.at k) j b)

    At : ℕ → ℕ → Type 0
    At k i = (0 < i) × (i < mp.nbuffers) × (card mp (next i) ≡ orig k)

    found_next : (k : ℕ) → 0 < k → k ≤ count → At k (at_next k)
    unfolding At
    found_next k p q = elim (Bool-cases (k == j)) [
      | inl e ↦
          let kj = (==_iff k j).0 e in
          subst (At k) (sym (ap at_next kj ∙ at_next-j))
            (low, omega arith, card-next_j ∙ ap orig (sym kj))
      | inr e ↦ elim (Bool-cases (s.at k == j)) [
        | inl f ↦
            let aj = (==_iff (s.at k) j).0 f in
            subst (At k) (sym (at_next-moved k (differ e) aj)) (
              (s.found j low high).0,
              (s.found j low high).1,
              card-next_from (λ z. apart k p q (differ e) (aj ∙ sym z))
                  ∙ ap (λ i. card mp (mm i)) (sym aj)
                  ∙ (s.found k p q).2,
            )
        | inr f ↦ subst (At k) (sym (at_next-same k (differ e) (differ f))) (
          (s.found k p q).0,
          (s.found k p q).1,
          card-next_other (s.at k) (differ f) (apart k p q (differ e))
                (λ z. omega (arith, z, (s.found k p q).0))
              ∙ (s.found k p q).2,
        )
      ]
    ]

    only_next :
        (i k : ℕ) → 0 < i → i < mp.nbuffers → 0 < k → k ≤ count → (next i).iseq ≡ k → i ≡ at_next k
    only_next i k ip il kp kl e = elim (Bool-cases (i == j)) [
      | inl x ↦
          let ij = (==_iff i j).0 x in
          let kj : k ≡ j =
            sym e
            ∙ ap (λ z. (next z).iseq) ij
            ∙ ap (λ c. c.iseq) card-next_j
            ∙ numbered j low high in
          ij ∙ sym (ap at_next kj ∙ at_next-j)
      | inr x ↦ elim (Bool-cases (i == s.at j)) [
        | inl y ↦
            let ia = (==_iff i (s.at j)).0 y in
            let ne : s.at j ≢ j = λ z. differ x (ia ∙ z) in
            let old : (mm j).iseq ≡ k =
              ap (λ c. c.iseq) (sym (card-next_from ne)) ∙ ap (λ z. (next z).iseq) (sym ia) ∙ e in
            let jk = s.only j k low (omega arith) kp kl old in
            ia ∙ sym (at_next-moved k (λ z. ne (ap s.at (sym z) ∙ sym jk)) (sym jk))
        | inr y ↦
            let old : (mm i).iseq ≡ k =
              ap (λ c. c.iseq)
                (sym (card-next_other i (differ x) (differ y) (λ z. omega (arith, z))))
              ∙ e in
            let ik = s.only i k ip il kp kl old in
            ik ∙ sym (at_next-same k (λ z. differ y (ik ∙ ap s.at z)) (λ z. differ x (ik ∙ z)))
      ]
    ]

    done_next : (k : ℕ) → 0 < k → k < suc j → k ≤ count → at_next k ≡ k
    done_next k p l q = elim (Bool-cases (k == j)) [
      | inl e ↦ let kj = (==_iff k j).0 e in ap at_next kj ∙ at_next-j ∙ sym kj
      | inr e ↦
          let same = s.done k p (omega (arith, differ e)) q in
          at_next-same k (differ e) (λ z. differ e (sym same ∙ z)) ∙ same
    ]

    saved_next : (next 0).iseq < suc j
    saved_next =
        let c0 : card mp (next 0) ≡ orig j =
          card-next 0
          ∙ if_false _ _ (ne→== 0 j (λ e. omega (arith, e)))
          ∙ if_false _ _ (ne→== 0 (s.at j) (λ e. from_pos (sym e)))
          ∙ (s.found j low high).2 in
        omega (arith, ap (λ c. c.iseq) c0, numbered j low high)

    full_next : (i : ℕ) → is_empty_state (next i).state ≡ false
    full_next i =
        let held = λ (v : ℕ). card mp (mm v) in
        let a = s.at j in
        let last = if i == 0 then held a else held i in
        ap (λ (c : Card). is_empty_state c.state) (card-next i)
        ∙ full_if (i == j) (held a) (if i == a then held j else last) (s.full a) (
            full_if (i == a) (held j) last (s.full j)
              (full_if (i == 0) (held a) (held i) (s.full a) (s.full i)))

    next-Sorting : Sorting mp orig count next (suc j)
    unfolding next At
    next-Sorting = record {
      placed = swap-AllPlaced mp pos mm (s.at j) j 0 s.placed;
      at = at_next;
      found = found_next;
      only = only_next;
      saved = saved_next;
      done = done_next;
      full = full_next;
    }

  -- The loop ends with every buffer at its number.
  pub sort_loop-Sorting :
      (n : ℕ) (mm : Buffers) (j : ℕ)
      → 0 < j
      → j + n ≡ suc count
      → Sorting mp orig count mm j
      → (r : Buffers) × (sort_loop mp mm j n ≡ some r) × Sorting mp orig count r (suc count)
  unfolding sort_loop next
  sort_loop-Sorting zero mm j low e s =
      let same : j ≡ suc count = omega (arith, e) in
      (mm, refl, subst (Sorting mp orig count mm) same s)
  sort_loop-Sorting (suc n) mm j low e s =
      let high : j ≤ count = omega (arith, e) in
      let (r, runs, sorted) =
        sort_loop-Sorting n (next mm j s low high) (suc j) (omega arith) (omega (arith, e))
          (next-Sorting mm j s low high) in
      (r, sort_loop-suc mp mm j n (s.at j) (found_j mm j s low high) (s.full j) ∙ runs, sorted)
