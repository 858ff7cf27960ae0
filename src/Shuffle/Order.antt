-- ===== src/Shuffle/Order.antt =====
-- acq400_stream.cpp, the labelling loops of `sortToLinearBuffer`: the numbers follow the data in time,
-- from the start up to the last buffer and then from the first one of the data on.
use acq400drv.Prelude.{
  if_true, if_false, ℕ, zero, suc, ◌+◌, ◌-◌, ◌<◌, ◌≤◌, ◌≡◌, ◌⊎◌, inl, inr, true, false, List, leb,
  ◌==◌, if◌then◌else◌, refl, arith, ap, Bool-cases, ne→==, ==_iff, sym, subst, ap₂, ◌∙◌,
}
use acq400drv.Shuffle.{
  Mapping, ba, get_buffer, BufferSeq, Buffers, label_loop, label_to_end, label_from_start,
  label_all, unlabelled, to_end, from_start, is_empty_state, is_es,
}
use acq400drv.Shuffle.Cards.{card, Placed}
use acq400drv.Shuffle.Sorting.{Sorting, differ}

-- A loop that ends below `i`, or begins above it, leaves it.
label_loop-outside :
    (body : ℕ → ℕ → BufferSeq → BufferSeq) (ib iseq n : ℕ) (mm : Buffers) (i : ℕ)
    → (i < ib) ⊎ (ib + n ≤ i)
    → label_loop body ib iseq n mm i ≡ mm i
unfolding label_loop
label_loop-outside body ib iseq zero mm i h = refl
label_loop-outside body ib iseq (suc n) mm i h =
    label_loop-outside body (suc ib) (suc iseq) n _ i (omega arith)
    ∙ if_false _ _ (ne→== i ib (λ e. omega (arith, e, h)))

label_loop-inside :
    (body : ℕ → ℕ → BufferSeq → BufferSeq) (ib iseq n : ℕ) (mm : Buffers) (i : ℕ)
    → ib ≤ i
    → i < ib + n
    → label_loop body ib iseq n mm i ≡ body i (iseq + suc (i - ib)) (mm i)
unfolding label_loop
label_loop-inside body ib iseq zero mm i h l = absurd (omega arith)
label_loop-inside body ib iseq (suc n) mm i h l = elim (Bool-cases (i == ib)) [
  | inl e ↦
      let q = (==_iff i ib).0 e in
      label_loop-outside body (suc ib) (suc iseq) n _ i (inl (omega (arith, q)))
      ∙ if_true _ _ e
      ∙ ap (λ v. body v (suc iseq) (mm v)) (sym q)
      ∙ ap (λ v. body i v (mm i)) (omega (arith, q))
  | inr e ↦
      label_loop-inside body (suc ib) (suc iseq) n _ i (omega (arith, differ e)) (omega arith)
      ∙ ap₂ (λ (v : ℕ) (b : BufferSeq). body i v b) (omega (arith, differ e)) (if_false _ _ e)
]

-- What a label for number `q` makes of buffer `ib`.
pub record Labelled (mp : Mapping) (esp ib q : ℕ) (b b' : BufferSeq) : Type 0 where
  pub index : b'.ibuf ≡ b.ibuf
  pub number : b'.iseq ≡ q
  pub bytes : b'.bytes ≡ b.bytes
  pub full : is_empty_state b'.state ≡ false
  pub es : is_es b'.state ≡ (ib == get_buffer mp esp)
  pub event : b'.esp ≡ (if ib == get_buffer mp esp then esp else b.esp)

label_to_end-Labelled :
    (mp : Mapping) (esp ib q : ℕ) (b : BufferSeq)
    → Labelled mp esp ib q b (label_to_end mp esp ib q b)
unfolding label_to_end
label_to_end-Labelled mp esp ib q b = ground arith

label_from_start-Labelled :
    (mp : Mapping) (esp fin ib q : ℕ) (b : BufferSeq)
    → Labelled mp esp ib q b (label_from_start mp esp fin ib q b)
unfolding label_from_start
label_from_start-Labelled mp esp fin ib q b = ground arith

le→leb : (a b : ℕ) → a ≤ b → leb a b ≡ true
le→leb a b h = ground arith

lt→leb : (a b : ℕ) → b < a → leb a b ≡ false
lt→leb a b h = ground arith

pub cut : (a b : ℕ) → (a < b) ⊎ (b ≤ a)
cut a b = omega arith

-- Where the parts are that the capture left: the data begins at `lo`, its newest part ends with `fin`
-- and the oldest begins with `start`; the event is in `ib_esp`, at `esp`.
pub record Corner (mp : Mapping) (esp start finish : ℕ) : Type 0 where
  pub based : 0 < mp.ba0
  pub reserved : 0 < get_buffer mp mp.ba_lo
  pub data_first : get_buffer mp mp.ba_lo ≤ get_buffer mp finish
  pub apart : get_buffer mp finish < get_buffer mp start
  pub start_inside : get_buffer mp start < mp.nbuffers
  pub event_after : ba mp (get_buffer mp esp) ≤ esp
  pub event_inside :
      ((get_buffer mp mp.ba_lo ≤ get_buffer mp esp) × (get_buffer mp esp ≤ get_buffer mp finish))
      ⊎ ((get_buffer mp start ≤ get_buffer mp esp) × (get_buffer mp esp < mp.nbuffers))

module _ (mp : Mapping) (mem : ℕ → List ℕ) (esp start finish : ℕ)
    (c : Corner mp esp start finish) where
  abbrev pub total_seq : ℕ
  total_seq = to_end mp start + from_start mp finish

  -- The buffer that is number `k` in time.
  abbrev pub source : ℕ → ℕ
  source k =
      if leb k (to_end mp start)
      then get_buffer mp start + (k - 1)
      else get_buffer mp mp.ba_lo + (k - to_end mp start - 1)

  abbrev pub labelled : Buffers
  labelled = label_all mp mem esp start finish

  labelled-end :
      (i : ℕ)
      → get_buffer mp start ≤ i
      → i < mp.nbuffers
      → labelled i ≡ label_to_end mp esp i (suc (i - get_buffer mp start)) (unlabelled mem i)
  unfolding label_all
  labelled-end i a b =
      label_loop-outside (label_from_start mp esp (get_buffer mp finish)) _ _ _ _ i
        (inr (omega (arith, c)))
      ∙ label_loop-inside (label_to_end mp esp) _ 0 _ _ i a (omega arith)
      ∙ ap (λ v. label_to_end mp esp i v (unlabelled mem i)) (omega arith)

  labelled-front :
      (i : ℕ)
      → get_buffer mp mp.ba_lo ≤ i
      → i ≤ get_buffer mp finish
      → labelled i
        ≡ label_from_start mp esp
            (get_buffer mp finish)
            i
            (to_end mp start + suc (i - get_buffer mp mp.ba_lo))
            (unlabelled mem i)
  unfolding label_all
  labelled-front i a b =
      label_loop-inside (label_from_start mp esp (get_buffer mp finish)) _ _ _ _ i a
        (omega (arith, b))
      ∙ ap
          (label_from_start mp esp (get_buffer mp finish) i
            (to_end mp start + suc (i - get_buffer mp mp.ba_lo)))
          (label_loop-outside (label_to_end mp esp) _ 0 _ _ i (inl (omega (arith, c))))

  labelled-else :
      (i : ℕ)
      → (i < get_buffer mp mp.ba_lo)
        ⊎ ((get_buffer mp finish < i) × (i < get_buffer mp start))
        ⊎ (mp.nbuffers ≤ i)
      → labelled i ≡ unlabelled mem i
  unfolding label_all
  labelled-else i h =
      label_loop-outside (label_from_start mp esp (get_buffer mp finish)) _ _ _ _ i
        (omega (arith, c, h))
      ∙ label_loop-outside (label_to_end mp esp) _ 0 _ _ i (omega (arith, c, h))

  -- Where an index lies, and what the loops made of its buffer.
  data Zone (i : ℕ) : Type 0 where
    at_end :
        get_buffer mp start ≤ i
        → i < mp.nbuffers
        → Labelled mp esp i (suc (i - get_buffer mp start)) (unlabelled mem i) (labelled i)
        → Zone i
    at_front :
        get_buffer mp mp.ba_lo ≤ i
        → i ≤ get_buffer mp finish
        → Labelled mp esp i
            (to_end mp start + suc (i - get_buffer mp mp.ba_lo))
            (unlabelled mem i)
            (labelled i)
        → Zone i
    elsewhere : labelled i ≡ unlabelled mem i → Zone i

  end_label :
      (i : ℕ)
      → get_buffer mp start ≤ i
      → i < mp.nbuffers
      → Labelled mp esp i (suc (i - get_buffer mp start)) (unlabelled mem i) (labelled i)
  end_label i a b =
      subst (Labelled mp esp i (suc (i - get_buffer mp start)) (unlabelled mem i))
        (sym (labelled-end i a b)) (label_to_end-Labelled mp esp i _ _)

  front_label :
      (i : ℕ)
      → get_buffer mp mp.ba_lo ≤ i
      → i ≤ get_buffer mp finish
      → Labelled mp esp i
          (to_end mp start + suc (i - get_buffer mp mp.ba_lo))
          (unlabelled mem i)
          (labelled i)
  front_label i a b =
      subst
        (Labelled mp esp i (to_end mp start + suc (i - get_buffer mp mp.ba_lo)) (unlabelled mem i))
        (sym (labelled-front i a b)) (label_from_start-Labelled mp esp (get_buffer mp finish) i _ _)

  zone : (i : ℕ) → Zone i
  zone i = elim (cut i (get_buffer mp start)) [
    | inl a ↦ elim (cut i (get_buffer mp mp.ba_lo)) [
      | inl b ↦ elsewhere (labelled-else i (inl b))
      | inr b ↦ elim (cut (get_buffer mp finish) i) [
        | inl d ↦ elsewhere (labelled-else i (inr (inl (d, a))))
        | inr d ↦ at_front b d (front_label i b d)
      ]
    ]
    | inr a ↦ elim (cut i mp.nbuffers) [
      | inl b ↦ at_end a b (end_label i a b)
      | inr b ↦ elsewhere (labelled-else i (inr (inr b)))
    ]
  ]

  Labelled-Placed :
      (i q : ℕ) → Labelled mp esp i q (unlabelled mem i) (labelled i) → Placed mp i (labelled i)
  Labelled-Placed i q l = record {
    index = l.index;
    event = elim (Bool-cases (i == get_buffer mp esp)) [
      | inl e ↦
          let here = (==_iff i (get_buffer mp esp)).0 e in
          inr (omega (arith, c.event_after, l.event ∙ if_true _ _ e, ap (ba mp) (l.index ∙ here)))
      | inr e ↦ inl (l.event ∙ if_false _ _ e)
    ];
  }

  labelled-Placed : (i : ℕ) → Placed mp i (labelled i)
  labelled-Placed i = elim (zone i) [
    | at_end a b l ↦ Labelled-Placed i _ l
    | at_front a b l ↦ Labelled-Placed i _ l
    | elsewhere e ↦ subst (Placed mp i) (sym e) (record { index = refl; event = inl refl })
  ]

  labelled-full : (i : ℕ) → is_empty_state (labelled i).state ≡ false
  labelled-full i = elim (zone i) [
    | at_end a b l ↦ l.full
    | at_front a b l ↦ l.full
    | elsewhere e ↦ rw e refl
  ]

  pub source-early : (k : ℕ) → k ≤ to_end mp start → source k ≡ get_buffer mp start + (k - 1)
  source-early k h = if_true _ _ (le→leb k (to_end mp start) h)

  pub source-late :
      (k : ℕ) → to_end mp start < k → source k ≡ get_buffer mp mp.ba_lo + (k - to_end mp start - 1)
  source-late k h = if_false _ _ (lt→leb k (to_end mp start) h)

  -- A number leads to its buffer.
  labelled-source : (i k : ℕ) → 0 < k → (labelled i).iseq ≡ k → i ≡ source k
  labelled-source i k p e = elim (zone i) [
    | at_end a b l ↦ omega (arith, e, l.number, source-early k (omega (arith, e, l.number)))
    | at_front a b l ↦ omega (arith, e, l.number, source-late k (omega (arith, e, l.number)))
    | elsewhere x ↦ absurd (omega (arith, e, ap (λ b. b.iseq) x))
  ]

  abbrev pub AtSource : ℕ → ℕ → Type 0
  AtSource k i = (0 < i) × (i < mp.nbuffers) × Labelled mp esp i k (unlabelled mem i) (labelled i)

  pub source_lem : (k : ℕ) → 0 < k → k ≤ total_seq → AtSource k (source k)
  source_lem k p q = elim (cut (to_end mp start) k) [
    | inl late ↦
        let i = get_buffer mp mp.ba_lo + (k - to_end mp start - 1) in
        subst (AtSource k) (sym (source-late k late)) (
          omega (arith, c),
          omega (arith, c),
          subst (λ n. Labelled mp esp i n (unlabelled mem i) (labelled i)) (omega arith)
              (front_label i (omega arith) (omega (arith, c, q))),
        )
    | inr early ↦
        let i = get_buffer mp start + (k - 1) in
        subst (AtSource k) (sym (source-early k early)) (
          omega (arith, c),
          omega (arith, c),
          subst (λ n. Labelled mp esp i n (unlabelled mem i) (labelled i)) (omega arith)
              (end_label i (omega arith) (omega (arith, early))),
        )
  ]

  saved_lem : (labelled 0).iseq < 1
  saved_lem = elim (zone 0) [
    | at_end a b l ↦ absurd (omega (arith, a, c))
    | at_front a b l ↦ absurd (omega (arith, a, c))
    | elsewhere x ↦ omega (arith, ap (λ b. b.iseq) x)
  ]

  -- The vector before the first round of the sort.
  pub labelled-Sorting : Sorting mp (λ k. card mp (labelled (source k))) total_seq labelled 1
  labelled-Sorting = record {
    placed = labelled-Placed;
    at = source;
    found = λ k p q. ((source_lem k p q).0, (source_lem k p q).1, refl);
    only = λ i k a b p q e. labelled-source i k p e;
    saved = saved_lem;
    done = λ k p l q. absurd (omega arith);
    full = labelled-full;
  }
