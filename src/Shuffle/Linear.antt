-- ===== src/Shuffle/Linear.antt =====
-- acq400_stream.cpp, `sortToLinearBuffer` as a whole: the ring becomes linear from buffer 1 on.
use acq400drv.Prelude.{
  if_true, if_false, ℕ, zero, suc, ◌+◌, ◌-◌, ◌<◌, ◌≤◌, ◌≡◌, ◌⊎◌, inl, inr, true, false, List, some,
  ◌==◌, if◌then◌else◌, refl, arith, ap, eq→==, ne→==, sym, subst, ap₂, ◌∙◌,
}
use acq400drv.Shuffle.{
  Mapping, ba, get_buffer, Buffers, put, clr, find_es, is_es, sort_loop, label_all, sort_to_linear,
  to_end, from_start,
}
use acq400drv.Shuffle.Cards.{Card, card, Placed, event_offset}
use acq400drv.Shuffle.Sorting.{Sorting, sort_loop-Sorting}
use acq400drv.Shuffle.Order.{
  Corner, total_seq, source, labelled, labelled-Sorting, source_lem, source-early, source-late, cut,
}

find_es-some :
    (mm : Buffers) (i n p : ℕ)
    → i ≤ p
    → p < i + n
    → is_es (mm p).state ≡ true
    → ((r : ℕ) → i ≤ r → r < p → is_es (mm r).state ≡ false)
    → find_es mm i n ≡ some (mm p).ibuf
unfolding find_es
find_es-some mm i zero p le lt e none_before = absurd (omega arith)
find_es-some mm i (suc n) p le lt e none_before = elim (cut i p) [
  | inl h ↦
      rw (none_before i (omega arith) h)
        (find_es-some mm (suc i) n p h (omega arith) e (λ r g l. none_before r (omega arith) l))
  | inr h ↦
      let same : p ≡ i = omega arith in
      subst
        (λ v.
          (if is_es (mm i).state then some (mm i).ibuf else find_es mm (suc i) n)
          ≡ some (mm v).ibuf)
        (sym same) (if_true _ _ (subst (λ v. is_es (mm v).state ≡ true) same e))
]

at_offset :
    (mp : Mapping) (k ib esp' esp : ℕ)
    → 0 < mp.ba0
    → ba mp ib ≤ esp
    → (esp' ≡ 0) ⊎ (ba mp k ≤ esp')
    → event_offset mp k esp' ≡ event_offset mp ib esp
    → esp' ≡ ba mp k + (esp - ba mp ib)
at_offset mp k ib esp' esp pos after h e = ground arith

module _ (mp : Mapping) (mem : ℕ → List ℕ) (esp start finish : ℕ)
    (c : Corner mp esp start finish) where
  abbrev pub count : ℕ
  count = total_seq mp mem esp start finish c

  abbrev pub from : ℕ → ℕ
  from = source mp mem esp start finish c

  -- The number of the buffer with the event.
  event_number : (k : ℕ) × (0 < k) × (k ≤ count) × (from k ≡ get_buffer mp esp)
  event_number = elim c.event_inside [
    | inl (a, b) ↦
        let k = to_end mp start + suc (get_buffer mp esp - get_buffer mp mp.ba_lo) in
        (
          k,
          omega arith,
          omega (arith, a, b),
          omega (arith, a, b, source-late mp mem esp start finish c k (omega arith)),
        )
    | inr (a, b) ↦
        let k = suc (get_buffer mp esp - get_buffer mp start) in
        (
          k,
          omega arith,
          omega (arith, a, b),
          omega (arith, a, b, source-early mp mem esp start finish c k (omega (arith, a, b))),
        )
  ]

  orig : ℕ → Card
  orig k = card mp (labelled mp mem esp start finish c (from k))

  numbered : (k : ℕ) → 0 < k → k ≤ count → (orig k).iseq ≡ k
  unfolding orig
  numbered k p q = (source_lem mp mem esp start finish c k p q).2.number

-- The buffers after the sort, and the pointer to the event: buffer `k` holds the bytes that were number
-- `k` in time, and the pointer points to the same byte of the same data as before.
pub record Linear (mp : Mapping) (mem : ℕ → List ℕ) (esp start finish : ℕ)
    (c : Corner mp esp start finish) (mm : Buffers) (esp' : ℕ) : Type 0 where
  pub in_order :
      (k : ℕ)
      → 0 < k
      → k ≤ count mp mem esp start finish c
      → (mm k).bytes ≡ mem (from mp mem esp start finish c k)
  pub event :
      (k : ℕ) × (0 < k)
      × (k ≤ count mp mem esp start finish c)
      × (from mp mem esp start finish c k ≡ get_buffer mp esp)
      × (esp' ≡ ba mp k + (esp - ba mp (get_buffer mp esp)))

module _ (mp : Mapping) (mem : ℕ → List ℕ) (esp start finish : ℕ) (c : Corner mp esp start finish)
    (sorted : Buffers)
    (s : Sorting mp
      (orig mp mem esp start finish c)
      (count mp mem esp start finish c)
      sorted
      (suc (count mp mem esp start finish c))) where
  sorted_card :
      (k : ℕ)
      → 0 < k
      → k ≤ count mp mem esp start finish c
      → card mp (sorted k) ≡ orig mp mem esp start finish c k
  sorted_card k p q =
      ap (λ v. card mp (sorted v)) (sym (s.done k p (omega arith) q)) ∙ (s.found k p q).2

  cleared : Buffers
  cleared = put sorted 0 (clr (sorted 0))

  cleared-pos : (k : ℕ) → 0 < k → cleared k ≡ sorted k
  unfolding cleared
  cleared-pos k p = if_false _ _ (ne→== k 0 (λ e. omega (arith, e)))

  card-cleared :
      (k : ℕ)
      → 0 < k
      → k ≤ count mp mem esp start finish c
      → card mp (cleared k) ≡ orig mp mem esp start finish c k
  card-cleared k p q = ap (card mp) (cleared-pos k p) ∙ sorted_card k p q

  is_es-cleared :
      (k : ℕ)
      → 0 < k
      → k ≤ count mp mem esp start finish c
      → is_es (cleared k).state ≡ (from mp mem esp start finish c k == get_buffer mp esp)
  unfolding orig
  is_es-cleared k p q =
      ap (λ v. is_es v.state) (card-cleared k p q)
      ∙ (source_lem mp mem esp start finish c k p q).2.es

  cleared_bytes :
      (k : ℕ)
      → 0 < k
      → k ≤ count mp mem esp start finish c
      → (cleared k).bytes ≡ mem (from mp mem esp start finish c k)
  unfolding orig
  cleared_bytes k p q =
      ap (λ v. v.bytes) (card-cleared k p q) ∙ (source_lem mp mem esp start finish c k p q).2.bytes

  cleared-Placed : (k : ℕ) → 0 < k → Placed mp k (cleared k)
  cleared-Placed k p = subst (Placed mp k) (sym (cleared-pos k p)) (s.placed k)

  from_injective :
      (j k : ℕ)
      → 0 < j
      → j ≤ count mp mem esp start finish c
      → 0 < k
      → k ≤ count mp mem esp start finish c
      → from mp mem esp start finish c j ≡ from mp mem esp start finish c k
      → j ≡ k
  unfolding orig
  from_injective j k p q p' q' e =
      sym (numbered mp mem esp start finish c j p q)
      ∙ ap (λ v. (card mp (labelled mp mem esp start finish c v)).iseq) e
      ∙ numbered mp mem esp start finish c k p' q'

  module _ (k : ℕ) (p : 0 < k) (q : k ≤ count mp mem esp start finish c)
      (e : from mp mem esp start finish c k ≡ get_buffer mp esp) where
    not_before : (r : ℕ) → r < k → is_es (cleared r).state ≡ false
    unfolding cleared
    not_before zero l = refl
    not_before (suc r) l =
        is_es-cleared (suc r) (omega arith) (omega arith)
        ∙ ne→== _ _ (λ (x : from mp mem esp start finish c (suc r) ≡ get_buffer mp esp).
          omega (arith, from_injective (suc r) k (omega arith) (omega arith) p q (x ∙ sym e)))

    found_es : find_es cleared 0 mp.nbuffers ≡ some k
    found_es =
        find_es-some cleared 0 mp.nbuffers k (omega arith) (omega (arith, c))
          (is_es-cleared k p q ∙ eq→== _ _ e) (λ r g l. not_before r l)
        ∙ ap some (cleared-Placed k p).index

    event_kept : event_offset mp k (cleared k).esp ≡ event_offset mp (get_buffer mp esp) esp
    unfolding orig
    event_kept =
        let l = (source_lem mp mem esp start finish c k p q).2 in
        ap (λ v. event_offset mp v (cleared k).esp) (sym (cleared-Placed k p).index)
        ∙ ap (λ (v : Card). v.event_at) (card-cleared k p q)
        ∙ ap₂ (event_offset mp) (l.index ∙ e) (l.event ∙ if_true _ _ (eq→== _ _ e))

    esp_moved : (cleared k).esp ≡ ba mp k + (esp - ba mp (get_buffer mp esp))
    esp_moved =
        at_offset mp k (get_buffer mp esp) (cleared k).esp esp c.based c.event_after
          (subst (λ v. ((cleared k).esp ≡ 0) ⊎ (ba mp v ≤ (cleared k).esp))
            (cleared-Placed k p).index (cleared-Placed k p).event)
          event_kept

module _ (mp : Mapping) (mem : ℕ → List ℕ) (esp start finish : ℕ)
    (c : Corner mp esp start finish) where
  sort_to_linear-runs :
      (sorted : Buffers) (k : ℕ)
      → sort_loop mp (label_all mp mem esp start finish) 1 (to_end mp start + from_start mp finish)
        ≡ some sorted
      → find_es (put sorted 0 (clr (sorted 0))) 0 mp.nbuffers ≡ some k
      → sort_to_linear mp mem esp start finish
        ≡ some (put sorted 0 (clr (sorted 0)), (put sorted 0 (clr (sorted 0)) k).esp)
  unfolding sort_to_linear
  sort_to_linear-runs sorted k e f = rw (e, sort_to_linear) (rw (f, sort_to_linear) refl)

  -- For a capture that turned the corner, with at least one buffer reserved, its last buffer below its first one,
  -- and the event's buffer in it: `sortToLinearBuffer` does not fail, buffer `k` from 1 on then holds what
  -- was number `k` in time, and `esp` points to the same byte of the event's buffer as before.
  pub sort_to_linear-Linear :
      (r : Buffers × ℕ) × (sort_to_linear mp mem esp start finish ≡ some r)
      × Linear mp mem esp start finish c r.0 r.1
  unfolding cleared orig
  sort_to_linear-Linear =
      let (sorted, runs, s) =
        sort_loop-Sorting mp c.based (orig mp mem esp start finish c)
          (count mp mem esp start finish c) (omega (arith, c)) (numbered mp mem esp start finish c)
          (count mp mem esp start finish c) (labelled mp mem esp start finish c) 1 (omega arith)
          (omega arith) (labelled-Sorting mp mem esp start finish c) in
      let (k, p, q, e) = event_number mp mem esp start finish c in
      (
        (
          cleared mp mem esp start finish c sorted s,
          (cleared mp mem esp start finish c sorted s k).esp,
        ),
        sort_to_linear-runs sorted k runs (found_es mp mem esp start finish c sorted s k p q e),
        record {
          in_order = cleared_bytes mp mem esp start finish c sorted s;
          event = (k, p, q, e, esp_moved mp mem esp start finish c sorted s k p q e);
        },
      )
