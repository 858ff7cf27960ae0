-- ===== src/BufferQueue/Notify.antt =====
-- acq400_drv.c, `acq400_bq_notify`: what each client of the stream gets.
use acq400drv.Prelude.{
  true, ap₂, sym, ◌≤◌, ℕ, ◌+◌, ◌-◌, ◌^◌, ◌<◌, ◌≡◌, ◌≢◌, ◌⊎◌, subst, refl, ap, ◌∙◌, false, ◌||◌,
  List, [], ◌∷◌, ◌++◌, arith, inl, inr, Bool-cases, ne→==, ltb,
}
use acq400drv.BufferQueue.{
  Bq, BqWrapper, bq_full, bq_clear, bq_space, bq_count, notify_one, notify_clients, bq_notify,
}
use acq400drv.BufferQueue.Order.{IsValid, next, bq_incr-next, distance, items, bq_put-items}

-- What the kernel documents of CIRC_CNT and CIRC_SPACE, for a size that is a power of two.
pub record CircLaws (circ_cnt circ_space : ℕ → ℕ → ℕ → ℕ) : Type 0 where
  pub count :
      (k head tail : ℕ)
      → head < 2 ^ k
      → tail < 2 ^ k
      → circ_cnt head tail (2 ^ k) ≡ distance (2 ^ k) tail head
  pub space :
      (k head tail : ℕ)
      → head < 2 ^ k
      → tail < 2 ^ k
      → circ_space head tail (2 ^ k) + circ_cnt head tail (2 ^ k) + 1 ≡ 2 ^ k

bq_full-next :
    (k : ℕ) (bq : Bq) → IsValid k bq → next (2 ^ k) bq.head ≢ bq.tail → bq_full bq ≡ false
unfolding bq_full
bq_full-next k bq v ne = rw (bq_incr-next k bq bq.head v v.head_in) (ne→== _ _ ne)

clear-IsValid : (k : ℕ) (bq : Bq) → 1 < 2 ^ k → IsValid k bq → IsValid k (bq_clear bq)
unfolding bq_clear
clear-IsValid k bq big v = record {
  size = v.size;
  slots = v.slots;
  head_in = omega arith;
  tail_in = omega arith;
}

clear-items : (k : ℕ) (bq : Bq) → IsValid k bq → items (bq_clear bq) ≡ []
unfolding bq_clear
clear-items k bq v = refl

-- How many buffers wait in a client's queue.
abbrev pub waiting : ℕ → Bq → ℕ
waiting k bq = distance (2 ^ k) bq.tail bq.head

-- Client `bq` has become `bq'`: it has the new buffer after those it had if there is a slot for it and
-- no more than `th` wait, and alone if not.
abbrev pub Got : ℕ → ℕ → ℕ → Bq → Bq → Type 0
Got k th ix bq bq' =
    IsValid k bq'
    × (((waiting k bq + 1 < 2 ^ k) × (waiting k bq ≤ th) × (items bq' ≡ items bq ++ ix ∷ []))
        ⊎ (((2 ^ k ≤ waiting k bq + 1) ⊎ (th < waiting k bq)) × (items bq' ≡ ix ∷ [])))

abbrev pub AllGot : ℕ → ℕ → ℕ → List Bq → List Bq → Type 0
AllGot k th ix [] [] = Unit
AllGot k th ix [] (y ∷ ys) = ⊥
AllGot k th ix (x ∷ xs) [] = ⊥
AllGot k th ix (x ∷ xs) (y ∷ ys) = Got k th ix x y × AllGot k th ix xs ys

abbrev pub AllValid : ℕ → List Bq → Type 0
AllValid k [] = Unit
AllValid k (x ∷ xs) = IsValid k x × AllValid k xs

module _ (circ_cnt circ_space : ℕ → ℕ → ℕ → ℕ) (laws : CircLaws circ_cnt circ_space) where
  -- A queue with space has a free slot after its head.
  space_next :
      (k : ℕ) (bq : Bq)
      → IsValid k bq
      → ltb (bq_space circ_cnt circ_space bq) 1 ≡ false
      → next (2 ^ k) bq.head ≢ bq.tail
  unfolding bq_space
  space_next k bq v e z =
      let space = laws.space k bq.head bq.tail v.head_in v.tail_in in
      let count = laws.count k bq.head bq.tail v.head_in v.tail_in in
      let some_space : 0 < circ_space bq.head bq.tail (2 ^ k) =
        subst (λ n. 0 < circ_space bq.head bq.tail n) v.size (ground arith) in
      ground arith

  -- The test of `acq400_bq_notify`, in numbers of buffers.
  count_lem : (k : ℕ) (bq : Bq) → IsValid k bq → circ_cnt bq.head bq.tail bq.bq_len ≡ waiting k bq
  count_lem k bq v =
      ap (circ_cnt bq.head bq.tail) v.size ∙ laws.count k bq.head bq.tail v.head_in v.tail_in

  space_lem :
      (k : ℕ) (bq : Bq)
      → IsValid k bq
      → circ_space bq.head bq.tail bq.bq_len + waiting k bq + 1 ≡ 2 ^ k
  space_lem k bq v =
      ap₂ (λ n m. circ_space bq.head bq.tail n + m + 1) v.size
        (sym (laws.count k bq.head bq.tail v.head_in v.tail_in))
      ∙ laws.space k bq.head bq.tail v.head_in v.tail_in

  keeps_up :
      (k th : ℕ) (bq : Bq)
      → IsValid k bq
      → (ltb (bq_space circ_cnt circ_space bq) 1 || ltb th (bq_count circ_cnt circ_space bq))
        ≡ false
      → (waiting k bq + 1 < 2 ^ k) × (waiting k bq ≤ th)
  unfolding bq_space bq_count
  keeps_up k th bq v e =
      let c = count_lem k bq v in let s = space_lem k bq v in ground (arith, e, c, s)

  behind :
      (k th : ℕ) (bq : Bq)
      → IsValid k bq
      → (ltb (bq_space circ_cnt circ_space bq) 1 || ltb th (bq_count circ_cnt circ_space bq)) ≡ true
      → (2 ^ k ≤ waiting k bq + 1) ⊎ (th < waiting k bq)
  unfolding bq_space bq_count
  behind k th bq v e =
      let c = count_lem k bq v in let s = space_lem k bq v in ground (arith, e, c, s)

  notify_one-Got :
      (k th ix : ℕ) (bq : Bq)
      → 1 < 2 ^ k
      → IsValid k bq
      → Got k th ix bq (notify_one circ_cnt circ_space th ix bq).0
  unfolding notify_one bq_space bq_count
  notify_one-Got k th ix bq big v =
      elim (Bool-cases
        (ltb (bq_space circ_cnt circ_space bq) 1 || ltb th (bq_count circ_cnt circ_space bq))) [
          | inl e ↦
              let c = clear-IsValid k bq big v in
              let put =
                bq_put-items k (bq_clear bq) ix c
                  (bq_full-next k (bq_clear bq) c λ z. ground arith) in
              rw e (
                put.0,
                inr (behind k th bq v e, put.1 ∙ ap (λ l. l ++ ix ∷ []) (clear-items k bq v)),
              )
          | inr e ↦
              let not_full = space_next k bq v (ground arith) in
              let put = bq_put-items k bq ix v (bq_full-next k bq v not_full) in
              let (a, b) = keeps_up k th bq v e in rw e (put.0, inl (a, b, put.1))
        ]

  notify_clients-AllGot :
      (k th ix : ℕ) (bqs : List Bq) (w : BqWrapper)
      → 1 < 2 ^ k
      → AllValid k bqs
      → w.bq_clients ≡ []
      → AllGot k th ix bqs (notify_clients circ_cnt circ_space th ix bqs w).bq_clients
  unfolding notify_clients
  notify_clients-AllGot k th ix [] w big v e = rw e tt
  notify_clients-AllGot k th ix (bq ∷ rest) w big v e =
      (notify_one-Got k th ix bq big v.0, notify_clients-AllGot k th ix rest _ big v.1 e)

  -- Every client of `acq400_bq_notify` gets the new buffer as its last: after the buffers that wait in
  -- its queue if the queue has a free slot and no more than `nbuffers` - 2 wait, and alone, those being
  -- thrown away, if not. No queue overflows.
  pub bq_notify-AllGot :
      (k nbuffers ix : ℕ) (w : BqWrapper)
      → 1 < 2 ^ k
      → AllValid k w.bq_clients
      → AllGot k
          (nbuffers - 2)
          ix
          w.bq_clients
          (bq_notify circ_cnt circ_space nbuffers ix w).bq_clients
  unfolding bq_notify
  bq_notify-AllGot k nbuffers ix w big v =
      notify_clients-AllGot k (nbuffers - 2) ix w.bq_clients (record w { bq_clients = [] }) big v
        refl
