-- ===== src/BufferQueue/Order.antt =====
-- The ring of a valid `Bq` is a first-in first-out queue.
use acq400drv.Prelude.{
  ℕ, zero, suc, ◌+◌, ◌-◌, ◌%◌, ◌^◌, ◌<◌, ◌≡◌, ◌≢◌, refl, ap, ◌∙◌, false, List, [], ◌∷◌, ◌++◌,
  Option, none, some, arith, inl, inr, Bool-cases, ◌==◌, ==_iff, eq→==, leb, if◌then◌else◌, get_or,
  set, length, length-set, get_or-set_self, get_or-set_ne,
}
use native.Mathlib.Nat.{mod_self, mod-eq_of_lt}
use acq400drv.Bits.Masks.{bit_and_low}
use acq400drv.BufferQueue.{Bq, bq_incr, bq_empty, bq_full, bq_get_st, bq_put}

-- A ring of `2 ^ k` slots.
pub record IsValid (k : ℕ) (bq : Bq) : Type 0 where
  pub size : bq.bq_len ≡ 2 ^ k
  pub slots : length bq.buf ≡ 2 ^ k
  pub head_in : bq.head < 2 ^ k
  pub tail_in : bq.tail < 2 ^ k

-- The next slot, without the mask.
abbrev pub next : ℕ → ℕ → ℕ
next n i = if i + 1 == n then 0 else i + 1

wrap : (n j : ℕ) → j < n → (j + 1) % n ≡ next n j
wrap n j lt = elim (Bool-cases (j + 1 == n)) [
  | inl e ↦ rw (e, (==_iff (j + 1) n).0 e) (mod_self n)
  | inr e ↦ rw e (mod-eq_of_lt (ground arith))
]

pub bq_incr-next :
    (k : ℕ) (bq : Bq) (i : ℕ) → IsValid k bq → i < 2 ^ k → bq_incr bq i ≡ next (2 ^ k) i
unfolding bq_incr
bq_incr-next k bq i v h = rw (v.size, bit_and_low k (i + 1)) (wrap (2 ^ k) i h)

-- The number of items from slot `t` to slot `h` of a ring of `n`.
abbrev pub distance : ℕ → ℕ → ℕ → ℕ
distance n t h = if leb t h then h - t else h + n - t

-- `count` items from slot `i` on.
abbrev pub items_from : ℕ → List ℕ → ℕ → ℕ → List ℕ
items_from n buf i zero = []
items_from n buf i (suc count) = get_or buf i 0 ∷ items_from n buf (next n i) count

-- The items in the queue, oldest first.
abbrev pub items : Bq → List ℕ
items bq = items_from (length bq.buf) bq.buf bq.tail (distance (length bq.buf) bq.tail bq.head)

items_from-set :
    (count n : ℕ) (buf : List ℕ) (i h x : ℕ)
    → length buf ≡ n
    → i < n
    → h < n
    → distance n i h ≡ count
    → items_from n (set buf h x) i (suc count) ≡ items_from n buf i count ++ x ∷ []
items_from-set zero n buf i h x len hi hh d =
    let same : i ≡ h = ground arith in
    rw same (ap (λ y. y ∷ []) (get_or-set_self buf h x 0 (omega arith)))
items_from-set (suc count) n buf i h x len hi hh d =
    let rest = items_from-set count n buf (next n i) h x len (ground arith) hh (ground arith) in
    let ne : h ≢ i = λ e. ground arith in
    rw (get_or-set_ne buf h i x 0 ne) (ap (λ l. get_or buf i 0 ∷ l) rest)

longer : (n t h : ℕ) → t < n → h < n → next n h ≢ t → distance n t (next n h) ≡ suc (distance n t h)
longer n t h ht hh ne = ground arith

shorter : (n t h : ℕ) → t < n → h < n → h ≢ t → distance n t h ≡ suc (distance n (next n t) h)
shorter n t h ht hh ne = ground arith

-- What is put into a queue that is not full comes after the items already there.
pub bq_put-items :
    (k : ℕ) (bq : Bq) (x : ℕ)
    → IsValid k bq
    → bq_full bq ≡ false
    → IsValid k (bq_put bq x) × (items (bq_put bq x) ≡ items bq ++ x ∷ [])
unfolding bq_full bq_put
bq_put-items k bq x v f =
    let step = bq_incr-next k bq bq.head v v.head_in in
    let n = 2 ^ k in
    let free : next n bq.head ≢ bq.tail = λ e. ground arith in
    let valid : IsValid k (bq_put bq x) = record {
      size = v.size;
      slots = length-set bq.buf bq.head x ∙ v.slots;
      head_in = rw step (ground arith);
      tail_in = v.tail_in;
    } in
    (
      valid,
      rw
          (
            length-set bq.buf bq.head x,
            v.slots,
            step,
            longer n bq.tail bq.head v.tail_in v.head_in free,
          )
          (items_from-set _ n bq.buf bq.tail bq.head x v.slots v.tail_in v.head_in refl),
    )

-- What a `BQ_get_st` of queue `bq` may return.
abbrev pub Took : ℕ → Bq → Option (Bq × ℕ) → Type 0
Took k bq none = items bq ≡ []
Took k bq (some (bq', x)) = IsValid k bq' × (items bq ≡ x ∷ items bq')

-- `BQ_get_st` takes the oldest item, and fails only if there is none.
pub bq_get_st-items : (k : ℕ) (bq : Bq) → IsValid k bq → Took k bq (bq_get_st bq)
unfolding bq_get_st bq_empty
bq_get_st-items k bq v = elim (Bool-cases (bq.head == bq.tail)) [
  | inl e ↦
      let none_queued : distance (length bq.buf) bq.tail bq.head ≡ 0 = ground arith in
      rw (e, none_queued) refl
  | inr e ↦
      let n = 2 ^ k in
      let step = bq_incr-next k bq bq.tail v v.tail_in in
      let ne : bq.head ≢ bq.tail = λ s. ground (arith, eq→== bq.head bq.tail s) in
      let valid : IsValid k (record bq { tail = bq_incr bq bq.tail }) = record {
        size = v.size;
        slots = v.slots;
        head_in = v.head_in;
        tail_in = rw step (ground arith);
      } in
      rw e (valid, rw (v.slots, step, shorter n bq.tail bq.head v.tail_in v.head_in ne) refl)
]
