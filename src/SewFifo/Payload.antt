-- ===== src/SewFifo/Payload.antt =====
-- The bytes go through the ring in order; what a write into a full ring loses.
use acq400drv.Prelude.{
  ℕ, zero, suc, ◌+◌, ◌*◌, ◌/◌, ◌^◌, get_or, bit_or, bit_and, ◌%◌, ◌≤◌, ◌<◌, ◌≡◌, ◌≢◌, refl, sym, ap,
  ◌∙◌, true, List, [], ◌∷◌, ◌++◌, some, subst, arith, min, length, set, ==_iff,
}
use acq400drv.Bits.{shl32}
use acq400drv.BufferQueue.{Bq, bq_incr, bq_empty, bq_full, bq_get_st, bq_put}
use acq400drv.BufferQueue.Order.{IsValid, next, distance, items_from, items, Took, bq_get_st-items}
use acq400drv.SewFifo.{
  CircBuf, sew_fifo_len, buf_incr, buf_put, buf_get, take_payload, embed, Interval, work, timed_out,
  Arrival, wrote, write_bytes,
}

-- The byte ring as a buffer queue, for the lemmas on these.
abbrev pub as_bq : CircBuf → Bq
as_bq cb = record { buf = cb.buf; head = cb.head; tail = cb.tail; bq_len = sew_fifo_len }

-- A ring of SEW_FIFO_LEN bytes.
abbrev pub IsRing : CircBuf → Type 0
IsRing cb = IsValid 12 (as_bq cb)

-- The bytes in the ring, oldest first, and their number.
abbrev pub bytes : CircBuf → List ℕ
bytes cb = items (as_bq cb)

abbrev pub level : CircBuf → ℕ
level cb = distance (length cb.buf) cb.tail cb.head

put-as_bq : (cb : CircBuf) (x : ℕ) → as_bq (buf_put cb x sew_fifo_len) ≡ bq_put (as_bq cb) (x % 256)
unfolding buf_put buf_incr bq_put bq_incr
put-as_bq cb x = refl

get-as_bq :
    (cb : CircBuf)
    → (as_bq cb).head ≢ (as_bq cb).tail
    → bq_get_st (as_bq cb) ≡ some (as_bq (buf_get cb sew_fifo_len).0, (buf_get cb sew_fifo_len).1)
unfolding buf_get buf_incr bq_get_st bq_empty bq_incr
get-as_bq cb ne = ground arith

length-items_from : (count n : ℕ) (buf : List ℕ) (i : ℕ) → length (items_from n buf i count) ≡ count
length-items_from zero n buf i = refl
length-items_from (suc count) n buf i =
    ap suc (length-items_from count n buf (next n i)) ∙ omega arith

level-bytes : (cb : CircBuf) → length (bytes cb) ≡ level cb
level-bytes cb = length-items_from (level cb) (length cb.buf) cb.buf cb.tail

-- What taking a byte leaves.
record GotByte (cb cb' : CircBuf) (x : ℕ) : Type 0 where
  ring : IsRing cb'
  order : bytes cb ≡ x ∷ bytes cb'
  lower : level cb ≡ suc (level cb')

buf_get-GotByte :
    (cb : CircBuf)
    → IsRing cb
    → 0 < level cb
    → let (cb', x) = buf_get cb sew_fifo_len in GotByte cb cb' x
buf_get-GotByte cb v some_left =
    let cb' : CircBuf = (buf_get cb sew_fifo_len).0 in
    let x : ℕ = (buf_get cb sew_fifo_len).1 in
    let ne : cb.head ≢ cb.tail = λ e. ground arith in
    let took : Took 12 (as_bq cb) (some (as_bq cb', x)) =
      subst (Took 12 (as_bq cb)) (get-as_bq cb ne) (bq_get_st-items 12 (as_bq cb) v) in
    record {
      ring = took.0;
      order = took.1;
      lower = sym (level-bytes cb) ∙ ap length took.1 ∙ omega (arith, level-bytes cb');
    }

-- Bytes taken are those at the head of the ring, in order.
record TookPayload (n : ℕ) (cb cb' : CircBuf) (xs : List ℕ) : Type 0 where
  ring : IsRing cb'
  order : bytes cb ≡ xs ++ bytes cb'
  number : length xs ≡ n

take_payload-TookPayload :
    (n : ℕ) (cb : CircBuf)
    → IsRing cb
    → n ≤ level cb
    → let (cb', xs) = take_payload n cb in TookPayload n cb cb' xs
unfolding take_payload
take_payload-TookPayload zero cb v h = record { ring = v; order = refl; number = refl }
take_payload-TookPayload (suc n) cb v h =
    let g = buf_get-GotByte cb v (omega arith) in
    let cb1 : CircBuf = (buf_get cb sew_fifo_len).0 in
    let x : ℕ = (buf_get cb sew_fifo_len).1 in
    let rest = take_payload-TookPayload n cb1 g.ring (omega (arith, g.lower)) in
    record {
      ring = rest.ring;
      order = g.order ∙ ap (λ l. x ∷ l) rest.order;
      number = omega (arith, rest.number);
    }

-- An interval's word and ring: `xs` is the payload.
pub record Embedded (unused modulo_count : ℕ) (cb : CircBuf) (i : Interval) : Type 0 where
  pub xs : List ℕ
  pub ring : IsRing i.ring
  pub order : bytes cb ≡ xs ++ bytes i.ring
  pub number : length xs ≡ min (level cb) 3
  pub byte0 : i.word % 256 ≡ bit_or (shl32 modulo_count 2) (length xs) % 256
  pub byte1 : i.word / 2 ^ 8 % 256 ≡ get_or xs 0 unused % 256
  pub byte2 : i.word / 2 ^ 16 % 256 ≡ get_or xs 1 unused % 256
  pub byte3 : i.word / 2 ^ 24 ≡ get_or xs 2 unused % 256
  pub next : (i.modulo_count ≡ bit_and (modulo_count + 1) 0x3f) × (i.unused ≡ 0x20)

-- The four bytes of a word.
word_bytes :
    (a b c d : ℕ)
    → let w = a % 256 + b % 256 * 2 ^ 8 + c % 256 * 2 ^ 16 + d % 256 * 2 ^ 24 in
      (w % 256 ≡ a % 256)
      × (w / 2 ^ 8 % 256 ≡ b % 256)
      × (w / 2 ^ 16 % 256 ≡ c % 256)
      × (w / 2 ^ 24 ≡ d % 256)
word_bytes a b c d = (omega arith, omega arith, omega arith, omega arith)

-- An interval of `acq400_sew_fifo_work` embeds the oldest bytes of the ring in its word, in order,
-- three of them or as many as there are, and leaves the others in the ring. The lowest byte of the word
-- has the count of intervals and of payload bytes, the next three have the payload, the first byte lowest,
-- and where there is none what the interval found there, which is 0x20 for the next one. CIRC_CNT gives
-- the ring's level.
pub work-Embedded :
    (circ_cnt : ℕ → ℕ → ℕ → ℕ) (unused modulo_count : ℕ) (cb : CircBuf)
    → IsRing cb
    → circ_cnt cb.head cb.tail sew_fifo_len ≡ level cb
    → Embedded unused modulo_count cb (work circ_cnt unused modulo_count cb)
unfolding work embed
work-Embedded circ_cnt unused modulo_count cb v c =
    let n : ℕ = min (circ_cnt cb.head cb.tail sew_fifo_len) 3 in
    let t = take_payload-TookPayload n cb v (omega (arith, c)) in
    let xs : List ℕ = (take_payload n cb).1 in
    let b =
      word_bytes (bit_or (shl32 modulo_count 2) n) (get_or xs 0 unused) (get_or xs 1 unused)
        (get_or xs 2 unused) in
    record {
      xs = (take_payload n cb).1;
      ring = t.ring;
      order = t.order;
      number = t.number ∙ ap (λ l. min l 3) c;
      byte0 = b.0 ∙ ap (λ l. bit_or (shl32 modulo_count 2) l % 256) (sym t.number);
      byte1 = b.1;
      byte2 = b.2;
      byte3 = b.3;
      next = (refl, refl);
    }

distance_self : (n t : ℕ) → distance n t t ≡ 0
distance_self n t = ground arith

put_full-items : (bq : Bq) (k x : ℕ) → IsValid k bq → bq_full bq ≡ true → items (bq_put bq x) ≡ []
unfolding bq_full bq_put
put_full-items bq k x v f =
    let same : bq_incr bq bq.head ≡ bq.tail = (==_iff _ _).0 f in
    rw (same, distance_self (length (set bq.buf bq.head x)) bq.tail) refl

-- `acq400_sew_fifo_write_bytes` of a byte whose wait for space times out, the ring still full,
-- reports the byte as written, and leaves the ring empty: every byte in it is lost.
write_bytes-lost :
    (a : Arrival) (cb : CircBuf) (x : ℕ)
    → a.user_byte ≡ some x
    → a.waited ≡ timed_out
    → IsRing (a.during_wait cb)
    → bq_full (as_bq (a.during_wait cb)) ≡ true
    → let (cb', result) = write_bytes (a ∷ []) 0 cb in (bytes cb' ≡ []) × (result ≡ wrote 1)
unfolding write_bytes
write_bytes-lost a cb x u w v f =
    rw (u, w)
      (
        ap items (put-as_bq (a.during_wait cb) x)
            ∙ put_full-items (as_bq (a.during_wait cb)) 12 (x % 256) v f,
        refl,
      )
