-- ===== src/SewFifo.antt =====
-- acq400_sewfifo.c: bytes that users write are embedded in the data stream, three a word. The byte
-- ring is a `struct circ_buf` of the kernel, with `buf_put` and `buf_get` of acq400_structs.h. What
-- the writer meets at each byte, and CIRC_CNT, are parameters.
pub mod Payload
use acq400drv.Prelude.{
  ℕ, zero, suc, ◌+◌, ◌-◌, ◌*◌, ◌%◌, ◌^◌, List, [], ◌∷◌, Option, none, some, bit_and, bit_or, get_or,
  set, min,
}
use acq400drv.Bits.{shl32}

-- `struct circ_buf`
pub record CircBuf : Type 0 where
  pub buf : List ℕ
  pub head : ℕ
  pub tail : ℕ

abbrev pub sew_fifo_len : ℕ
sew_fifo_len = 4096

-- `buf_incr`
pub buf_incr : ℕ → ℕ → ℕ
buf_incr p len = bit_and (p + 1) (len - 1)

-- `buf_put`, of a byte.
pub buf_put : CircBuf → ℕ → ℕ → CircBuf
unfolding buf_incr
buf_put cb x len = record cb { buf = set cb.buf cb.head (x % 256); head = buf_incr cb.head len }

pub buf_get : CircBuf → ℕ → CircBuf × ℕ
unfolding buf_incr
buf_get cb len = (record cb { tail = buf_incr cb.tail len }, get_or cb.buf cb.tail 0)

-- The loop of `acq400_sew_fifo_work` that takes the payload.
pub take_payload : ℕ → CircBuf → CircBuf × List ℕ
unfolding buf_get
take_payload zero cb = (cb, [])
take_payload (suc n) cb =
    let (cb1, x) = buf_get cb sew_fifo_len in let (cb2, xs) = take_payload n cb1 in (cb2, x ∷ xs)

-- PAYLOAD_EMPTY
abbrev pub payload_empty : ℕ
payload_empty = 0x20

-- The word `xx.lw` of the bytes, the lowest first; `unused` is what stands in the others.
pub embed : ℕ → ℕ → ℕ → List ℕ → ℕ
embed unused modulo_count payload_count xs =
    bit_or (shl32 modulo_count 2) payload_count % 256
    + get_or xs 0 unused % 256 * 2 ^ 8
    + get_or xs 1 unused % 256 * 2 ^ 16
    + get_or xs 2 unused % 256 * 2 ^ 24

-- What one interval of `acq400_sew_fifo_work` does: the ring, the word written to the device, and
-- what the next one finds: its `modulo_count`, and the bytes of `xx`.
pub record Interval : Type 0 where
  pub ring : CircBuf
  pub word : ℕ
  pub modulo_count : ℕ
  pub unused : ℕ

module _ (circ_cnt : ℕ → ℕ → ℕ → ℕ) where
  -- `unused` is 0 in the first interval.
  pub work : ℕ → ℕ → CircBuf → Interval
  unfolding take_payload embed
  work unused modulo_count cb =
      let payload_count = min (circ_cnt cb.head cb.tail sew_fifo_len) 3 in
      let (cb', xs) = take_payload payload_count cb in
      record {
        ring = cb';
        word = embed unused modulo_count payload_count xs;
        modulo_count = bit_and (modulo_count + 1) 0x3f;
        unused = payload_empty;
      }

-- How a wait for space ended: with space, by its timeout, or by a signal.
pub data Waited : Type 0 where
  has_space timed_out interrupted : Waited

-- One byte to write: what `get_user` gave, `none` on a fault, and what happened during the wait.
pub record Arrival : Type 0 where
  pub user_byte : Option ℕ
  pub during_wait : CircBuf → CircBuf
  pub waited : Waited

-- What `acq400_sew_fifo_write_bytes` returns.
pub data WriteResult : Type 0 where
  wrote : ℕ → WriteResult
  efault erestartsys : WriteResult

-- The loop of `acq400_sew_fifo_write_bytes`, with `iwrite` bytes written so far: after a timeout the
-- byte is put all the same.
pub write_bytes : List Arrival → ℕ → CircBuf → CircBuf × WriteResult
unfolding buf_put
write_bytes [] iwrite cb = (cb, wrote iwrite)
write_bytes (a ∷ rest) iwrite cb = elim a.user_byte [
  | none ↦ (cb, efault)
  | some tmp ↦
      let cb1 = a.during_wait cb in
      elim a.waited [
        | interrupted ↦ (cb1, erestartsys)
        | timed_out ↦ write_bytes rest (iwrite + 1) (buf_put cb1 tmp sew_fifo_len)
        | has_space ↦ write_bytes rest (iwrite + 1) (buf_put cb1 tmp sew_fifo_len)
      ]
]
