-- ===== src/BufferQueue.antt =====
-- acq400_structs.h, `struct BQ`: a ring of buffer numbers between one producer and one consumer, and
-- acq400_drv.c, `acq400_bq_notify`, which gives every client of the stream each new buffer. The
-- kernel's CIRC_CNT and CIRC_SPACE are parameters. `smp_store_release` stores.
pub mod Order
pub mod Notify
use acq400drv.Prelude.{
  ℕ, ◌+◌, ◌-◌, Bool, ◌||◌, List, [], ◌∷◌, Option, none, some, ◌==◌, ltb, if◌then◌else◌, bit_and,
  get_or, set, replicate,
}

pub record Bq : Type 0 where
  pub buf : List ℕ
  pub head : ℕ
  pub tail : ℕ
  pub bq_len : ℕ

-- `BQ_incr`
unfoldable pub bq_incr : Bq → ℕ → ℕ
bq_incr bq cursor = bit_and (cursor + 1) (bq.bq_len - 1)

unfoldable pub bq_empty : Bq → Bool
bq_empty bq = bq.head == bq.tail

unfoldable pub bq_full : Bq → Bool
unfolding bq_incr
bq_full bq = bq_incr bq bq.head == bq.tail

-- `BQ_init`, on a queue that is zero.
pub bq_init : ℕ → Bq
bq_init len = record { buf = replicate len 0; head = 0; tail = 0; bq_len = len }

-- `BQ_get`: on an empty queue it warns, and takes an old item all the same.
pub bq_get : Bq → Bq × ℕ
unfolding bq_incr
bq_get bq = (record bq { tail = bq_incr bq bq.tail }, get_or bq.buf bq.tail 0)

-- `BQ_get_st`; `none` is its -1.
unfoldable pub bq_get_st : Bq → Option (Bq × ℕ)
unfolding bq_empty bq_incr
bq_get_st bq =
    if bq_empty bq
    then none
    else some (record bq { tail = bq_incr bq bq.tail }, get_or bq.buf bq.tail 0)

-- `BQ_put`: on a full queue it warns, and stores all the same.
unfoldable pub bq_put : Bq → ℕ → Bq
unfolding bq_incr
bq_put bq item = record bq { buf = set bq.buf bq.head item; head = bq_incr bq bq.head }

pub bq_clear : Bq → Bq
bq_clear bq = record bq { head = 0; tail = 0 }

-- A client's path descriptor, as far as `acq400_bq_notify` uses it, and the wrapper's statistics.
pub record BqWrapper : Type 0 where
  pub bq_clients : List Bq
  pub bq_overruns : ℕ
  pub bq_max : ℕ

-- The kernel's two macros over head, tail and size.
module _ (circ_cnt circ_space : ℕ → ℕ → ℕ → ℕ) where
  pub bq_space : Bq → ℕ
  bq_space bq = circ_space bq.head bq.tail bq.bq_len

  pub bq_count : Bq → ℕ
  bq_count bq = circ_cnt bq.head bq.tail bq.bq_len

  -- One client gets buffer `ix`. A client that has fallen behind loses its queue first.
  pub notify_one : ℕ → ℕ → Bq → Bq × Bool
  unfolding bq_space bq_count bq_clear bq_put
  notify_one th ix bq =
      let overrun = ltb (bq_space bq) 1 || ltb th (bq_count bq) in
      (bq_put (if overrun then bq_clear bq else bq) ix, overrun)

  -- The loop over the clients.
  pub notify_clients : ℕ → ℕ → List Bq → BqWrapper → BqWrapper
  unfolding notify_one bq_count
  notify_clients th ix [] w = w
  notify_clients th ix (bq ∷ rest) w =
      let nq = bq_count bq in
      let (bq', overrun) = notify_one th ix bq in
      let w' = notify_clients th ix rest (record w {
        bq_overruns = if overrun then w.bq_overruns + 1 else w.bq_overruns;
        bq_max = if ltb w.bq_max nq then nq else w.bq_max;
      }) in
      record w' { bq_clients = bq' ∷ w'.bq_clients }

  -- `acq400_bq_notify`; `nbuffers` is the module's number of buffers, 2 at least.
  pub bq_notify : ℕ → ℕ → BqWrapper → BqWrapper
  unfolding notify_clients
  bq_notify nbuffers ix w =
      notify_clients (nbuffers - 2) ix w.bq_clients (record w { bq_clients = [] })
