-- ===== src/Reader.antt =====
-- acq400_drv.c, `acq400_continuous_read`: a reader of the stream gives back the buffers that it has not
-- given back yet, takes the next full one, and passes its number on to the other clients. What
-- `getFull` meets while it waits, and the time, are arguments; the text for the reader is the buffer's
-- number, which `sprintf` and `copy_to_user` of the kernel pass on.
pub mod Backlog
use acq400drv.Prelude.{
  ℕ, zero, suc, ◌+◌, ◌%◌, ◌^◌, true, Option, none, some, if◌then◌else◌, ltb, length, is_empty,
}
use acq400drv.Device.{Dev, truthy, incr32}
use acq400drv.HbmLists.{
  GetFull, full, finished, refill_err, interrupted, fault, get_full, put_empty,
}
use acq400drv.BufferQueue.{BqWrapper, bq_notify}

-- The marks for the clients of `hb0`: how often, the last two buffers, when, and the buffer before.
pub record Hb0 : Type 0 where
  pub hb0_count : ℕ
  pub hb0_ix0 : ℕ
  pub hb0_ix1 : ℕ
  pub hb0_last : ℕ
  pub hbm_m1 : Option ℕ

pub record Stream : Type 0 where
  pub dev : Dev
  pub reads : ℕ
  pub hb0 : Hb0
  pub wrapper : BqWrapper

-- `_acq400_continuous_read_update_hb0`, for the seconds passed and `hb0_no_ratelimit`.
pub update_hb0 : ℕ → ℕ → Dev → ℕ → Hb0 → Hb0
update_hb0 now no_ratelimit d p h = elim h.hbm_m1 [
  | none ↦ record h { hbm_m1 = some p }
  | some m ↦
      if ltb h.hb0_last ((now + no_ratelimit) % 2 ^ 32)
      then record {
        hb0_count = incr32 h.hb0_count;
        hb0_ix0 = (d.hbm m).ix;
        hb0_ix1 = (d.hbm p).ix;
        hb0_last = now;
        hbm_m1 = some p;
      }
      else record h { hbm_m1 = some p }
]

abbrev pub count_dropped : Dev → Dev
count_dropped d = record d { rt = record d.rt { buffers_dropped = incr32 d.rt.buffers_dropped } }

-- `while (backlog-- > OPEN_BACKLOG)`; `none` is the fault of a `putEmpty` without an opened buffer.
pub drop_backlog : ℕ → ℕ → Dev → Option Dev
drop_backlog limit zero d = some d
drop_backlog limit (suc backlog) d =
    if ltb limit (suc backlog)
    then elim (put_empty d) [
      | none ↦ none
      | some d' ↦ drop_backlog limit backlog (count_dropped d')
    ]
    else some d

-- What the reader gets: a buffer, the negative number of bytes that `copy_to_user` did not copy, -1 for the
-- end or an error, the signal, or the fault.
pub data ReadResult : Type 0 where
  buffer : ℕ → Stream → ReadResult
  copy_failed : ℕ → Stream → ReadResult
  ended signalled : Stream → ReadResult
  read_fault : ReadResult

module _ (circ_cnt circ_space : ℕ → ℕ → ℕ → ℕ) (nbuffers : ℕ) where
  -- `_acq400_continuous_read`; `uncopied` is what `copy_to_user` returns.
  pub deliver : ℕ → ℕ → ℕ → Stream → ℕ → ReadResult
  deliver uncopied now no_ratelimit s p =
      let s1 = record s {
        hb0 = update_hb0 now no_ratelimit s.dev p s.hb0;
        wrapper = bq_notify circ_cnt circ_space nbuffers (s.dev.hbm p).ix s.wrapper;
      } in
      if truthy uncopied then copy_failed uncopied s1 else buffer (s.dev.hbm p).ix s1

  -- What `acq400_continuous_read` does with the result of `getFull`.
  pub after_get_full : ℕ → ℕ → ℕ → Stream → GetFull → ReadResult
  after_get_full uncopied now no_ratelimit s (full p d) =
      if is_empty d.opens
      then ended (record s { dev = d })
      else deliver uncopied now no_ratelimit (record s { dev = d }) p
  after_get_full uncopied now no_ratelimit s (finished d) = ended (record s { dev = d })
  after_get_full uncopied now no_ratelimit s (refill_err d) = ended (record s { dev = d })
  after_get_full uncopied now no_ratelimit s (interrupted d) = signalled (record s { dev = d })
  after_get_full uncopied now no_ratelimit s fault = read_fault

  -- `acq400_continuous_read`, with what `getFull` meets
  pub continuous_read : (Dev → Option Dev) → (Dev → Dev) → ℕ → ℕ → ℕ → ℕ → Stream → ReadResult
  continuous_read wait_event before_lock open_backlog uncopied now no_ratelimit s =
      let s1 = record s { reads = incr32 s.reads } in
      if truthy s.dev.rt.please_stop
      then ended s1
      else elim (drop_backlog open_backlog (length s.dev.opens) s.dev) [
        | none ↦ read_fault
        | some d ↦
            after_get_full uncopied now no_ratelimit s1 (get_full wait_event before_lock true d)
      ]
