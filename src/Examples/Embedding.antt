-- ===== src/Examples/Embedding.antt =====
-- A full byte ring of SEW_FIFO_LEN slots.
use acq400drv.Prelude.{ℕ, ◌≡◌, refl, replicate, length-replicate, ap, sym, arith}
use acq400drv.BufferQueue.Order.{distance}
use acq400drv.SewFifo.{CircBuf, sew_fifo_len, work}
use acq400drv.SewFifo.Payload.{IsRing, level, Embedded, work-Embedded}

abbrev full_ring : CircBuf
full_ring = record { buf = replicate 4096 0x41; head = 4; tail = 5 }

full_ring-IsRing : IsRing full_ring
full_ring-IsRing = record {
  size = refl;
  slots = length-replicate {A = ℕ} 4096 0x41;
  head_in = omega arith;
  tail_in = omega arith;
}

abbrev cnt : ℕ → ℕ → ℕ → ℕ
cnt head tail size = distance size tail head

cnt-level : cnt 4 5 sew_fifo_len ≡ level full_ring
cnt-level = ap (λ n. distance n 5 4) (sym (length-replicate {A = ℕ} 4096 0x41))

work-Embedded_example : Embedded 0 9 full_ring (work cnt 0 9 full_ring)
work-Embedded_example = work-Embedded cnt 0 9 full_ring full_ring-IsRing cnt-level
