-- ===== src/Examples/Queues.antt =====
-- A ring of four slots that holds two buffers, and a stream client with it.
use acq400drv.Prelude.{ℕ, ◌+◌, ◌-◌, ◌≡◌, refl, false, [], ◌∷◌, ◌++◌, arith}
use acq400drv.BufferQueue.{Bq, BqWrapper, bq_full, bq_incr, bq_put, bq_notify}
use acq400drv.BufferQueue.Order.{IsValid, distance, items, bq_put-items}
use acq400drv.BufferQueue.Notify.{CircLaws, AllGot, bq_notify-AllGot}

abbrev ring : Bq
ring = record { buf = 8 ∷ 0 ∷ 0 ∷ 7 ∷ []; head = 1; tail = 3; bq_len = 4 }

pub ring-IsValid : IsValid 2 ring
ring-IsValid = record { size = refl; slots = refl; head_in = omega arith; tail_in = omega arith }

not_full_lem : bq_full ring ≡ false
unfolding bq_full bq_incr
not_full_lem = refl

bq_put-items_example : IsValid 2 (bq_put ring 9) × (items (bq_put ring 9) ≡ items ring ++ 9 ∷ [])
bq_put-items_example = bq_put-items 2 ring 9 ring-IsValid not_full_lem

-- Functions with the documented behaviour of the kernel's macros.
abbrev pub cnt : ℕ → ℕ → ℕ → ℕ
cnt head tail size = distance size tail head

abbrev pub space : ℕ → ℕ → ℕ → ℕ
space head tail size = size - (distance size tail head + 1)

pub cnt-CircLaws : CircLaws cnt space
cnt-CircLaws = record { count = λ k head tail h t. refl; space = λ k head tail h t. ground arith }

abbrev pub clients : BqWrapper
clients = record { bq_clients = ring ∷ ring ∷ []; bq_overruns = 0; bq_max = 0 }

bq_notify-AllGot_example :
    AllGot 2 8 5 clients.bq_clients (bq_notify cnt space 10 5 clients).bq_clients
bq_notify-AllGot_example =
    bq_notify-AllGot cnt space cnt-CircLaws 2 10 5 clients (omega arith)
      (ring-IsValid, (ring-IsValid, tt))
