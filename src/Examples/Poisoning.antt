-- ===== src/Examples/Poisoning.antt =====
-- Poisoning the buffers of the idle device: their markers go to words 6 and 7.
use acq400drv.Prelude.{ℕ, ◌≡◌, ◌≢◌, refl, arith, get_or}
use acq400drv.AxiChain.{
  poison_mark0, poison_mark1, next_word, poison_offset, poison_one_buffer, clear_poison_from_buffer,
  poison_all_buffers, check_all_buffers_are_poisoned,
}
use acq400drv.AxiChain.Poison.{mark_word, HasRoom, clear-poison}
use acq400drv.AxiChain.Chain.{check-poison_all}
use acq400drv.Examples.{idle}

idle_mark : mark_word idle ≡ 6
unfolding poison_offset
idle_mark = refl

idle-HasRoom : (p : ℕ) → HasRoom idle p
idle-HasRoom p = record { small = omega (arith, idle_mark); inside = omega (arith, idle_mark) }

first_is_data : get_or (idle.hbm 1).va (mark_word idle) 0 ≢ poison_mark0
first_is_data = rw idle_mark (λ e. omega arith)

second_is_data : get_or (idle.hbm 1).va (next_word (mark_word idle)) 0 ≢ poison_mark1
second_is_data = rw idle_mark (λ e. omega arith)

clear-poison_example :
    let d' = clear_poison_from_buffer (poison_one_buffer idle 1) 1 in
    ((d'.hbm 1).va ≡ (idle.hbm 1).va) × ((q : ℕ) → q ≢ 1 → d'.hbm q ≡ idle.hbm q)
clear-poison_example = clear-poison idle 1 (idle-HasRoom 1) first_is_data second_is_data

check-poison_all_example : (check_all_buffers_are_poisoned (poison_all_buffers idle)).1 ≡ 0
check-poison_all_example = check-poison_all idle (λ q h. ground arith) (λ q h. idle-HasRoom q)
