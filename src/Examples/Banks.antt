-- ===== src/Examples/Banks.antt =====
-- A device's registers behind the cache of `Caching`.
use acq400drv.Prelude.{◌≡◌, refl, false, arith}
use acq400drv.RegCache.{init, register_init}
use acq400drv.Registers.{Bank}
use acq400drv.Registers.Aggregator.{Spad, sp_frame, sd_di4}
use acq400drv.Registers.Coherence.{value, Stored, wr32-Stored}
use acq400drv.Examples.Caching.{used, used-IsValid}

abbrev pub bank : Bank
bank = record { cache = used; regs = λ off. off; sod_mode = false }

wr32-Stored_example : Stored bank 40 7
wr32-Stored_example = wr32-Stored bank 40 7 used-IsValid (omega arith)

-- Register 2 is not cached.
pub not_cached_lem : value bank 2 ≡ 8
unfolding register_init init
not_cached_lem = refl

abbrev frame_spad : Spad
frame_spad = record { spad_en = sp_frame; len = 8; di_x = sd_di4 }
