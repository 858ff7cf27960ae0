-- ===== src/Examples/Sets.antt =====
-- A set of two modules with a free place, and buffers to coalesce.
use acq400drv.Prelude.{◌*◌, ◌≡◌, refl, none, some, [], ◌∷◌, ◌==◌, if◌then◌else◌}
use acq400drv.Device.{Dev}
use acq400drv.DeviceSet.{visit_set_arg}
use acq400drv.DeviceSet.Members.{packed, visit_set_arg-packed}
use acq400drv.Coalesce.{Layout}
use acq400drv.Examples.{idle, some_buffer}

visit_set_arg-packed_example :
    visit_set_arg (packed (5 ∷ 6 ∷ []) 0) ≡ (if 0 == 0 then none else some (5 ∷ 6 ∷ []))
visit_set_arg-packed_example = visit_set_arg-packed (5 ∷ 6 ∷ []) 0 refl

-- Three buffers, the first two of them neighbours.
abbrev neighbours : Dev
neighbours = record idle {
  hbm = λ p. record (some_buffer p) { pa = if p == 2 then 200 else p * 32 };
}

abbrev before : Layout
before = record { device = neighbours; nbuffers = 3; bufferlen = 32 }
