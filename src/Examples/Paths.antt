-- ===== src/Examples/Paths.antt =====
-- Reserving a buffer and giving it back, on the idle device.
use acq400drv.Prelude.{◌≡◌, refl, [], ◌∷◌, some, none}
use acq400drv.Device.{Dev}
use acq400drv.HbmLists.Path.{reserve}
use acq400drv.Examples.{idle}

-- `idle` with its buffers out of order.
abbrev shuffled : Dev
shuffled = record idle { empties = 2 ∷ 0 ∷ 1 ∷ [] }

abbrev with_reserved : Dev
with_reserved = elim (reserve 1 (shuffled, [])) [ none ↦ shuffled | some s ↦ s.0 ]

reserved_lem : reserve 1 (shuffled, []) ≡ some (with_reserved, 1 ∷ [])
unfolding reserve
reserved_lem = refl

not_reserved_lem : reserve 7 (shuffled, []) ≡ none
unfolding reserve
not_reserved_lem = refl
