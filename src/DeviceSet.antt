-- ===== src/DeviceSet.antt =====
-- acq400_set.c: the sets of modules that feed the aggregator and the distributor, and two functions
-- of acq400_core.c on modules. A set is an array of MAXDEVICES pointers; a device is a number that is
-- not 0, and 0 is the null pointer.
pub mod Members
use acq400drv.Prelude.{
  ℕ, ◌+◌, Bool, true, false, not, ◌&&◌, List, [], ◌∷◌, ◌++◌, Option, none, some, ◌==◌,
  if◌then◌else◌, bit_or, replicate,
}
use acq400drv.Bits.{shl32}
use acq400drv.Device.{truthy}

abbrev pub maxdevices : ℕ
maxdevices = 12

-- The loop of `acq400_add_set`: the slave goes to the first free place unless it stands before it.
-- False is the result 1, no place left.
pub add_set : List ℕ → ℕ → List ℕ × Bool
add_set [] slave = ([], false)
add_set (x ∷ xs) slave =
    let (rest, ok) = add_set xs slave in
    if x == slave then (x ∷ xs, true) else if x == 0 then (slave ∷ xs, true) else (x ∷ rest, ok)

-- `acq400_clear_set`
pub clear_set : List ℕ
clear_set = replicate maxdevices 0

-- `acq400_first_in_set`
pub first_in_set : List ℕ → ℕ
first_in_set [] = 0
first_in_set (x ∷ xs) = if truthy x then x else first_in_set xs

-- The loop of `_acq400_convert_aggregator_set_to_register_mask` from place `ia` on.
pub set_mask : ℕ → List ℕ → ℕ → ℕ
set_mask ia [] mask = mask
set_mask ia (x ∷ xs) mask =
    set_mask (ia + 1) xs (if truthy x then bit_or mask (shl32 1 ia) else mask)

-- The mask, shifted by AGGREGATOR_MSHIFT.
pub register_mask : List ℕ → ℕ
unfolding set_mask
register_mask set = shl32 (set_mask 0 set 0) 18

-- The devices that `acq400_visit_set` acts on, in order: from the last place to the first.
pub visit_set : List ℕ → List ℕ
visit_set [] = []
visit_set (x ∷ xs) = if truthy x then visit_set xs ++ x ∷ [] else visit_set xs

-- The devices that `acq400_visit_set_arg` acts on: up to the first free place. `none` is a read past
-- the array, as it reads a place before it tests the bound.
pub visit_set_arg : List ℕ → Option (List ℕ)
visit_set_arg [] = none
visit_set_arg (x ∷ xs) =
    let rest = visit_set_arg xs in
    if truthy x then elim rest [ none ↦ none | some l ↦ some (x ∷ l) ] else some []

-- `acq400_lookupSite` along the table of devices, 0 if there is none; `site` is `of_prams.site`.
pub lookup_site : (ℕ → ℕ) → List ℕ → ℕ → ℕ
lookup_site site_of [] site = 0
lookup_site site_of (x ∷ xs) site =
    if truthy x && (site_of x == site) then x else lookup_site site_of xs site

-- The scan of `check_fifo_statuses` over the aggregator set of a system controller, for modules other
-- than ACQ480: the first slave in error, 0 if there is none before the first free place.
pub first_fifo_error : (ℕ → Bool) → List ℕ → ℕ
first_fifo_error is_fifo_error [] = 0
first_fifo_error is_fifo_error (x ∷ xs) =
    if not (truthy x) then 0 else if is_fifo_error x then x else first_fifo_error is_fifo_error xs
