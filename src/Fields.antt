-- ===== src/Fields.antt =====
-- acq400_sysfs_utils.c: register fields as files of the sys file system, shown and stored as text. A
-- file's text is a list of characters; the kernel's `sscanf` and `sprintf` conversions of one number
-- are parameters, and a number of type `int` is its two's complement word. `getSHL` is of
-- acq400_structs.h.
pub mod Words
pub mod Knobs
pub mod Signed
pub mod Masks
pub mod Triplets
use acq400drv.Prelude.{
  ℕ, zero, suc, ◌+◌, ◌-◌, ◌/◌, ◌%◌, ◌^◌, Bool, true, false, ◌&&◌, ◌||◌, map, ltb, is_empty, List,
  [], ◌∷◌, Option, none, some, ◌==◌, if◌then◌else◌, get_or, bit_and, bit_or,
}
use acq400drv.Device.{truthy}
use acq400drv.Bits.{shl32, not32}
use acq400drv.Registers.{Bank, rd32, wr32}

-- How storing ends: the registers after each write in turn, -1, the fault of a register access, or not
-- at all, for an empty mask.
pub data Outcome : Type 0 where
  accepted : List Bank → Outcome
  rejected bus_fault never_returns : Outcome

abbrev pub note : Bank → Outcome → Outcome
note b (accepted bs) = accepted (b ∷ bs)
note b rejected = rejected
note b bus_fault = bus_fault
note b never_returns = never_returns

-- Writes of one register, one after the other.
pub write_each : Bank → ℕ → List ℕ → Outcome
write_each b reg [] = accepted []
write_each b reg (x ∷ xs) = elim (wr32 b reg x) [
  | none ↦ bus_fault
  | some b' ↦ note b' (write_each b' reg xs)
]

-- `regval &= ~(MASK << SHL)`
abbrev pub clear_field : ℕ → ℕ → ℕ → ℕ
clear_field regval shl mask = bit_and regval (not32 (shl32 mask shl))

-- and `regval |= (field&MASK) << SHL`
abbrev pub set_field : ℕ → ℕ → ℕ → ℕ → ℕ
set_field regval shl mask field =
    bit_or (clear_field regval shl mask) (shl32 (bit_and field mask) shl)

-- `(regval>>SHL)&MASK`
abbrev pub get_field : ℕ → ℕ → ℕ → ℕ
get_field regval shl mask = bit_and (regval / 2 ^ shl) mask

-- C's `!field`
abbrev pub negate : ℕ → ℕ
negate field = if field == 0 then 1 else 0

abbrev pub char_P : ℕ
char_P = 0x50

abbrev pub char_caret : ℕ
char_caret = 0x5e

-- What is shown: a text, or the fault of a register access.
abbrev pub Shown : Type 0
Shown = Option (List ℕ)

-- A field read and shown by `text`.
abbrev pub show_with : (ℕ → List ℕ) → Bank → ℕ → Shown
show_with text b reg = elim (rd32 b reg) [ none ↦ none | some regval ↦ some (text regval) ]

-- `acq400_show_bits`; `acq400_show_u` differs in the conversion only.
pub show_bits : (ℕ → List ℕ) → Bank → ℕ → ℕ → ℕ → Shown
show_bits sprintf b reg shl mask = show_with (λ regval. sprintf (get_field regval shl mask)) b reg

-- `acq400_store_bits`: a pulse, or a number.
pub store_bits : (List ℕ → Option ℕ) → Bank → ℕ → ℕ → ℕ → List ℕ → Outcome
store_bits sscanf b reg shl mask buf = elim (rd32 b reg) [
  | none ↦ bus_fault
  | some regval ↦
      let first = get_or buf 0 0 in
      let low = clear_field regval shl mask in
      if first == char_P || first == char_caret
      then write_each b reg (low ∷ bit_or low (shl32 mask shl) ∷ low ∷ [])
      else elim (sscanf buf) [
        | none ↦ rejected
        | some field ↦ write_each b reg (set_field regval shl mask field ∷ [])
      ]
]

-- `acq400_show_bitN`, active low.
pub show_bit_n : (ℕ → List ℕ) → Bank → ℕ → ℕ → ℕ → Shown
show_bit_n sprintf b reg shl mask =
    show_with (λ regval. sprintf (negate (get_field regval shl mask))) b reg

-- A number stored, which `acq400_store_bitN` and `acq400_store_dnum` have in common.
abbrev pub store_number : (List ℕ → Option ℕ) → (ℕ → ℕ) → Bank → ℕ → ℕ → ℕ → List ℕ → Outcome
store_number sscanf f b reg shl mask buf = elim (sscanf buf) [
  | none ↦ rejected
  | some field ↦ elim (rd32 b reg) [
    | none ↦ bus_fault
    | some regval ↦ write_each b reg (set_field regval shl mask (f field) ∷ [])
  ]
]

-- `acq400_store_bitN`
pub store_bit_n : (List ℕ → Option ℕ) → Bank → ℕ → ℕ → ℕ → List ℕ → Outcome
store_bit_n sscanf b reg shl mask buf = store_number sscanf negate b reg shl mask buf

-- `while(sbit <<= 1) field |= sbit`: a bit of 32 leaves the word in 32 rounds at most.
pub extend : ℕ → ℕ → ℕ → ℕ
extend zero sbit field = field
extend (suc fuel) sbit field =
    let sbit' = shl32 sbit 1 in
    let rest = extend fuel sbit' (bit_or field sbit') in if sbit' == 0 then field else rest

-- The sign extension of `acq400_show_dnum`.
pub signed_field : ℕ → ℕ → ℕ
signed_field field mask =
    let sbit = (mask + 1) % 2 ^ 32 / 2 in
    if truthy (bit_and sbit field) then extend 32 sbit field else field

-- `acq400_show_dnum`
pub show_dnum : (ℕ → List ℕ) → Bank → ℕ → ℕ → ℕ → Shown
show_dnum sprintf b reg shl mask =
    show_with (λ regval. sprintf (signed_field (get_field regval shl mask) mask)) b reg

-- `acq400_store_dnum`
pub store_dnum : (List ℕ → Option ℕ) → Bank → ℕ → ℕ → ℕ → List ℕ → Outcome
store_dnum sscanf b reg shl mask buf = store_number sscanf (λ x. x) b reg shl mask buf

-- The loop of `getSHL`, with the shift so far; `none` is the end of the fuel, since it never ends
-- for an empty mask.
unfoldable pub shift_of : ℕ → ℕ → ℕ → Option ℕ
shift_of zero mask shl = none
shift_of (suc fuel) mask shl =
    if mask % 2 == 0 then shift_of fuel (mask / 2) (shl + 1) else some shl

-- `getSHL`, for a mask of 32 bits.
unfoldable pub get_shl : ℕ → Option ℕ
unfolding shift_of
get_shl mask = shift_of 32 mask 0

-- The loop of `count_set_bits` with the count so far; each round clears a bit, so 32 are enough.
pub clear_lowest : ℕ → ℕ → ℕ → Option ℕ
clear_lowest zero n count = if n == 0 then some count else none
clear_lowest (suc fuel) n count =
    let rest = clear_lowest fuel (bit_and n (n - 1)) (count + 1) in
    if n == 0 then some count else rest

pub count_set_bits : ℕ → Option ℕ
count_set_bits n = clear_lowest 32 n 0

-- `SHLMASK(x, f)` and `MASKSHR(x, f)`, with the shift of `f`.
abbrev pub shl_mask : ℕ → ℕ → ℕ → ℕ
shl_mask x f shl = bit_and (shl32 x shl) f

abbrev pub mask_shr : ℕ → ℕ → ℕ → ℕ
mask_shr x f shl = bit_and x f / 2 ^ shl

-- What `sscanf` finds of the two forms of a triplet.
pub data Triplet : Type 0 where
  by_edge : ℕ → ℕ → List ℕ → Triplet
  by_number : ℕ → ℕ → ℕ → Triplet
  no_triplet : Triplet

same_text : List ℕ → List ℕ → Bool
same_text [] [] = true
same_text [] (y ∷ ys) = false
same_text (x ∷ xs) [] = false
same_text (x ∷ xs) (y ∷ ys) = (x == y) && same_text xs ys

-- "rising"
abbrev pub rising_text : List ℕ
rising_text = 0x72 ∷ 0x69 ∷ 0x73 ∷ 0x69 ∷ 0x6e ∷ 0x67 ∷ []

-- `get_edge_sense`; `tolower` is the kernel's.
pub get_edge_sense : (ℕ → ℕ) → List ℕ → ℕ → ℕ
get_edge_sense tolower edge vv =
    if is_empty edge then vv else if same_text (map tolower edge) rising_text then 1 else 0

-- The three numbers that `acq400_store_triplet` stores.
unfoldable pub triplet_values : (ℕ → ℕ) → Triplet → Option (ℕ × ℕ × ℕ)
triplet_values tolower (by_edge v1 v2 edge) = some (v1, v2, get_edge_sense tolower edge 0)
triplet_values tolower (by_number v1 v2 v3) = some (v1, v2, v3)
triplet_values tolower no_triplet = none

-- The masks of a triplet with their shifts, `none` if a mask is empty.
abbrev pub Masks : Type 0
Masks = (ℕ × ℕ) × (ℕ × ℕ) × (ℕ × ℕ)

pub with_shifts : ℕ → ℕ → ℕ → Option Masks
with_shifts t1 t2 t3 = elim (get_shl t1) [
  | none ↦ none
  | some s1 ↦ elim (get_shl t2) [
    | none ↦ none
    | some s2 ↦ elim (get_shl t3) [ none ↦ none | some s3 ↦ some ((t1, s1), (t2, s2), (t3, s3)) ]
  ]
]

-- The register with the three fields replaced.
pub put_triplet : Masks → ℕ × ℕ × ℕ → ℕ → ℕ
put_triplet ((t1, s1), (t2, s2), (t3, s3)) (v1, v2, v3) regval =
    bit_or (bit_and regval (not32 (bit_or (bit_or t1 t2) t3)))
      (bit_or (bit_or (shl_mask v1 t1 s1) (shl_mask v2 t2 s2)) (shl_mask v3 t3 s3))

pub get_triplet : Masks → ℕ → ℕ × ℕ × ℕ
get_triplet ((t1, s1), (t2, s2), (t3, s3)) regval =
    (mask_shr regval t1 s1, mask_shr regval t2 s2, mask_shr regval t3 s3)

-- `acq400_store_triplet`
pub store_triplet : (List ℕ → Triplet) → (ℕ → ℕ) → Bank → ℕ → ℕ → ℕ → ℕ → List ℕ → Outcome
store_triplet sscanf tolower b reg t1 t2 t3 buf = elim (triplet_values tolower (sscanf buf)) [
  | none ↦ rejected
  | some v ↦ elim (rd32 b reg) [
    | none ↦ bus_fault
    | some regval ↦ elim (with_shifts t1 t2 t3) [
      | none ↦ never_returns
      | some masks ↦ write_each b reg (put_triplet masks v regval ∷ [])
    ]
  ]
]

-- `acq400_show_triplet`, for masks that are not empty.
pub show_triplet : (ℕ × ℕ × ℕ → List ℕ) → Bank → ℕ → Masks → Shown
show_triplet sprintf b reg masks = show_with (λ regval. sprintf (get_triplet masks regval)) b reg

-- CTRL_SIG_MASK and CTRL_SIG_RISING.
abbrev pub ctrl_sig_mask : ℕ
ctrl_sig_mask = 0xf

abbrev pub ctrl_sig_rising : ℕ
ctrl_sig_rising = 0x8

-- The register that `store_signal3` writes, for a `dx` of 7 at most and the shift of `mbit`.
pub signal_word : ℕ → ℕ → ℕ → ℕ → ℕ → ℕ → ℕ → ℕ
signal_word adc_ctrl shl mbit mshl imode dx rising =
    let off = bit_and adc_ctrl (not32 mbit) in
    if imode == 0
    then off
    else bit_or
        (bit_or (bit_and off (not32 (shl32 ctrl_sig_mask shl)))
          (shl32 (bit_or dx (if truthy rising then ctrl_sig_rising else 0)) shl))
        (shl32 imode mshl)

-- `store_signal3`
pub store_signal3 : Bank → ℕ → ℕ → ℕ → ℕ → ℕ → ℕ → Outcome
store_signal3 b reg shl mbit imode dx rising = elim (rd32 b reg) [
  | none ↦ bus_fault
  | some adc_ctrl ↦ if truthy imode && ltb 7 dx then rejected else elim (get_shl mbit) [
    | none ↦
        if imode == 0 then write_each b reg (bit_and adc_ctrl (not32 mbit) ∷ []) else never_returns
    | some mshl ↦ write_each b reg (signal_word adc_ctrl shl mbit mshl imode dx rising ∷ [])
  ]
]

-- What `show_signal` shows of a signal that is on: its mode, line and edge.
pub signal_fields : ℕ → ℕ → ℕ → ℕ → Option (ℕ × ℕ × Bool)
signal_fields adc_ctrl shl mbit mshl =
    let sel = bit_and (adc_ctrl / 2 ^ shl) ctrl_sig_mask in
    if truthy (bit_and adc_ctrl mbit)
    then some (
      bit_and adc_ctrl mbit / 2 ^ mshl,
      bit_and sel 7,
      truthy (bit_and (adc_ctrl / 2 ^ shl) ctrl_sig_rising),
    )
    else none
