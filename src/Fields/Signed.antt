-- ===== src/Fields/Signed.antt =====
-- acq400_sysfs_utils.c, `acq400_store_dnum` and `acq400_show_dnum`: numbers with a sign in fields of
-- fewer than 32 bits, and `acq400_store_bitN`: bits that are active low.
use native.Mathlib.Nat.{pow-le-pow_right, pow-suc, one-le-pow}
use acq400drv.Prelude.{
  ℕ, zero, suc, ◌+◌, ◌-◌, ◌*◌, ◌/◌, ◌%◌, ◌^◌, ◌≤◌, ◌<◌, ◌≡◌, refl, false, ◌&&◌, ◌==◌, ltb,
  if◌then◌else◌, arith, inl, inr, Bool-cases, bit_and, bit_or, List, [], ◌∷◌, Option, some, ==_iff,
  ap, ◌∙◌, ne→==, eq→==,
}
use acq400drv.Device.{truthy}
use acq400drv.Bits.{
  bit, shl32, bit-lt-two, bit-bit_or, bit_or-lt, bit_ext, bit_and_comm, bit_and-le, bit-mod,
  zero-bit,
}
use acq400drv.Bits.Masks.{bit-shl32-one, bit_and_low, has_bit_lem}
use acq400drv.Registers.{Bank}
use acq400drv.Fields.{
  accepted, extend, signed_field, store_dnum, show_dnum, store_bit_n, show_bit_n, negate,
}
use acq400drv.Fields.Knobs.{Field, FieldIs, store_number-FieldIs, show_with-FieldIs}

shl32-one-suc : (j : ℕ) → j < 31 → shl32 (shl32 1 j) 1 ≡ shl32 1 (suc j)
shl32-one-suc j h = omega (arith, pow-suc 2 j, mod_id j)
  where
    mod_id : (j : ℕ) → 1 * 2 ^ j % 2 ^ 32 * 2 % 2 ^ 32 ≡ 1 * (2 * 2 ^ j) % 2 ^ 32
    mod_id j = omega arith

shl32-one-nonzero : (j : ℕ) → j < 32 → (shl32 1 j == 0) ≡ false
shl32-one-nonzero j h = ne→== _ _ λ e. omega (arith, on, ap (λ t. bit t j) e, zero-bit j)
  where
    on : bit (shl32 1 j) j ≡ 1
    on = bit-shl32-one j j h ∙ rw (eq→== j j refl) refl

-- The bits above `j` are set, the others kept.
bit-extend :
    (n j x i : ℕ)
    → j < 32
    → 31 ≤ j + n
    → bit (extend n (shl32 1 j) x) i ≡ (if ltb j i && ltb i 32 then 1 else bit x i)
unfolding extend
bit-extend zero j x i h enough = ground arith
bit-extend (suc n) j x i h enough = elim (Bool-cases (j == 31)) [
  | inl e ↦ let last : j ≡ 31 = (==_iff j 31).0 e in rw last (ground arith)
  | inr e ↦
      rw (shl32-one-suc j (ground arith), shl32-one-nonzero (suc j) (ground arith))
        (ground (
          arith,
          bit-extend n (suc j) (bit_or x (shl32 1 (suc j))) i,
          bit-bit_or x (shl32 1 (suc j)) i,
          bit-shl32-one (suc j) i,
          bit-lt-two x i,
        ))
]

-- `sbit` of a field of `j + 1` bits.
sign_bit_lem : (j : ℕ) → j < 31 → (2 ^ suc j - 1 + 1) % 2 ^ 32 / 2 ≡ shl32 1 j
sign_bit_lem j h = omega (arith, pow-suc 2 j, one-le-pow j 2, small j h)
  where
    small : (j : ℕ) → j < 31 → 2 ^ j < 2 ^ 31
    small j h = omega (arith, pow-le-pow_right {n = 2} (omega arith) {i = j} {j = 30} (omega arith))

-- A word of which the bits from `j` on are all alike: a number that has room in `j + 1` bits.
abbrev pub Signed : ℕ → ℕ → Type 0
Signed j v = (i : ℕ) → j ≤ i → i < 32 → bit v i ≡ bit v j

extend-lt : (n sbit x : ℕ) → x < 2 ^ 32 → extend n sbit x < 2 ^ 32
unfolding extend
extend-lt zero sbit x h = h
extend-lt (suc n) sbit x h =
    let next = shl32 sbit 1 in
    ground (arith, h, extend-lt n next (bit_or x next) (bit_or-lt 32 x next h (omega arith)))

-- The sign bit of a field, as `acq400_show_dnum` tests it.
sign_test : (j x : ℕ) → j < 32 → x < 2 ^ 32 → truthy (bit_and (shl32 1 j) x) ≡ (bit x j == 1)
sign_test j x h word =
    rw (bit_and_comm 32 (shl32 1 j) x (omega arith) word) (has_bit_lem x j word h)

short_field_lem :
    (j v x : ℕ)
    → j < 31
    → v < 2 ^ 32
    → Signed j v
    → x ≡ v % 2 ^ suc j
    → (if truthy (bit_and (shl32 1 j) x) then extend 32 (shl32 1 j) x else x) ≡ v
short_field_lem j v x h word alike cut =
    let x-lt : x < 2 ^ 32 = omega arith in
    let bits : (i : ℕ) → bit x i ≡ (if ltb i (suc j) then bit v i else 0) =
      λ i. ap (λ t. bit t i) cut ∙ bit-mod v (suc j) i in
    elim (Bool-cases (bit x j == 1)) [
      | inl e ↦
          rw (sign_test j x (omega arith) x-lt, e)
            (bit_ext 32 _ v (extend-lt 32 (shl32 1 j) x x-lt) word λ i hi.
              ground
                (arith, bit-extend 32 j x i (omega arith) (omega arith), bits i, bits j, alike i))
      | inr e ↦
          rw (sign_test j x (omega arith) x-lt, e)
            (bit_ext 32 x v x-lt word
              λ i hi. ground (arith, bits i, bits j, alike i, bit-lt-two v j))
    ]

zero-bit_and : (y : ℕ) → bit_and 0 y ≡ 0
zero-bit_and y = omega (arith, bit_and-le 32 0 y (omega arith))

signed_field-full : (v : ℕ) → v < 2 ^ 32 → signed_field (bit_and v (2 ^ 32 - 1)) (2 ^ 32 - 1) ≡ v
unfolding signed_field
signed_field-full v word =
    rw (zero-bit_and (bit_and v (2 ^ 32 - 1))) (bit_and_low 32 v ∙ omega arith)

-- A number with a sign that has room in the field comes back from it.
pub signed_field_lem :
    (j v : ℕ)
    → j < 32
    → v < 2 ^ 32
    → Signed j v
    → signed_field (bit_and v (2 ^ suc j - 1)) (2 ^ suc j - 1) ≡ v
unfolding signed_field
signed_field_lem j v h word alike = elim (Bool-cases (j == 31)) [
  | inl e ↦ rw ((==_iff j 31).0 e) (signed_field-full v word)
  | inr e ↦ rw (sign_bit_lem j (ground arith)) (
      short_field_lem j v (bit_and v (2 ^ suc j - 1)) (ground arith) word alike
        (bit_and_low (suc j) v))
]

module _ (b : Bank) (r shl : ℕ) (sscanf : List ℕ → Option ℕ) (buf : List ℕ) where
  -- A number with a sign that has room in a field of `j + 1` bits is shown by `acq400_show_dnum` as
  -- `acq400_store_dnum` was given it, and the store changes no other bit and no other register.
  pub store_dnum-shown :
      (j v : ℕ)
      → j < 32
      → Field b r shl (2 ^ suc j - 1)
      → sscanf buf ≡ some v
      → v < 2 ^ 32
      → Signed j v
      → (b' : Bank) × (store_dnum sscanf b (r * 4) shl (2 ^ suc j - 1) buf ≡ accepted (b' ∷ []))
        × FieldIs b r shl (2 ^ suc j - 1) v b'
        × ((sprintf : ℕ → List ℕ)
            → show_dnum sprintf b' (r * 4) shl (2 ^ suc j - 1) ≡ some (sprintf v))
  unfolding store_dnum show_dnum
  store_dnum-shown j v h f read word alike =
      let mask = 2 ^ suc j - 1 in
      let (b', stored, is) = store_number-FieldIs b r shl mask sscanf (λ x. x) buf v f read in
      (
        b',
        stored,
        is,
        λ sprintf.
            show_with-FieldIs b r shl mask v b' (λ x. sprintf (signed_field x mask)) f is
            ∙ ap (λ t. some (sprintf t)) (signed_field_lem j v h word alike),
      )

  -- A bit that is active low is shown as 0 if 0 was stored and as 1 if another number was: the
  -- register holds the opposite, and nothing else changes.
  pub store_bit_n-shown :
      (v : ℕ)
      → Field b r shl 1
      → sscanf buf ≡ some v
      → (b' : Bank) × (store_bit_n sscanf b (r * 4) shl 1 buf ≡ accepted (b' ∷ []))
        × FieldIs b r shl 1 (if v == 0 then 1 else 0) b'
        × ((sprintf : ℕ → List ℕ)
            → show_bit_n sprintf b' (r * 4) shl 1 ≡ some (sprintf (if v == 0 then 0 else 1)))
  unfolding store_bit_n show_bit_n
  store_bit_n-shown v f read =
      let (b', stored, is) = store_number-FieldIs b r shl 1 sscanf negate buf v f read in
      (
        b',
        stored,
        is,
        λ sprintf.
            show_with-FieldIs b r shl 1 (negate v) b' (λ x. sprintf (negate x)) f is
            ∙ ap (λ t. some (sprintf t)) (twice v),
      )
    where
      low_bit : (x : ℕ) → bit_and x 1 ≡ x % 2
      low_bit x = bit_and_low 1 x

      twice : (v : ℕ) → negate (bit_and (negate v) 1) ≡ (if v == 0 then 0 else 1)
      twice v = rw (low_bit (negate v)) (ground arith)
