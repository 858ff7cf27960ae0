-- ===== src/Fields/Triplets.antt =====
-- acq400_sysfs_utils.c, `acq400_store_triplet` and `acq400_show_triplet`: three fields of a register
-- at once.
use native.Mathlib.Nat.{div-le_self}
use acq400drv.Prelude.{
  ℕ, ◌+◌, ◌-◌, ◌/◌, ◌*◌, ◌^◌, ◌≤◌, ◌<◌, ◌≡◌, refl, some, List, [], ◌∷◌, ◌==◌, not, ◌&&◌, ltb,
  if◌then◌else◌, arith, bit_and, bit_or, not, ap, max, ◌∙◌, ◌≢◌, eq→==, ne→==,
}
use acq400drv.Bits.{
  bit, shl32, not32, bit-bit_and, bit-bit_or, bit_above, bit-lt-two, bit_ext, bit-shr,
  bit_and-le_right, bit_or-lt,
}
use acq400drv.Bits.Masks.{bit-not32, bit-shl32}
use acq400drv.RegCache.Laws.{IsValid}
use acq400drv.Registers.{Bank}
use acq400drv.Registers.Coherence.{value, rd32-value, wr32-Stored}
use acq400drv.Fields.{
  Masks, Triplet, put_triplet, get_triplet, shl_mask, mask_shr, get_shl, with_shifts,
  triplet_values, store_triplet, show_triplet, accepted, show_with,
}
use acq400drv.Fields.Knobs.{write_each-one}

-- The bits of `v` at `s` lie in the mask `t`.
abbrev pub Fits : ℕ → ℕ → ℕ → Type 0
Fits v t s = (i : ℕ) → bit v i ≡ 1 → bit t (i + s) ≡ 1

bit-shl_mask :
    (v t s i : ℕ)
    → t < 2 ^ 32
    → bit (shl_mask v t s) i ≡ (if not (ltb i s) && (bit t i == 1) then bit v (i - s) else 0)
bit-shl_mask v t s i small = ground (
  arith,
  bit-bit_and (shl32 v s) t i,
  bit-shl32 v s i,
  bit_above t 32 i small,
  bit-lt-two t i,
  bit-lt-two v (i - s),
)

module _ (x t1 t2 t3 s1 s2 s3 v1 v2 v3 : ℕ) (m1 : t1 < 2 ^ 32) (m2 : t2 < 2 ^ 32) (m3 : t3 < 2 ^ 32)
    (apart : (i : ℕ) → bit t1 i + bit t2 i + bit t3 i ≤ 1) where
  all_masks : ℕ
  all_masks = bit_or (bit_or t1 t2) t3

  all_masks-lt : all_masks < 2 ^ 32
  unfolding all_masks
  all_masks-lt = bit_or-lt 32 _ _ (bit_or-lt 32 t1 t2 m1 m2) m3

  abbrev put : ℕ
  put = put_triplet ((t1, s1), (t2, s2), (t3, s3)) (v1, v2, v3) x

  bit-all_masks : (i : ℕ) → bit all_masks i ≡ max (max (bit t1 i) (bit t2 i)) (bit t3 i)
  unfolding all_masks
  bit-all_masks i = omega (arith, bit-bit_or (bit_or t1 t2) t3 i, bit-bit_or t1 t2 i)

  -- What stays of the register.
  bit-kept :
      (i : ℕ)
      → bit (bit_and x (not32 all_masks)) i
        ≡ (if bit all_masks i == 1 then 0 else if ltb i 32 then bit x i else 0)
  bit-kept i = ground (
    arith,
    bit-bit_and x (not32 all_masks) i,
    bit-not32 all_masks i all_masks-lt,
    bit-lt-two all_masks i,
    bit-lt-two x i,
  )

  bit-put :
      (i : ℕ)
      → bit put i
        ≡ max (bit (bit_and x (not32 all_masks)) i) (
            max
              (max (bit (shl_mask v1 t1 s1) i) (bit (shl_mask v2 t2 s2) i))
              (bit (shl_mask v3 t3 s3) i))
  unfolding put_triplet all_masks
  bit-put i =
      let a1 = shl_mask v1 t1 s1 in
      let a2 = shl_mask v2 t2 s2 in
      let a3 = shl_mask v3 t3 s3 in
      omega (
        arith,
        bit-bit_or (bit_and x (not32 all_masks)) (bit_or (bit_or a1 a2) a3) i,
        bit-bit_or (bit_or a1 a2) a3 i,
        bit-bit_or a1 a2 i,
      )

  off : (v t s i : ℕ) → t < 2 ^ 32 → bit t i ≡ 0 → bit (shl_mask v t s) i ≡ 0
  off v t s i small e = bit-shl_mask v t s i small ∙ ground arith

  on : (v t s i : ℕ) → t < 2 ^ 32 → bit t i ≡ 1 → s ≤ i → bit (shl_mask v t s) i ≡ bit v (i - s)
  on v t s i small e le = bit-shl_mask v t s i small ∙ ground arith

  -- Each field reads as what was put there, and the rest of the register as it was.
  pub put-first : (i : ℕ) → bit t1 i ≡ 1 → s1 ≤ i → bit put i ≡ bit v1 (i - s1)
  put-first i e le =
      let z2 = off v2 t2 s2 i m2 (omega (arith, apart i)) in
      let z3 = off v3 t3 s3 i m3 (omega (arith, apart i)) in
      ground (arith, bit-put i, z2, z3, on v1 t1 s1 i m1 e le, bit-kept i, bit-all_masks i, apart i)

  pub put-second : (i : ℕ) → bit t2 i ≡ 1 → s2 ≤ i → bit put i ≡ bit v2 (i - s2)
  put-second i e le =
      let z1 = off v1 t1 s1 i m1 (omega (arith, apart i)) in
      let z3 = off v3 t3 s3 i m3 (omega (arith, apart i)) in
      ground (arith, bit-put i, z1, z3, on v2 t2 s2 i m2 e le, bit-kept i, bit-all_masks i, apart i)

  pub put-third : (i : ℕ) → bit t3 i ≡ 1 → s3 ≤ i → bit put i ≡ bit v3 (i - s3)
  put-third i e le =
      let z1 = off v1 t1 s1 i m1 (omega (arith, apart i)) in
      let z2 = off v2 t2 s2 i m2 (omega (arith, apart i)) in
      ground (arith, bit-put i, z1, z2, on v3 t3 s3 i m3 e le, bit-kept i, bit-all_masks i, apart i)

  pub put-rest : (i : ℕ) → i < 32 → bit t1 i ≡ 0 → bit t2 i ≡ 0 → bit t3 i ≡ 0 → bit put i ≡ bit x i
  put-rest i h e1 e2 e3 = ground (
    arith,
    bit-put i,
    off v1 t1 s1 i m1 e1,
    off v2 t2 s2 i m2 e2,
    off v3 t3 s3 i m3 e3,
    bit-kept i,
    bit-all_masks i,
  )

-- A field read back.
mask_shr-lem :
    (y v t s : ℕ)
    → t < 2 ^ 32
    → v < 2 ^ 32
    → Fits v t s
    → ((i : ℕ) → bit t i ≡ 1 → s ≤ i → bit y i ≡ bit v (i - s))
    → mask_shr y t s ≡ v
mask_shr-lem y v t s small word fit same =
    bit_ext 32 (mask_shr y t s) v (omega (arith, bit_and-le_right 32 y t small, below)) word λ i h.
      ground (
        arith,
        bit-shr (bit_and y t) s i,
        bit-bit_and y t (i + s),
        same (i + s),
        back i,
        fit i,
        bit-lt-two v i,
        bit-lt-two t (i + s),
        bit-lt-two y (i + s),
      )
  where
    back : (i : ℕ) → i + s - s ≡ i
    back i = omega arith

    below : bit_and y t / 2 ^ s ≤ bit_and y t
    below = div-le_self (bit_and y t) (2 ^ s)

-- A mask, its shift, and a number that it has room for.
pub record Part (t s v : ℕ) : Type 0 where
  pub shift : get_shl t ≡ some s
  pub mask_word : t < 2 ^ 32
  pub word : v < 2 ^ 32
  pub fit : Fits v t s

-- What storing three fields in register `r` did: they are shown as stored, and every other bit and
-- register is as it was.
pub record TripletIs (b : Bank) (r : ℕ) (masks : Masks) (v : ℕ × ℕ × ℕ) (b' : Bank) : Type 0 where
  pub shown :
      (sprintf : ℕ × ℕ × ℕ → List ℕ) → show_triplet sprintf b' (r * 4) masks ≡ some (sprintf v)
  pub rest :
      (i : ℕ)
      → i < 32
      → bit masks.0.0 i ≡ 0
      → bit masks.1.0 i ≡ 0
      → bit masks.2.0 i ≡ 0
      → bit (value b' r) i ≡ bit (value b r) i
  pub others : (q : ℕ) → q ≢ r → value b' q ≡ value b q

module _ (b : Bank) (r t1 t2 t3 s1 s2 s3 v1 v2 v3 : ℕ) (p1 : Part t1 s1 v1) (p2 : Part t2 s2 v2)
    (p3 : Part t3 s3 v3) (apart : (i : ℕ) → bit t1 i + bit t2 i + bit t3 i ≤ 1) where
  abbrev masks : Masks
  masks = ((t1, s1), (t2, s2), (t3, s3))

  with_shifts-Part : with_shifts t1 t2 t3 ≡ some masks
  unfolding with_shifts
  with_shifts-Part = rw (p1.shift, with_shifts, p2.shift, p3.shift) refl

  get-put : (x : ℕ) → get_triplet masks (put_triplet masks (v1, v2, v3) x) ≡ (v1, v2, v3)
  unfolding get_triplet
  get-put x =
      let y = put_triplet masks (v1, v2, v3) x in
      let m1 = p1.mask_word in
      let m2 = p2.mask_word in
      let m3 = p3.mask_word in
      rw
        (
          mask_shr-lem y v1 t1 s1 m1 p1.word p1.fit
              (put-first x t1 t2 t3 s1 s2 s3 v1 v2 v3 m1 m2 m3 apart),
          mask_shr-lem y v2 t2 s2 m2 p2.word p2.fit
              (put-second x t1 t2 t3 s1 s2 s3 v1 v2 v3 m1 m2 m3 apart),
          mask_shr-lem y v3 t3 s3 m3 p3.word p3.fit
              (put-third x t1 t2 t3 s1 s2 s3 v1 v2 v3 m1 m2 m3 apart),
          get_triplet,
        )
        refl

  -- Three numbers that their masks have room for, stored by `acq400_store_triplet` in masks that do
  -- not overlap, are what `acq400_show_triplet` then shows, and nothing else changes.
  pub store_triplet-shown :
      (sscanf : List ℕ → Triplet) (tolower : ℕ → ℕ) (buf : List ℕ)
      → IsValid b.cache
      → r < 128
      → triplet_values tolower (sscanf buf) ≡ some (v1, v2, v3)
      → (b' : Bank) × (store_triplet sscanf tolower b (r * 4) t1 t2 t3 buf ≡ accepted (b' ∷ []))
        × TripletIs b r masks (v1, v2, v3) b'
  unfolding store_triplet show_triplet
  store_triplet-shown sscanf tolower buf valid in_cache read =
      let x = value b r in
      let s = wr32-Stored b r (put_triplet masks (v1, v2, v3) x) valid in_cache in
      let self : value s.after r ≡ put_triplet masks (v1, v2, v3) x =
        s.values r ∙ rw (eq→== r r refl) refl in
      (
        s.after,
        rw
            (
              read,
              store_triplet,
              rd32-value b r valid in_cache,
              with_shifts-Part,
              write_each-one b r _ s,
            )
            refl,
        record {
          shown = λ sprintf.
              rw (rd32-value s.after r s.valid in_cache, self, get-put x, show_with) refl;
          rest = λ i h e1 e2 e3.
              ap (λ t. bit t i) self
              ∙ put-rest x t1 t2 t3 s1 s2 s3 v1 v2 v3 p1.mask_word p2.mask_word p3.mask_word apart i
                  h e1 e2 e3;
          others = λ q ne. s.values q ∙ rw (ne→== q r ne) refl;
        },
      )
