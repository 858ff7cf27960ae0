-- ===== src/Fields/Knobs.antt =====
-- acq400_sysfs_utils.c: what is stored in a field of a register is what is shown of it, and the rest
-- of the registers stays as it was.
use acq400drv.Prelude.{
  ℕ, ◌+◌, ◌*◌, ◌^◌, ◌<◌, ◌≡◌, ◌≢◌, refl, true, ◌||◌, ◌==◌, bit_and, bit_or, List, [], ◌∷◌, Option,
  some, get_or, ◌∙◌, ne→==, eq→==,
}
use acq400drv.Bits.{bit, shl32}
use acq400drv.RegCache.Laws.{IsValid}
use acq400drv.Registers.{Bank}
use acq400drv.Registers.Coherence.{value, rd32-value, Stored, wr32-Stored}
use acq400drv.Fields.{
  accepted, write_each, clear_field, set_field, get_field, show_bits, store_bits, store_number,
  char_P, char_caret, show_with, note,
}
use acq400drv.Fields.Words.{
  HasField, set_field-HasField, clear_field-HasField, raise_field-HasField, get_field-HasField,
  clear_field-lt, raise_field-lt, set_field-lt,
}

-- A field of a register of a device: within the register's 32 bits, and the register within the
-- cache's limit.
pub record Field (b : Bank) (r shl mask : ℕ) : Type 0 where
  pub cache : IsValid b.cache
  pub in_cache : r < 128
  pub word : value b r < 2 ^ 32
  pub mask_word : mask < 2 ^ 32
  pub fits : (i : ℕ) → bit mask i ≡ 1 → i + shl < 32

-- In `b'` the field is `field`; every other bit of it, and every other register, is as in `b`.
pub record FieldIs (b : Bank) (r shl mask field : ℕ) (b' : Bank) : Type 0 where
  pub valid : IsValid b'.cache
  pub bits : HasField (value b r) shl mask field (value b' r)
  pub others : (q : ℕ) → q ≢ r → value b' q ≡ value b q
  pub word : value b' r < 2 ^ 32

write_each-Stored :
    (b : Bank) (r x : ℕ) (xs : List ℕ) (s : Stored b r x)
    → write_each b (r * 4) (x ∷ xs) ≡ note s.after (write_each s.after (r * 4) xs)
unfolding write_each
write_each-Stored b r x xs s = rw (s.returned, write_each) refl

pub write_each-one :
    (b : Bank) (r x : ℕ) (s : Stored b r x)
    → write_each b (r * 4) (x ∷ []) ≡ accepted (s.after ∷ [])
unfolding write_each
write_each-one b r x s = write_each-Stored b r x [] s

module _ (b : Bank) (r shl mask : ℕ) where
  Stored-FieldIs :
      (a : Bank) (field x : ℕ) (s : Stored a r x)
      → ((q : ℕ) → q ≢ r → value a q ≡ value b q)
      → HasField (value b r) shl mask field x
      → x < 2 ^ 32
      → FieldIs b r shl mask field s.after
  Stored-FieldIs a field x s same h small = record {
    valid = s.valid;
    bits = λ i. rw self (h i);
    others = λ q ne. rw (s.values q, ne→== q r ne) (same q ne);
    word = rw self small;
  }
    where
      self : value s.after r ≡ x
      self = s.values r ∙ rw (eq→== r r refl) refl

  -- A field written again is a field of the new registers.
  again :
      Field b r shl mask
      → (field : ℕ) (b' : Bank) → FieldIs b r shl mask field b'
      → Field b' r shl mask
  again f field b' s = record {
    cache = s.valid;
    in_cache = f.in_cache;
    word = s.word;
    mask_word = f.mask_word;
    fits = f.fits;
  }

  shown-FieldIs :
      (field : ℕ) (b' : Bank) (text : ℕ → List ℕ)
      → Field b r shl mask
      → FieldIs b r shl mask field b'
      → show_with (λ regval. text (get_field regval shl mask)) b' (r * 4)
        ≡ some (text (bit_and field mask))
  shown-FieldIs field b' text f s =
      rw
        (
          rd32-value b' r s.valid f.in_cache,
          get_field-HasField (value b r) shl mask field (value b' r) f.mask_word s.bits,
          show_with,
        )
        refl

  -- `acq400_store_bits` of a number that `sscanf` reads puts its bits in the field and changes nothing
  -- else, and `acq400_show_bits` then shows the number, less what the mask cuts off.
  pub store_bits-FieldIs :
      (sscanf : List ℕ → Option ℕ) (buf : List ℕ) (field : ℕ)
      → Field b r shl mask
      → get_or buf 0 0 ≢ char_P
      → get_or buf 0 0 ≢ char_caret
      → sscanf buf ≡ some field
      → (b' : Bank) × (store_bits sscanf b (r * 4) shl mask buf ≡ accepted (b' ∷ []))
        × FieldIs b r shl mask field b'
        × ((sprintf : ℕ → List ℕ)
            → show_bits sprintf b' (r * 4) shl mask ≡ some (sprintf (bit_and field mask)))
  unfolding store_bits show_bits write_each
  store_bits-FieldIs sscanf buf field f p caret read =
      let s = wr32-Stored b r (set_field (value b r) shl mask field) f.cache f.in_cache in
      let is =
        Stored-FieldIs b field _ s (λ q ne. refl)
          (set_field-HasField (value b r) shl mask f.word f.fits field)
          (set_field-lt (value b r) shl mask f.word f.fits field) in
      (
        s.after,
        rw
            (
              rd32-value b r f.cache f.in_cache,
              ne→== _ _ p,
              ne→== _ _ caret,
              read,
              store_bits,
              write_each-one b r _ s,
            )
            refl,
        is,
        λ sprintf. shown-FieldIs field s.after sprintf f is,
      )

  -- A pulse, `P` or `^`, writes the field as all zeros, all ones and all zeros again, and nothing else.
  store_bits-pulse :
      (sscanf : List ℕ → Option ℕ) (buf : List ℕ)
      → Field b r shl mask
      → (get_or buf 0 0 == char_P || get_or buf 0 0 == char_caret) ≡ true
      → (b1 : Bank) × (b2 : Bank) × (b3 : Bank) × (store_bits sscanf b (r * 4) shl mask buf
          ≡ accepted (b1 ∷ b2 ∷ b3 ∷ []))
        × FieldIs b r shl mask 0 b1
        × FieldIs b r shl mask mask b2
        × FieldIs b r shl mask 0 b3
  unfolding store_bits write_each
  store_bits-pulse sscanf buf f p =
      let x = value b r in
      let low = clear_field x shl mask in
      let high = bit_or low (shl32 mask shl) in
      let zeros = clear_field-HasField x shl mask f.word f.fits in
      let zeros-lt = clear_field-lt x shl mask f.word f.fits in
      let s1 = wr32-Stored b r low f.cache f.in_cache in
      let i1 = Stored-FieldIs b 0 low s1 (λ q ne. refl) zeros zeros-lt in
      let s2 = wr32-Stored s1.after r high s1.valid f.in_cache in
      let i2 =
        Stored-FieldIs s1.after mask high s2 i1.others
          (raise_field-HasField x shl mask f.word f.fits)
          (raise_field-lt x shl mask f.word f.fits) in
      let s3 = wr32-Stored s2.after r low s2.valid f.in_cache in
      let i3 = Stored-FieldIs s2.after 0 low s3 i2.others zeros zeros-lt in
      (
        s1.after,
        s2.after,
        s3.after,
        rw
            (
              rd32-value b r f.cache f.in_cache,
              p,
              store_bits,
              write_each-Stored b r low (high ∷ low ∷ []) s1,
              write_each-Stored s1.after r high (low ∷ []) s2,
              write_each-Stored s2.after r low [] s3,
            )
            refl,
        i1,
        i2,
        i3,
      )

  -- A number stored by `f` of it.
  pub store_number-FieldIs :
      (sscanf : List ℕ → Option ℕ) (f : ℕ → ℕ) (buf : List ℕ) (field : ℕ)
      → Field b r shl mask
      → sscanf buf ≡ some field
      → (b' : Bank) × (store_number sscanf f b (r * 4) shl mask buf ≡ accepted (b' ∷ []))
        × FieldIs b r shl mask (f field) b'
  unfolding write_each
  store_number-FieldIs sscanf g buf field f read =
      let s = wr32-Stored b r (set_field (value b r) shl mask (g field)) f.cache f.in_cache in
      (
        s.after,
        rw (read, store_number, rd32-value b r f.cache f.in_cache, write_each-one b r _ s) refl,
        Stored-FieldIs b (g field) _ s (λ q ne. refl)
            (set_field-HasField (value b r) shl mask f.word f.fits (g field))
            (set_field-lt (value b r) shl mask f.word f.fits (g field)),
      )

  -- What is shown by `text` of the field.
  pub show_with-FieldIs :
      (field : ℕ) (b' : Bank) (text : ℕ → List ℕ)
      → Field b r shl mask
      → FieldIs b r shl mask field b'
      → show_with (λ regval. text (get_field regval shl mask)) b' (r * 4)
        ≡ some (text (bit_and field mask))
  show_with-FieldIs = shown-FieldIs
