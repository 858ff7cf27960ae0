-- ===== src/RegCache/Laws.antt =====
-- Lookups of a well-formed cache: what is registered is found, what is written is read back.
use acq400drv.Prelude.{
  ℕ, ◌/◌, ◌%◌, ◌^◌, ◌<◌, ◌≡◌, ◌↔◌, sym, ◌∙◌, Bool, true, arith, inl, inr, Bool-cases, ltb, ◌==◌,
  ==_iff, if◌then◌else◌, bit_or, length, get_or, set, length-set, get_or-set, get_or-set_self,
  get_or-set_ne, lt→ltb, le→ltb, eq→==,
}
use acq400drv.Bits.{bit, shl32, bit_or-lt}
use acq400drv.Bits.Masks.{has_bit, has_bit_lem, bit-set_bit, bit_and_low}
use acq400drv.RegCache.{
  RegCache, map_ix, map_bit, mark, register_init, hit, miss, fault, look_up, read, written, write,
}

-- As `dev_rc_init` makes it and every function keeps it.
pub record IsValid (rc : RegCache) : Type 0 where
  pub max_reg_ok : rc.max_reg ≡ 128
  pub map_size : length rc.map ≡ 4
  pub data_size : length rc.data_words ≡ 128
  pub map_words : (i : ℕ) → get_or rc.map i 0 < 2 ^ 32

-- Register `reg` is cached.
abbrev pub has : RegCache → ℕ → Bool
has rc reg = bit (get_or rc.map (reg / 32) 0) (reg % 32) == 1

pub map_bit_lem : (reg : ℕ) → map_bit reg ≡ reg % 32
map_bit_lem reg = bit_and_low 5 reg

has_bit-map :
    (rc : RegCache) (reg : ℕ)
    → IsValid rc
    → has_bit (get_or rc.map (map_ix reg) 0) (map_bit reg) ≡ has rc reg
has_bit-map rc reg v =
    rw (map_bit_lem reg) (has_bit_lem _ (reg % 32) (v.map_words (reg / 32)) (omega arith))

-- Below the limit a lookup is decided by the map.
pub look_up-in_range :
    (rc : RegCache) (offset : ℕ)
    → IsValid rc
    → offset / 4 < 128
    → look_up rc offset ≡ (if has rc (offset / 4) then hit (offset / 4) else miss)
unfolding look_up
look_up-in_range rc offset v h = rw (
  le→ltb rc.max_reg (offset / 4) (omega (arith, v.max_reg_ok)),
  lt→ltb (map_ix (offset / 4)) (length rc.map) (omega (arith, v.map_size)),
  has_bit-map rc (offset / 4) v,
)

-- The lookups of a valid cache leave its map for one register, the one just past the limit: the
-- guard tests `>` where registering tests `<`.
pub look_up-fault_iff :
    (rc : RegCache) (offset : ℕ)
    → IsValid rc
    → (look_up rc offset ≡ fault) ↔ (offset / 4 ≡ rc.max_reg)
unfolding look_up
look_up-fault_iff rc offset v = (λ h. ground arith, λ h. ground arith)

mark-IsValid : (rc : RegCache) (reg : ℕ) → IsValid rc → reg < 128 → IsValid (mark rc reg)
mark-IsValid rc reg v h = record {
  max_reg_ok = v.max_reg_ok;
  map_size = length-set rc.map (map_ix reg) _ ∙ v.map_size;
  data_size = v.data_size;
  map_words = λ i. elim (Bool-cases (map_ix reg == i)) [
    | inl e ↦ rw (← (==_iff (map_ix reg) i).0 e) (
        rw
          (get_or-set_self rc.map (map_ix reg)
            (bit_or (get_or rc.map (map_ix reg) 0) (shl32 1 (map_bit reg))) 0
            (omega (arith, v.map_size)))
          (bit_or-lt 32 _ _ (v.map_words (map_ix reg)) (omega arith)))
    | inr e ↦
        rw
          (get_or-set_ne rc.map (map_ix reg) i
            (bit_or (get_or rc.map (map_ix reg) 0) (shl32 1 (map_bit reg))) 0
            (λ s. ground (arith, eq→== _ _ s)))
          (v.map_words i)
  ];
}

-- The map word that `mark` stores.
abbrev marked_word : RegCache → ℕ → ℕ
marked_word rc reg = bit_or (get_or rc.map (map_ix reg) 0) (shl32 1 (map_bit reg))

bit-mark :
    (rc : RegCache) (reg r : ℕ)
    → IsValid rc
    → reg < 128
    → bit (get_or (mark rc reg).map (r / 32) 0) (r % 32)
      ≡ (if r == reg then 1 else bit (get_or rc.map (r / 32) 0) (r % 32))
bit-mark rc reg r v h = elim (Bool-cases (reg / 32 == r / 32)) [
  | inl e ↦
      let same : r / 32 ≡ reg / 32 = sym ((==_iff _ _).0 e) in
      let stored : get_or (mark rc reg).map (reg / 32) 0 ≡ marked_word rc reg =
        get_or-set_self rc.map (reg / 32) (marked_word rc reg) 0 (omega (arith, v.map_size)) in
      rw (same, stored)
        (ground (
          arith,
          map_bit_lem reg,
          bit-set_bit (get_or rc.map (reg / 32) 0) (map_bit reg) (r % 32)
              (omega (arith, map_bit_lem reg)),
        ))
  | inr e ↦
      let other : get_or (mark rc reg).map (r / 32) 0 ≡ get_or rc.map (r / 32) 0 =
        get_or-set_ne rc.map (reg / 32) (r / 32) (marked_word rc reg) 0
          (λ s. ground (arith, eq→== _ _ s)) in
      rw other (ground arith)
]

pub has-mark :
    (rc : RegCache) (reg r : ℕ)
    → IsValid rc
    → reg < 128
    → has (mark rc reg) r ≡ (if r == reg then true else has rc r)
has-mark rc reg r v h = rw (bit-mark rc reg r v h) (ground arith)

-- The cache when register `reg` has been registered with value `x`.
abbrev registered : RegCache → ℕ → ℕ → RegCache
registered rc reg x = record (mark rc reg) { data_words = set rc.data_words reg x }

registered-IsValid :
    (rc : RegCache) (reg x : ℕ) → IsValid rc → reg < 128 → IsValid (registered rc reg x)
registered-IsValid rc reg x v h =
    let m = mark-IsValid rc reg v h in
    record {
      max_reg_ok = m.max_reg_ok;
      map_size = m.map_size;
      data_size = length-set rc.data_words reg x ∙ v.data_size;
      map_words = m.map_words;
    }

pub register_init-IsValid :
    (rc : RegCache) (off x : ℕ) → IsValid rc → IsValid (register_init rc off x).0
unfolding register_init
register_init-IsValid rc off x v = elim (Bool-cases (ltb (off / 4) rc.max_reg)) [
  | inl e ↦ rw e (registered-IsValid rc (off / 4) x v (ground (arith, v.max_reg_ok)))
  | inr e ↦ rw e v
]

pub read-in_range :
    (rc : RegCache) (off : ℕ)
    → IsValid rc
    → off / 4 < 128
    → read rc off ≡ (if has rc (off / 4) then hit (get_or rc.data_words (off / 4) 0) else miss)
unfolding read
read-in_range rc off v h = ground (arith, look_up-in_range rc off v h)

-- A register within the limit that is registered with a value reads back that value; what any other
-- register reads stays as it was.
read-register_init :
    (rc : RegCache) (off off' x : ℕ)
    → IsValid rc
    → off / 4 < 128
    → off' / 4 < 128
    → read (register_init rc off x).0 off' ≡ (if off' / 4 == off / 4 then hit x else read rc off')
unfolding register_init
read-register_init rc off off' x v h h' =
    let reg = off / 4 in
    let rc1 : RegCache = registered rc reg x in
    let below : ltb reg rc.max_reg ≡ true = lt→ltb reg rc.max_reg (omega (arith, v.max_reg_ok)) in
    let valid = registered-IsValid rc reg x v h in
    rw below (
      read-in_range rc1 off' valid h'
      ∙ ground (
        arith,
        has-mark rc reg (off' / 4) v h,
        get_or-set rc.data_words reg (off' / 4) x 0,
        v.data_size,
        read-in_range rc off' v h',
      ))

pub stored-IsValid :
    (rc : RegCache) (reg x : ℕ)
    → IsValid rc
    → IsValid (record rc { data_words = set rc.data_words reg x })
stored-IsValid rc reg x v = record {
  max_reg_ok = v.max_reg_ok;
  map_size = v.map_size;
  data_size = length-set rc.data_words reg x ∙ v.data_size;
  map_words = v.map_words;
}

-- A write that hits the cache is read back, and changes no other register.
pub read-write :
    (rc rc' : RegCache) (off off' x : ℕ)
    → IsValid rc
    → off / 4 < 128
    → off' / 4 < 128
    → write rc off x ≡ written rc'
    → read rc' off' ≡ (if off' / 4 == off / 4 then hit x else read rc off')
unfolding write
read-write rc rc' off off' x v h h' e = elim (Bool-cases (has rc (off / 4))) [
  | inl c ↦
      let rc1 : RegCache = record rc { data_words = set rc.data_words (off / 4) x } in
      let same : rc' ≡ rc1 = ground (arith, look_up-in_range rc off v h) in
      rw same (
        read-in_range rc1 off' (stored-IsValid rc (off / 4) x v) h'
        ∙ ground (
          arith,
          get_or-set rc.data_words (off / 4) (off' / 4) x 0,
          v.data_size,
          read-in_range rc off' v h',
        ))
  | inr c ↦ absurd (ground (arith, look_up-in_range rc off v h))
]
