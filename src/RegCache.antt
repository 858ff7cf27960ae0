-- ===== src/RegCache.antt =====
-- acq400_reg_cache.c: a cache of control registers. `map` says, one bit a register, which registers
-- are cached, `data` holds their values. `fault` is an access outside `map` or `data`. The C type of
-- a register offset is `int`; offsets are not negative.
pub mod Laws
pub mod Update
use acq400drv.Prelude.{
  ℕ, zero, suc, ◌+◌, ◌*◌, ◌/◌, ◌%◌, Bool, true, false, not, List, [], ◌∷◌, ltb, ◌==◌, bit_and,
  bit_or, if◌then◌else◌, length, get_or, set,
}
use acq400drv.Bits.{shl32}
use acq400drv.Bits.Masks.{has_bit}

-- `struct RegCache`, without its timer, lock and back pointer.
pub record RegCache : Type 0 where
  pub id : ℕ
  pub max_reg : ℕ
  pub map : List ℕ
  pub data_words : List ℕ

abbrev pub map_regs : ℕ
map_regs = 4

-- `REG_CACHE_MAX`
abbrev pub cache_max : ℕ
cache_max = 128

-- The two results of `reg2map`.
abbrev pub map_ix : ℕ → ℕ
map_ix reg = reg / 32

abbrev pub map_bit : ℕ → ℕ
map_bit reg = bit_and reg 0x1f

abbrev pub map2reg : ℕ → ℕ → ℕ
map2reg ix b = ix * 32 + b

-- `dev_rc_init`, on a cache that `kzalloc` has cleared.
unfoldable pub init : ℕ → RegCache
init id = record {
  id = id;
  max_reg = cache_max;
  map = 0 ∷ 0 ∷ 0 ∷ 0 ∷ [];
  data_words = replicate_zero cache_max;
}
  where
    replicate_zero : ℕ → List ℕ
    replicate_zero zero = []
    replicate_zero (suc n) = 0 ∷ replicate_zero n

-- `reg_cache->map[ix] |= 1 << bit`
abbrev pub mark : RegCache → ℕ → RegCache
mark rc reg = record rc {
  map = set rc.map (map_ix reg) (bit_or (get_or rc.map (map_ix reg) 0) (shl32 1 (map_bit reg)));
}

-- `dev_rc_register`; false is its -1.
pub register : RegCache → ℕ → RegCache × Bool
register rc reg_bytes =
    let reg = reg_bytes / 4 in if ltb reg rc.max_reg then (mark rc reg, true) else (rc, false)

-- `dev_rc_register_init`
unfoldable pub register_init : RegCache → ℕ → ℕ → RegCache × Bool
register_init rc reg_bytes initval =
    let reg = reg_bytes / 4 in
    if ltb reg rc.max_reg
    then (record (mark rc reg) { data_words = set rc.data_words reg initval }, true)
    else (rc, false)

-- What a lookup finds: the register is cached, is not, or the lookup left its arrays.
pub data Lookup : Type 0 where
  hit : ℕ → Lookup
  miss fault : Lookup

-- The guard of `dev_rc_read` and `dev_rc_write` and the test of the map; `hit` has the register.
pub look_up : RegCache → ℕ → Lookup
look_up rc offset =
    let reg = offset / 4 in
    if ltb rc.max_reg reg
    then miss
    else if not (ltb (map_ix reg) (length rc.map))
    then fault
    else if has_bit (get_or rc.map (map_ix reg) 0) (map_bit reg)
    then hit reg
    else miss

-- `dev_rc_read`; `hit` has the value that goes through `value`, `miss` is its 1.
pub read : RegCache → ℕ → Lookup
unfolding look_up
read rc offset = elim (look_up rc offset) [
  | hit reg ↦ hit (get_or rc.data_words reg 0)
  | miss ↦ miss
  | fault ↦ fault
]

-- What `dev_rc_write` did: the cache with the write made to it and to the device, or nothing.
pub data Written : Type 0 where
  written : RegCache → Written
  not_cached faulted : Written

-- `dev_rc_write`
unfoldable pub write : RegCache → ℕ → ℕ → Written
unfolding look_up
write rc offset value = elim (look_up rc offset) [
  | hit reg ↦ written (record rc { data_words = set rc.data_words reg value })
  | miss ↦ not_cached
  | fault ↦ faulted
]

-- The loop of `dev_rc_update` over the bits of one map word: `word` is what is left of it, and 32
-- rounds use it up. `io` is `ioread32` by register number.
pub update_word : (ℕ → ℕ) → ℕ → ℕ → ℕ → ℕ → ℕ → List ℕ → List ℕ
update_word io max_reg ix zero b word words = words
update_word io max_reg ix (suc rounds) b word words =
    let reg = map2reg ix b in
    let cached = update_word io max_reg ix rounds (b + 1) (word / 2) (set words reg (io reg)) in
    let other = update_word io max_reg ix rounds (b + 1) (word / 2) words in
    if word == 0
    then words
    else if word % 2 == 1
    then cached
    else if ltb max_reg reg
    then words
    else other

-- The loop over the map words.
pub update_words : (ℕ → ℕ) → ℕ → ℕ → List ℕ → List ℕ → List ℕ
update_words io max_reg ix [] words = words
update_words io max_reg ix (m ∷ ms) words =
    update_words io max_reg (ix + 1) ms (update_word io max_reg ix 32 0 m words)

-- `dev_rc_update`: every cached register is read again from the device.
pub update : (ℕ → ℕ) → RegCache → RegCache
update io rc = record rc { data_words = update_words io rc.max_reg 0 rc.map rc.data_words }

-- The inner loop of `dev_rc_finalize` with `rounds` bits left.
pub last_in_word : ℕ → ℕ → ℕ → ℕ → ℕ → ℕ
last_in_word m ix zero b last = last
last_in_word m ix (suc rounds) b last =
    last_in_word m ix rounds (b + 1) (if has_bit m b then map2reg ix b else last)

pub last_in_map : ℕ → List ℕ → ℕ → ℕ
unfolding last_in_word
last_in_map ix [] last = last
last_in_map ix (m ∷ ms) last = last_in_map (ix + 1) ms (last_in_word m ix 32 0 last)

-- `dev_rc_finalize`: the last cached register, 0 if there is none.
pub finalize : RegCache → ℕ
unfolding last_in_map
finalize rc = last_in_map 0 rc.map 0
