-- ===== src/RegCache/Update.antt =====
-- The two loops over the map: `dev_rc_update` reads every cached register from the device, and no
-- other; `dev_rc_finalize` finds the last of them.
use acq400drv.Prelude.{
  ℕ, zero, suc, ◌+◌, ◌-◌, ◌*◌, ◌/◌, ◌%◌, ◌^◌, ◌≤◌, ◌<◌, ◌≡◌, refl, ap, ◌∙◌, Bool, true, false, ◌&&◌,
  List, [], ◌∷◌, arith, inl, inr, Bool-cases, ltb, leb, ◌==◌, ==_iff, if◌then◌else◌, length, get_or,
  set, length-set, get_or-set, le→ltb,
}
use native.Mathlib.Nat.{pow-suc}
use acq400drv.Bits.{bit, zero-bit, bit_above}
use acq400drv.RegCache.{RegCache, map2reg, update_word, update_words, update, hit, miss, read}
use acq400drv.RegCache.Laws.{IsValid, has, read-in_range}

-- Register `r` is at or above `reg`, and its bit is set in what is left of the word.
abbrev covers : ℕ → ℕ → ℕ → Bool
covers reg word r = leb reg r && (bit word (r - reg) == 1)

covers-zero : (reg r : ℕ) → covers reg 0 r ≡ false
covers-zero reg r = ground (arith, zero-bit (r - reg))

-- One round's register, and the registers after it.
covers-half :
    (reg word r : ℕ)
    → covers reg word r ≡ (if r == reg then word % 2 == 1 else covers (reg + 1) (word / 2) r)
covers-half reg word r = elim (Bool-cases (ltb reg r)) [
  | inl e ↦
      let above : reg < r = ground arith in
      let next : r - reg ≡ suc (r - (reg + 1)) = omega arith in ground (arith, ap (bit word) next)
  | inr e ↦ elim (Bool-cases (r == reg)) [
    | inl s ↦ let zero_off : r - reg ≡ 0 = ground arith in ground (arith, ap (bit word) zero_off)
    | inr s ↦ ground arith
  ]
]

get_or-update_word :
    (io : ℕ → ℕ) (ix rounds b word : ℕ) (words : List ℕ) (r : ℕ)
    → word < 2 ^ rounds
    → b + rounds ≡ 32
    → ix * 32 + 32 ≤ length words
    → length words ≡ 128
    → get_or (update_word io 128 ix rounds b word words) r 0
      ≡ (if covers (map2reg ix b) word r then io r else get_or words r 0)
unfolding update_word
get_or-update_word io ix zero b word words r hw hb hl hn =
    let none_left : word ≡ 0 = omega arith in rw (none_left, covers-zero (map2reg ix b) r)
get_or-update_word io ix (suc rounds) b word words r hw hb hl hn =
    let reg = map2reg ix b in
    let next : map2reg ix (b + 1) ≡ reg + 1 = omega arith in
    let stored : List ℕ = set words reg (io reg) in
    let half : word / 2 < 2 ^ rounds = omega (arith, pow-suc 2 rounds) in
    let size : length stored ≡ length words = length-set words reg (io reg) in
    let ih1 =
      get_or-update_word io ix rounds (b + 1) (word / 2) stored r half (omega arith) (omega arith)
        (omega arith) in
    let ih2 = get_or-update_word io ix rounds (b + 1) (word / 2) words r half (omega arith) hl hn in
    elim (Bool-cases (word == 0)) [
      | inl e ↦ rw (e, update_word, (==_iff word 0).0 e, covers-zero reg r)
      | inr e ↦ elim (Bool-cases (word % 2 == 1)) [
        | inl odd ↦
            rw (e, odd)
              (ih1
                ∙ rw (next, covers-half reg word r, odd)
                    (ground (arith, get_or-set words reg r (io reg) 0, ==_iff r reg)))
        | inr even ↦
            rw (e, even, le→ltb 128 reg (omega arith))
              (ih2 ∙ rw (next, covers-half reg word r, even) (ground arith))
      ]
    ]

length-update_word :
    (io : ℕ → ℕ) (ix rounds b word : ℕ) (words : List ℕ)
    → length (update_word io 128 ix rounds b word words) ≡ length words
unfolding update_word
length-update_word io ix zero b word words = refl
length-update_word io ix (suc rounds) b word words =
    let reg = map2reg ix b in
    let stored : List ℕ = set words reg (io reg) in
    ground (
      arith,
      length-update_word io ix rounds (b + 1) (word / 2) stored,
      length-update_word io ix rounds (b + 1) (word / 2) words,
      length-set words reg (io reg),
    )

-- Register `r` is cached by the map words `ms`, the first of which has number `ix`.
abbrev in_map : ℕ → List ℕ → ℕ → Bool
in_map ix ms r = leb (ix * 32) r && (bit (get_or ms (r / 32 - ix) 0) (r % 32) == 1)

in_map-cons :
    (ix m : ℕ) (ms : List ℕ) (r : ℕ)
    → m < 2 ^ 32
    → in_map ix (m ∷ ms) r ≡ (if in_map (ix + 1) ms r then true else covers (map2reg ix 0) m r)
in_map-cons ix m ms r h = elim (Bool-cases (r / 32 == ix)) [
  | inl e ↦
      let here : r / 32 - ix ≡ 0 = ground arith in
      let low : r - (ix * 32 + 0) ≡ r % 32 = ground arith in rw (here, low) (ground arith)
  | inr e ↦ elim (Bool-cases (ltb ix (r / 32))) [
    | inl above ↦
        let there : r / 32 - ix ≡ suc (r / 32 - (ix + 1)) = ground arith in
        rw there (ground (arith, bit_above m 32 (r - (ix * 32 + 0)) h))
    | inr below ↦ ground arith
  ]
]

-- Every map word is a 32-bit word.
abbrev AreWords : List ℕ → Type 0
AreWords [] = Unit
AreWords (m ∷ ms) = (m < 2 ^ 32) × AreWords ms

AreWords-get_or : (ms : List ℕ) → ((i : ℕ) → get_or ms i 0 < 2 ^ 32) → AreWords ms
AreWords-get_or [] h = tt
AreWords-get_or (m ∷ ms) h = (h 0, AreWords-get_or ms (λ i. h (suc i)))

get_or-update_words :
    (io : ℕ → ℕ) (ix : ℕ) (ms words : List ℕ) (r : ℕ)
    → AreWords ms
    → ix + length ms ≤ 4
    → length words ≡ 128
    → get_or (update_words io 128 ix ms words) r 0
      ≡ (if in_map ix ms r then io r else get_or words r 0)
unfolding update_words
get_or-update_words io ix [] words r hw hl hn = ground (arith, zero-bit (r % 32))
get_or-update_words io ix (m ∷ ms) words r hw hl hn =
    let words1 : List ℕ = update_word io 128 ix 32 0 m words in
    let first = get_or-update_word io ix 32 0 m words r hw.0 (omega arith) (omega arith) hn in
    let rest =
      get_or-update_words io (ix + 1) ms words1 r hw.1 (omega arith)
        (length-update_word io ix 32 0 m words ∙ hn) in
    rest ∙ rw (first, in_map-cons ix m ms r hw.0) (ground arith)

length-update_words :
    (io : ℕ → ℕ) (ix : ℕ) (ms words : List ℕ)
    → length (update_words io 128 ix ms words) ≡ length words
unfolding update_words
length-update_words io ix [] words = refl
length-update_words io ix (m ∷ ms) words =
    length-update_words io (ix + 1) ms (update_word io 128 ix 32 0 m words)
    ∙ length-update_word io ix 32 0 m words

-- After `dev_rc_update` a cached register reads what the device holds, and a register that is not
-- cached is still not found.
pub read-update :
    (io : ℕ → ℕ) (rc : RegCache) (off : ℕ)
    → IsValid rc
    → off / 4 < 128
    → read (update io rc) off ≡ (if has rc (off / 4) then hit (io (off / 4)) else miss)
unfolding update
read-update io rc off v h =
    let words1 : List ℕ = update_words io 128 0 rc.map rc.data_words in
    let rc1 : RegCache = record rc { data_words = words1 } in
    let valid : IsValid rc1 = record {
      max_reg_ok = v.max_reg_ok;
      map_size = v.map_size;
      data_size = length-update_words io 0 rc.map rc.data_words ∙ v.data_size;
      map_words = v.map_words;
    } in
    let value =
      get_or-update_words io 0 rc.map rc.data_words (off / 4) (AreWords-get_or rc.map v.map_words)
        (omega (arith, v.map_size)) v.data_size in
    let same : update io rc ≡ rc1 =
      ap (λ t. record rc { data_words = update_words io t 0 rc.map rc.data_words }) v.max_reg_ok in
    ap (λ c. read c off) same ∙ (read-in_range rc1 off valid h ∙ rw value (ground arith))
