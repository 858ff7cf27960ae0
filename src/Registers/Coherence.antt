-- ===== src/Registers/Coherence.antt =====
-- Reads of a device's registers see its writes, whether the register is cached or not.
use acq400drv.Prelude.{
  ap, sym, ◌∙◌, ℕ, ◌*◌, ◌/◌, ◌<◌, ◌≡◌, refl, true, false, some, ◌==◌, if◌then◌else◌, arith, inl,
  inr, Bool-cases, get_or, get_or-set, set,
}
use acq400drv.RegCache.{write}
use acq400drv.RegCache.Laws.{IsValid, has, look_up-in_range, stored-IsValid, read-in_range}
use acq400drv.Registers.{Bank, store, wr32, rd32_cached, rd32}

-- What a read of register `r` finds.
abbrev pub value : Bank → ℕ → ℕ
value b r = if has b.cache r then get_or b.cache.data_words r 0 else b.regs (r * 4)

pub rd32-value : (b : Bank) (r : ℕ) → IsValid b.cache → r < 128 → rd32 b (r * 4) ≡ some (value b r)
unfolding rd32 rd32_cached
rd32-value b r v h =
    let word : r * 4 / 4 ≡ r = omega arith in
    let found = read-in_range b.cache (r * 4) v (omega arith) in
    elim (Bool-cases (has b.cache r)) [
      | inl e ↦ rw (found, word, e) refl
      | inr e ↦ rw (found, word, e) refl
    ]

-- What `acq400wr32` of `x` to register `r` did.
pub record Stored (b : Bank) (r x : ℕ) : Type 0 where
  pub after : Bank
  pub returned : wr32 b (r * 4) x ≡ some after
  pub valid : IsValid after.cache
  pub values : (q : ℕ) → value after q ≡ (if q == r then x else value b q)
  pub reads : (q : ℕ) → q < 128 → rd32 after (q * 4) ≡ (if q == r then some x else rd32 b (q * 4))
  pub mode : after.sod_mode ≡ b.sod_mode

-- What `acq400rd32` reads follows what stands there.
reads_follow :
    (b after : Bank) (r x : ℕ)
    → IsValid b.cache
    → IsValid after.cache
    → ((q : ℕ) → value after q ≡ (if q == r then x else value b q))
    → (q : ℕ) → q < 128
    → rd32 after (q * 4) ≡ (if q == r then some x else rd32 b (q * 4))
reads_follow b after r x v w h q l =
    rd32-value after q w l
    ∙ ap some (h q)
    ∙ elim (Bool-cases (q == r)) [ inl e ↦ rw e refl | inr e ↦ rw e (sym (rd32-value b q v l)) ]

cached_after : Bank → ℕ → ℕ → Bank
cached_after b r x = record b {
  cache = record b.cache { data_words = set b.cache.data_words r x };
  regs = store b.regs (r * 4) x;
}

uncached_after : Bank → ℕ → ℕ → Bank
uncached_after b r x = record b { regs = store b.regs (r * 4) x }

wr32-cached :
    (b : Bank) (r x : ℕ)
    → IsValid b.cache
    → r < 128
    → has b.cache r ≡ true
    → wr32 b (r * 4) x ≡ some (cached_after b r x)
unfolding wr32 write cached_after
wr32-cached b r x v h c =
    let word : r * 4 / 4 ≡ r = omega arith in
    ground (arith, look_up-in_range b.cache (r * 4) v (omega arith), word, c)

wr32-uncached :
    (b : Bank) (r x : ℕ)
    → IsValid b.cache
    → r < 128
    → has b.cache r ≡ false
    → wr32 b (r * 4) x ≡ some (uncached_after b r x)
unfolding wr32 write uncached_after
wr32-uncached b r x v h c =
    let word : r * 4 / 4 ≡ r = omega arith in
    ground (arith, look_up-in_range b.cache (r * 4) v (omega arith), word, c)

value-cached_after :
    (b : Bank) (r x q : ℕ)
    → IsValid b.cache
    → r < 128
    → has b.cache r ≡ true
    → value (cached_after b r x) q ≡ (if q == r then x else value b q)
unfolding cached_after
value-cached_after b r x q v h c =
    ground (arith, get_or-set b.cache.data_words r q x 0, v.data_size)

value-uncached_after :
    (b : Bank) (r x q : ℕ)
    → has b.cache r ≡ false
    → value (uncached_after b r x) q ≡ (if q == r then x else value b q)
unfolding uncached_after
value-uncached_after b r x q c = ground arith

-- A write to a register within the cache's limit succeeds, and from then on `acq400rd32` of that
-- register gives what was written and of every other register within the limit what it gave before,
-- cached or not.
pub wr32-Stored : (b : Bank) (r x : ℕ) → IsValid b.cache → r < 128 → Stored b r x
unfolding cached_after uncached_after
wr32-Stored b r x v h = elim (Bool-cases (has b.cache r)) [
  | inl c ↦ record {
    after = cached_after b r x;
    returned = wr32-cached b r x v h c;
    valid = stored-IsValid b.cache r x v;
    values = λ q. value-cached_after b r x q v h c;
    reads =
        reads_follow b (cached_after b r x) r x v (stored-IsValid b.cache r x v)
          (λ q. value-cached_after b r x q v h c);
    mode = refl;
  }
  | inr c ↦ record {
    after = uncached_after b r x;
    returned = wr32-uncached b r x v h c;
    valid = v;
    values = λ q. value-uncached_after b r x q c;
    reads = reads_follow b (uncached_after b r x) r x v v (λ q. value-uncached_after b r x q c);
    mode = refl;
  }
]
