-- ===== src/Examples/Caching.antt =====
-- A cache with registers 1 and 40 (byte offsets 4 and 160).
use acq400drv.Prelude.{ℕ, ◌/◌, ◌<◌, ◌≡◌, ◌↔◌, refl, if◌then◌else◌, arith, get_or, [], ◌∷◌, ◌^◌}
use acq400drv.RegCache.{
  RegCache, init, register_init, hit, miss, fault, look_up, read, written, not_cached, faulted,
  write, update,
}
use acq400drv.RegCache.Laws.{IsValid, has, register_init-IsValid, look_up-fault_iff}
use acq400drv.RegCache.Update.{read-update}

abbrev fresh : RegCache
fresh = init 1

fresh-IsValid : IsValid fresh
unfolding init
fresh-IsValid = record { max_reg_ok = refl; map_size = refl; data_size = refl; map_words = words }
  where
    words : (i : ℕ) → get_or (0 ∷ 0 ∷ 0 ∷ 0 ∷ []) i 0 < 2 ^ 32
    words i = ground arith

abbrev pub used : RegCache
used = (register_init (register_init fresh 4 17).0 160 23).0

pub used-IsValid : IsValid used
used-IsValid =
    register_init-IsValid (register_init fresh 4 17).0 160 23
      (register_init-IsValid fresh 4 17 fresh-IsValid)

abbrev rewritten : RegCache
rewritten = elim (write used 160 99) [ written rc ↦ rc | not_cached ↦ used | faulted ↦ used ]

written_lem : write used 160 99 ≡ written rewritten
unfolding write register_init init
written_lem = refl

read-update_example :
    read (update (λ reg. reg) used) 160 ≡ (if has used (160 / 4) then hit (160 / 4) else miss)
read-update_example = read-update (λ reg. reg) used 160 used-IsValid (omega arith)

look_up-fault_iff_example : (look_up used 512 ≡ fault) ↔ (512 / 4 ≡ used.max_reg)
look_up-fault_iff_example = look_up-fault_iff used 512 used-IsValid
