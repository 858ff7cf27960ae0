-- ===== src/DataLoop/Holding.antt =====
-- acq400_drv.c, `axi64_data_loop`: the thread holds one buffer, which is alone in flight, and the
-- lists stay well-formed whatever the other threads do meanwhile.
use acq400drv.Prelude.{
  ℕ, zero, suc, ◌<◌, ◌≡◌, ◌≢◌, sym, ◌∙◌, true, false, List, [], ◌∷◌, Option, none, some, subst,
  arith, inl, inr, List-cases, Bool-cases, Option-cases, length,
}
use acq400drv.Device.{Dev, in_refills, in_inflight}
use acq400drv.AxiChain.{poison_overwritten}
use acq400drv.AxiChain.Frame.{SameLists, poison_overwritten-SameLists}
use acq400drv.HbmLists.{get_empty, put_full, move_list_to_empty}
use acq400drv.HbmLists.Invariant.{
  IsValid, get_empty-IsValid, put_full-IsValid, move_list_to_empty-IsValid,
}
use acq400drv.HbmLists.Path.Emptying.{move_list_to_empty-Moved}
use acq400drv.DataLoop.{
  Settings, count_wakeup, count_firstup, count_catchup, catch_up, catch_up_fuel, look_further,
}

-- The buffer in flight while the thread holds `found`.
abbrev pub held : Option ℕ → List ℕ
held none = []
held (some p) = p ∷ []

-- What is true of a device when the thread holds `found`.
pub record Holds (d : Dev) (found : Option ℕ) : Type 0 where
  pub valid : IsValid d
  pub alone : d.inflight ≡ held found

IsValid-SameLists : (d d' : Dev) → SameLists d d' → IsValid d → IsValid d'
IsValid-SameLists d d' s v q = ground (arith, s, s.states q, v q)

pub Holds-SameLists : (d d' : Dev) (f : Option ℕ) → SameLists d d' → Holds d f → Holds d' f
Holds-SameLists d d' f s h = record {
  valid = IsValid-SameLists d d' s h.valid;
  alone = s.inflight ∙ h.alone;
}

pub count_wakeup-SameLists : (d : Dev) → SameLists d (count_wakeup d)
unfolding count_wakeup
count_wakeup-SameLists d = record {
  empties = ground arith;
  inflight = ground arith;
  refills = ground arith;
  opens = ground arith;
  stash = ground arith;
  states = λ q. ground arith;
  indices = λ q. ground arith;
}

pub put_full-Holds : (d : Dev) (p : ℕ) → Holds d (some p) → Holds (put_full d) none
unfolding put_full
put_full-Holds d p h = record {
  valid = put_full-IsValid d h.valid;
  alone = ground (arith, h.alone);
}

pub get_empty-Holds : (d : Dev) → Holds d none → Holds (get_empty d).0 (get_empty d).1
unfolding get_empty
get_empty-Holds d h = record {
  valid = get_empty-IsValid d h.valid;
  alone = ground (arith, h.alone);
}

-- The counters are no list.
pub count_firstup-Holds : (d : Dev) (f : Option ℕ) → Holds d f → Holds (count_firstup d) f
unfolding count_firstup
count_firstup-Holds d f h = record { valid = λ q. ground (arith, h.valid q); alone = h.alone }

count_catchup-Holds : (d : Dev) (f : Option ℕ) → Holds d f → Holds (count_catchup d) f
unfolding count_catchup
count_catchup-Holds d f h = record { valid = λ q. ground (arith, h.valid q); alone = h.alone }

-- The three ways a round of `catch_up` ends.
pub catch_up-nothing :
    (fuel : ℕ) (d : Dev)
    → (get_empty d).1 ≡ none
    → catch_up (suc fuel) d ≡ some ((get_empty d).0, none)
unfolding catch_up
catch_up-nothing fuel d e = ground (arith, e)

-- The device after a `getEmpty` and a look at the buffer's markers.
abbrev pub looked : Dev → ℕ → Dev
looked d p = (poison_overwritten (get_empty d).0 p).0

pub catch_up-filled :
    (fuel : ℕ) (d : Dev) (p : ℕ)
    → (get_empty d).1 ≡ some p
    → (poison_overwritten (get_empty d).0 p).1 ≡ true
    → catch_up (suc fuel) d ≡ catch_up fuel (count_catchup (put_full (looked d p)))
unfolding catch_up
catch_up-filled fuel d p e o = ground (arith, e, o)

pub catch_up-waiting :
    (fuel : ℕ) (d : Dev) (p : ℕ)
    → (get_empty d).1 ≡ some p
    → (poison_overwritten (get_empty d).0 p).1 ≡ false
    → catch_up (suc fuel) d ≡ some (looked d p, some p)
unfolding catch_up
catch_up-waiting fuel d p e o = ground (arith, e, o)

looked-Holds :
    (d : Dev) (p : ℕ) → Holds d none → (get_empty d).1 ≡ some p → Holds (looked d p) (some p)
looked-Holds d p h got =
    Holds-SameLists (get_empty d).0 (looked d p) (some p)
      (poison_overwritten-SameLists (get_empty d).0 p) (rw got at (get_empty-Holds d h))

-- The device and the buffer that a search ended with.
abbrev pub HoldsFound : Dev × Option ℕ → Type 0
HoldsFound (d, f) = Holds d f

catch_up-Holds :
    (fuel : ℕ) (d : Dev) (r : Dev × Option ℕ)
    → Holds d none
    → catch_up fuel d ≡ some r
    → HoldsFound r
unfolding catch_up
catch_up-Holds zero d r h e = absurd (cc)
catch_up-Holds (suc fuel) d r h e = elim (Option-cases (get_empty d).1) [
  | inl empty ↦
      let out = catch_up-nothing fuel d empty in
      subst HoldsFound (cc) (rw empty at (get_empty-Holds d h))
  | inr (p, got) ↦ elim (Bool-cases (poison_overwritten (get_empty d).0 p).1) [
    | inl over ↦
        catch_up-Holds fuel (count_catchup (put_full (looked d p))) r
          (count_catchup-Holds (put_full (looked d p)) none
            (put_full-Holds (looked d p) p (looked-Holds d p h got)))
          (sym (catch_up-filled fuel d p got over) ∙ e)
    | inr over ↦
        let out = catch_up-waiting fuel d p got over in
        subst HoldsFound (cc) (looked-Holds d p h got)
  ]
]

length-looked :
    (d : Dev) (p : ℕ)
    → (get_empty d).1 ≡ some p
    → suc (length (count_catchup (put_full (looked d p))).empties) ≡ length d.empties
unfolding get_empty put_full count_catchup
length-looked d p e = elim (List-cases d.empties) [
  | inl l ↦ absurd (ground arith)
  | inr (q, rest, l) ↦ ground (arith, poison_overwritten-SameLists (get_empty d).0 p)
]

-- A number of rounds above the number of free buffers lets the while loop come to its end.
pub catch_up-some : (fuel : ℕ) (d : Dev) → length d.empties < fuel → catch_up fuel d ≢ none
catch_up-some zero d h e = omega arith
catch_up-some (suc fuel) d h e = elim (Option-cases (get_empty d).1) [
  | inl empty ↦ ground (arith, catch_up-nothing fuel d empty)
  | inr (p, got) ↦ elim (Bool-cases (poison_overwritten (get_empty d).0 p).1) [
    | inl over ↦
        catch_up-some fuel (count_catchup (put_full (looked d p)))
          (omega (arith, length-looked d p got)) (sym (catch_up-filled fuel d p got over) ∙ e)
    | inr over ↦ ground (arith, catch_up-waiting fuel d p got over)
  ]
]

pub look_further-Holds : (cfg : Settings) (d : Dev) → Holds d none → HoldsFound (look_further cfg d)
unfolding look_further
look_further-Holds cfg d h = elim (Bool-cases cfg.has_catchup) [
  | inl c ↦ elim (Option-cases (catch_up (catch_up_fuel d) d)) [
    | inl e ↦ absurd (catch_up-some (catch_up_fuel d) d (omega arith) e)
    | inr (r, e) ↦ rw (c, e) (catch_up-Holds (catch_up_fuel d) d r h e)
  ]
  | inr c ↦ rw c (get_empty-Holds d h)
]

-- The device whose unread buffers have been discarded.
pub discarded-Holds : (d : Dev) → Holds d none → Holds (move_list_to_empty in_refills d) none
discarded-Holds d h = record {
  valid = move_list_to_empty-IsValid in_refills d (λ e. cc) h.valid;
  alone =
      (move_list_to_empty-Moved in_refills d (λ e. cc)).kept in_inflight (λ e. cc) (λ e. cc)
      ∙ h.alone;
}
