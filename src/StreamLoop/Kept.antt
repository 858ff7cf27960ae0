-- ===== src/StreamLoop/Kept.antt =====
-- acq400_drv.c, `ai_data_loop`: its turns lose and double no buffer.
use acq400drv.Prelude.{
  ℕ, ◌≡◌, refl, ◌∙◌, Bool, true, false, Option, none, some, List, [], ◌∷◌, inl, inr, Bool-cases,
  Option-cases,
}
use acq400drv.Device.{Dev, in_refills}
use acq400drv.HbmLists.{get_empty, put_full, get_empty_from_refills}
use acq400drv.HbmLists.Count.{
  total, total-get_empty, total-put_full, total-get_empty_from_refills, total-move_list_to_empty,
}
use acq400drv.DataLoop.{Outcome, goes_on, quits}
use acq400drv.StreamLoop.{Turn, Channels, give, next_dma_buffer, drain, rearm, turn, turns}
use acq400drv.StreamLoop.TwoInFlight.{
  pulled_from, next_dma_buffer-free, next_dma_buffer-pulled, next_dma_buffer-none,
}

-- The device that a turn leaves.
abbrev pub left_by : {C : Type 0} → Outcome C → Dev
left_by (quits d) = d
left_by (goes_on d c) = d

-- Other threads lose or double no buffer either.
abbrev pub IsKeeping : (Dev → Dev) → Type 0
IsKeeping f = (q : ℕ) (d : Dev) → total q (f d) ≡ total q d

abbrev pub Keeps : Turn → Type 0
Keeps t = IsKeeping t.during_wait × IsKeeping t.after_put_full × IsKeeping t.before_pull

next_dma_buffer-total :
    (q : ℕ) (before : Dev → Dev) (d : Dev)
    → IsKeeping before
    → total q (next_dma_buffer before d).0 ≡ total q d
next_dma_buffer-total q before d keeps = elim (Option-cases (get_empty d).1) [
  | inr (p, e) ↦ rw (next_dma_buffer-free before d p e) (total-get_empty q d)
  | inl e ↦
      let d1 : Dev = pulled_from before d in
      let k = total-get_empty_from_refills q d1 ∙ keeps q (get_empty d).0 ∙ total-get_empty q d in
      elim (Option-cases (get_empty_from_refills d1).1) [
        | inl n ↦ rw (next_dma_buffer-none before d e n) k
        | inr (p, s) ↦ rw (next_dma_buffer-pulled before d p e s) k
      ]
]

drain-total :
    (q : ℕ) (quit : Bool) (d : Dev) (c : Channels) → total q (left_by (drain quit d c)) ≡ total q d
unfolding drain
drain-total q true d c = total-move_list_to_empty q in_refills _ (λ e. cc)
drain-total q false d c = total-move_list_to_empty q in_refills _ (λ e. cc)

rearm-total :
    (q : ℕ) (quit fifo : Bool) (c : Channels) (r : Dev × Option (ℕ × Bool))
    → total q (left_by (rearm quit fifo c r)) ≡ total q r.0
unfolding rearm
rearm-total q quit fifo c (d, none) = refl
rearm-total q quit true c (d, some (p, emergency)) = refl
rearm-total q quit false c (d, some (p, true)) = drain-total q quit d (give c p)
rearm-total q quit false c (d, some (p, false)) = refl

-- A turn loses or doubles no buffer.
turn-total :
    (q : ℕ) (quit : Bool) (t : Turn) (d : Dev) (c : Channels)
    → Keeps t
    → total q (left_by (turn quit t d c)) ≡ total q d
unfolding turn
turn-total q quit t d c keeps =
    let d1 : Dev = t.during_wait d in
    let d2 : Dev = t.after_put_full (put_full d1) in
    elim (Bool-cases t.timed_out) [
      | inl e ↦ rw (e, turn) (keeps.0 q d)
      | inr e ↦ elim (Bool-cases t.stop_after) [
        | inl s ↦ rw (e, turn, s) (keeps.0 q d)
        | inr s ↦ elim (Bool-cases t.synced) [
          | inr y ↦ rw (e, turn, s, y) (keeps.0 q d)
          | inl y ↦
              rw (e, turn, s, y)
                (rearm-total q quit t.fifo_error _ (next_dma_buffer t.before_pull d2)
                  ∙ next_dma_buffer-total q t.before_pull d2 keeps.2
                  ∙ keeps.1 q (put_full d1)
                  ∙ total-put_full q d1
                  ∙ keeps.0 q d)
        ]
      ]
    ]

abbrev pub AllKeep : List Turn → Type 0
AllKeep [] = Unit
AllKeep (t ∷ ts) = Keeps t × AllKeep ts

continue-total :
    (q n : ℕ) (o : Outcome Channels) (next : Dev → Channels → Outcome Channels)
    → ((d : Dev) (c : Channels) → total q (left_by (next d c)) ≡ total q d)
    → total q (left_by o) ≡ n
    → total q (left_by (elim o [ quits d ↦ quits d | goes_on d c ↦ next d c ])) ≡ n
continue-total q n (goes_on d c) next later e = later d c ∙ e
continue-total q n (quits d) next later e = e

pub turns-total :
    (q : ℕ) (quit : Bool) (ts : List Turn) (d : Dev) (c : Channels)
    → AllKeep ts
    → total q (left_by (turns quit ts d c)) ≡ total q d
unfolding turns
turns-total q quit [] d c keeps = refl
turns-total q quit (t ∷ ts) d c keeps = elim (Bool-cases t.stop_before) [
  | inl e ↦ rw e refl
  | inr e ↦ rw e (
      continue-total q (total q d) (turn quit t d c) (turns quit ts)
        (λ d' c'. turns-total q quit ts d' c' keeps.1) (turn-total q quit t d c keeps.0))
]
