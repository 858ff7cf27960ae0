-- ===== src/Shuffle/Cards.antt =====
-- acq400_stream.cpp, `BufferSeq::copy` and `swap`: what a buffer holds, with the event pointer counted
-- from the buffer's start, moves as a whole.
use acq400drv.Prelude.{
  if_true, if_false, ℕ, ◌+◌, ◌-◌, ◌<◌, ◌≤◌, ◌≡◌, ◌≢◌, ◌⊎◌, inl, inr, List, Option, none, some, ◌==◌,
  if◌then◌else◌, refl, arith, ap, Bool-cases, eq→==, ne→==, ==_iff, sym, subst, ap₂, ◌∙◌,
}
use acq400drv.Shuffle.{Mapping, ba, BsState, BufferSeq, Buffers, put, copy, swap}

-- What a buffer holds, wherever it stands.
pub record Card : Type 0 where
  pub bytes : List ℕ
  pub state : BsState
  pub iseq : ℕ
  pub event_at : Option ℕ

abbrev pub event_offset : Mapping → ℕ → ℕ → Option ℕ
event_offset mp ib esp = if esp == 0 then none else some (esp - ba mp ib)

abbrev pub card : Mapping → BufferSeq → Card
card mp b = record {
  bytes = b.bytes;
  state = b.state;
  iseq = b.iseq;
  event_at = event_offset mp b.ibuf b.esp;
}

-- The object is that of its index, and its event pointer does not point before its buffer.
pub record Placed (mp : Mapping) (ib : ℕ) (b : BufferSeq) : Type 0 where
  pub index : b.ibuf ≡ ib
  pub event : (b.esp ≡ 0) ⊎ (ba mp b.ibuf ≤ b.esp)

module _ (mp : Mapping) (pos : 0 < mp.ba0) where
  moved : ℕ → ℕ → ℕ → ℕ
  moved esp ib ib' = if esp == 0 then 0 else esp + ba mp ib' - ba mp ib

  event_offset-moved :
      (esp ib ib' : ℕ)
      → (esp ≡ 0) ⊎ (ba mp ib ≤ esp)
      → event_offset mp ib' (moved esp ib ib') ≡ event_offset mp ib esp
  unfolding moved
  event_offset-moved esp ib ib' h = ground arith

  moved-le :
      (esp ib ib' : ℕ)
      → (esp ≡ 0) ⊎ (ba mp ib ≤ esp)
      → (moved esp ib ib' ≡ 0) ⊎ (ba mp ib' ≤ moved esp ib ib')
  unfolding moved
  moved-le esp ib ib' h = ground arith

  card-copy :
      (to from : BufferSeq)
      → (from.esp ≡ 0) ⊎ (ba mp from.ibuf ≤ from.esp)
      → card mp (copy mp to from) ≡ card mp from
  unfolding copy moved
  card-copy to from e =
      ap
        (λ (off : Option ℕ). record {
          bytes = from.bytes;
          state = from.state;
          iseq = from.iseq;
          event_at = off;
        })
        (event_offset-moved from.esp from.ibuf to.ibuf e)

  copy-Placed :
      (i j : ℕ) (to from : BufferSeq)
      → Placed mp i to
      → Placed mp j from
      → Placed mp i (copy mp to from)
  unfolding copy moved
  copy-Placed i j to from p q = record {
    index = p.index;
    event = moved-le from.esp from.ibuf to.ibuf q.event;
  }

  abbrev pub AllPlaced : Buffers → Type 0
  AllPlaced mm = (i : ℕ) → Placed mp i (mm i)

  -- One copy between places of the vector.
  copied : Buffers → ℕ → ℕ → Buffers
  copied mm to from = put mm to (copy mp (mm to) (mm from))

  copied-AllPlaced : (mm : Buffers) (to from : ℕ) → AllPlaced mm → AllPlaced (copied mm to from)
  unfolding copied
  copied-AllPlaced mm to from h i = elim (Bool-cases (i == to)) [
    | inl e ↦ rw (e) (
        subst (λ n. Placed mp n (copy mp (mm to) (mm from))) (sym ((==_iff i to).0 e))
          (copy-Placed to from (mm to) (mm from) (h to) (h from)))
    | inr e ↦ rw e (h i)
  ]

  card-copied :
      (mm : Buffers) (to from i : ℕ)
      → AllPlaced mm
      → card mp (copied mm to from i) ≡ (if i == to then card mp (mm from) else card mp (mm i))
  unfolding copied
  card-copied mm to from i h = elim (Bool-cases (i == to)) [
    | inl e ↦ rw e (card-copy (mm to) (mm from) (h from).event)
    | inr e ↦ rw e refl
  ]

  pub swap-AllPlaced : (mm : Buffers) (a b t : ℕ) → AllPlaced mm → AllPlaced (swap mp mm a b t)
  unfolding swap copied
  swap-AllPlaced mm a b t h =
      let m1 = copied mm t a in
      let m2 = copied m1 a b in
      copied-AllPlaced m2 b t (copied-AllPlaced m1 a b (copied-AllPlaced mm t a h))

  -- The tests of a swap by way of `t`, at `t` and at `b`.
  from_saved :
      (mm : Buffers) (a b t : ℕ)
      → AllPlaced mm
      → a ≢ t
      → card mp (copied (copied mm t a) a b t) ≡ card mp (mm a)
  from_saved mm a b t h na =
      card-copied (copied mm t a) a b t (copied-AllPlaced mm t a h)
      ∙ if_false _ _ (ne→== t a (λ e. na (sym e)))
      ∙ card-copied mm t a t h
      ∙ if_true _ _ (eq→== t t refl)

  from_kept :
      (mm : Buffers) (a b t : ℕ) → AllPlaced mm → b ≢ t → card mp (copied mm t a b) ≡ card mp (mm b)
  from_kept mm a b t h nb = card-copied mm t a b h ∙ if_false _ _ (ne→== b t nb)

  -- A swap of the buffers `a` and `b` by way of `t`.
  pub card-swap :
      (mm : Buffers) (a b t i : ℕ)
      → AllPlaced mm
      → a ≢ t
      → b ≢ t
      → card mp (swap mp mm a b t i) ≡ (
          if i == b
          then card mp (mm a)
          else if i == a
          then card mp (mm b)
          else if i == t
          then card mp (mm a)
          else card mp (mm i))
  unfolding swap copied
  card-swap mm a b t i h na nb =
      let m1 = copied mm t a in
      let m2 = copied m1 a b in
      let p1 = copied-AllPlaced mm t a h in
      let p2 = copied-AllPlaced m1 a b p1 in
      card-copied m2 b t i p2
      ∙ ap₂ (λ (x y : Card). if i == b then x else y) (from_saved mm a b t h na)
          (card-copied m1 a b i p1
            ∙ ap₂ (λ (x y : Card). if i == a then x else y) (from_kept mm a b t h nb)
                (card-copied mm t a i h))
