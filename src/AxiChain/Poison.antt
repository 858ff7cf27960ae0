-- ===== src/AxiChain/Poison.antt =====
-- One buffer: poisoning marks it, and clearing gives its data back.
use acq400drv.Prelude.{
  ℕ, suc, ◌+◌, ◌^◌, ◌<◌, ◌≡◌, ◌≢◌, refl, sym, ap, ◌∙◌, true, false, arith, inl, inr, Bool-cases,
  length, get_or, set, length-set, get_or-set_self, get_or-set_ne, set_pair_undone, ne→==, eq→==,
  if◌then◌else◌,
}
use acq400drv.Device.{Dev, Hbm, update}
use acq400drv.AxiChain.{
  poison_mark0, poison_mark1, poison_offset, first_poison_word, next_word, poison_words,
  poison_one_buffer, marks_gone, poison_overwritten, dma_done, restore_words,
  clear_poison_from_buffer,
}

-- Both marker words lie in the buffer.
pub record Fits (w : ℕ) (b : Hbm) : Type 0 where
  pub small : w + 1 < 2 ^ 32
  pub inside : w + 1 < length b.va

-- The markers are in place.
pub record Marked (w : ℕ) (b : Hbm) : Type 0 where
  pub first : get_or b.va w 0 ≡ poison_mark0
  pub second : get_or b.va (next_word w) 0 ≡ poison_mark1

-- The word at which a device's poison starts.
abbrev pub mark_word : Dev → ℕ
mark_word d = first_poison_word (poison_offset d).1

next_word-lem : (w : ℕ) → w + 1 < 2 ^ 32 → next_word w ≡ suc w
next_word-lem w h = omega arith

pub poison_words-Marked : (w : ℕ) (b : Hbm) → Fits w b → Marked w (poison_words w b)
unfolding poison_words
poison_words-Marked w b f =
    let next = next_word-lem w f.small in
    record {
      first =
          get_or-set_ne (set b.va w poison_mark0) (next_word w) w poison_mark1 0 (omega arith)
          ∙ get_or-set_self b.va w poison_mark0 0 (omega arith);
      second =
          get_or-set_self (set b.va w poison_mark0) (next_word w) poison_mark1 0
            (omega (arith, length-set b.va w poison_mark0));
    }

pub Marked-marks_gone : (w : ℕ) (b : Hbm) → Marked w b → marks_gone w b ≡ false
unfolding marks_gone
Marked-marks_gone w b m = rw (m.first) refl

-- Data put aside by poisoning comes back, word for word, if no word of it was a marker.
pub restore-poison :
    (w : ℕ) (b : Hbm)
    → Fits w b
    → get_or b.va w 0 ≢ poison_mark0
    → get_or b.va (next_word w) 0 ≢ poison_mark1
    → (restore_words w (poison_words w b)).va ≡ b.va
unfolding restore_words poison_words
restore-poison w b f h0 h1 =
    let next = next_word-lem w f.small in
    rw (ne→== _ _ h0, ne→== _ _ h1)
      (set_pair_undone b.va w (next_word w) poison_mark0 poison_mark1 0 (λ e. omega arith))

-- The device's poison settings leave room for both markers in buffer `p`.
abbrev pub HasRoom : Dev → ℕ → Type 0
HasRoom d p = Fits (mark_word d) (d.hbm p)

pub mark_word-poison_offset : (d : Dev) → mark_word (poison_offset d).0 ≡ mark_word d
unfolding poison_offset
mark_word-poison_offset d = ground arith

pub hbm-poison_offset : (d : Dev) → (poison_offset d).0.hbm ≡ d.hbm
unfolding poison_offset
hbm-poison_offset d = ground arith

pub hbm-poison_one_buffer :
    (d : Dev) (p q : ℕ)
    → (poison_one_buffer d p).hbm q ≡ update d.hbm p (poison_words (mark_word d) (d.hbm p)) q
unfolding poison_one_buffer
hbm-poison_one_buffer d p q = rw (hbm-poison_offset d)

pub mark_word-poison_one_buffer :
    (d : Dev) (p : ℕ) → mark_word (poison_one_buffer d p) ≡ mark_word d
unfolding poison_one_buffer poison_offset
mark_word-poison_one_buffer d p = ground arith

pub poison_overwritten_lem :
    (d : Dev) (p : ℕ)
    → ((poison_overwritten d p).1 ≡ marks_gone (mark_word d) (d.hbm p))
      × ((poison_overwritten d p).0 ≡ (poison_offset d).0)
unfolding poison_overwritten
poison_overwritten_lem d p = (rw (hbm-poison_offset d), refl)

pub dma_done_lem : (d : Dev) (p : ℕ) → (dma_done d p).1 ≡ marks_gone (mark_word d) (d.hbm p)
unfolding dma_done
dma_done_lem d p = (poison_overwritten_lem d p).0

pub hbm-poison_one_buffer_self :
    (d : Dev) (p : ℕ) → (poison_one_buffer d p).hbm p ≡ poison_words (mark_word d) (d.hbm p)
hbm-poison_one_buffer_self d p = hbm-poison_one_buffer d p p ∙ rw (eq→== p p refl) refl

pub hbm-poison_one_buffer_ne : (d : Dev) (p q : ℕ) → q ≢ p → (poison_one_buffer d p).hbm q ≡ d.hbm q
hbm-poison_one_buffer_ne d p q ne = hbm-poison_one_buffer d p q ∙ rw (ne→== q p ne) refl

-- A buffer that has just been poisoned is not taken for one that the DMA has filled.
dma_done-poison : (d : Dev) (p : ℕ) → HasRoom d p → (dma_done (poison_one_buffer d p) p).1 ≡ false
dma_done-poison d p f =
    dma_done_lem (poison_one_buffer d p) p
    ∙ rw (mark_word-poison_one_buffer d p, hbm-poison_one_buffer_self d p)
        (Marked-marks_gone _ _ (poison_words-Marked (mark_word d) (d.hbm p) f))

hbm-clear_poison :
    (d : Dev) (p q : ℕ)
    → (clear_poison_from_buffer d p).hbm q ≡ (
        if marks_gone (mark_word d) (d.hbm p)
        then d.hbm q
        else update d.hbm p (restore_words (mark_word d) (d.hbm p)) q)
unfolding clear_poison_from_buffer
hbm-clear_poison d p q =
    let d1 : Dev = (poison_offset d).0 in
    let over = poison_overwritten_lem d1 p in
    rw (over.0, over.1, hbm-poison_offset d1, hbm-poison_offset d, mark_word-poison_offset d)
      (elim (Bool-cases (marks_gone (mark_word d) (d.hbm p))) [
        | inl e ↦ rw (e, hbm-poison_offset d1, hbm-poison_offset d)
        | inr e ↦ rw e
      ])

-- Clearing the poison of a buffer that the DMA has not reached gives the buffer its data back, and
-- touches no other buffer. The data must hold no marker at the two marked places.
pub clear-poison :
    (d : Dev) (p : ℕ)
    → HasRoom d p
    → get_or (d.hbm p).va (mark_word d) 0 ≢ poison_mark0
    → get_or (d.hbm p).va (next_word (mark_word d)) 0 ≢ poison_mark1
    → let d' = clear_poison_from_buffer (poison_one_buffer d p) p in
      ((d'.hbm p).va ≡ (d.hbm p).va) × ((q : ℕ) → q ≢ p → d'.hbm q ≡ d.hbm q)
clear-poison d p f h0 h1 =
    let d1 : Dev = poison_one_buffer d p in
    let kept : marks_gone (mark_word d1) (d1.hbm p) ≡ false =
      sym (dma_done_lem d1 p) ∙ dma_done-poison d p f in
    let restored : (clear_poison_from_buffer d1 p).hbm p
        ≡ restore_words (mark_word d) (poison_words (mark_word d) (d.hbm p)) =
      hbm-clear_poison d1 p p
      ∙ rw
          (kept, eq→== p p refl, mark_word-poison_one_buffer d p, hbm-poison_one_buffer_self d p) in
    (
      ap (λ (b : Hbm). b.va) restored ∙ restore-poison (mark_word d) (d.hbm p) f h0 h1,
      λ q ne. hbm-clear_poison d1 p q ∙ rw (kept, ne→== q p ne) (hbm-poison_one_buffer_ne d p q ne),
    )

-- Clearing leaves a buffer alone whose markers are both overwritten.
pub clear-filled :
    (d : Dev) (p q : ℕ) → (dma_done d p).1 ≡ true → (clear_poison_from_buffer d p).hbm q ≡ d.hbm q
clear-filled d p q h = hbm-clear_poison d p q ∙ rw (sym (dma_done_lem d p) ∙ h) refl

pub mark_word-same_settings :
    (d d' : Dev)
    → d'.bufferlen ≡ d.bufferlen
    → d'.axi_poison_offset ≡ d.axi_poison_offset
    → mark_word d' ≡ mark_word d
unfolding poison_offset
mark_word-same_settings d d' len offset = ground (arith, len, offset)

marks_gone-same_words :
    (w w' : ℕ) (b b' : Hbm) → w' ≡ w → b'.va ≡ b.va → marks_gone w' b' ≡ marks_gone w b
unfolding marks_gone
marks_gone-same_words w w' b b' e v = rw (e, v) refl

-- Whether a buffer is taken for filled depends on its words and the poison settings only.
pub dma_done-same_words :
    (d d' : Dev) (q : ℕ)
    → mark_word d' ≡ mark_word d
    → (d'.hbm q).va ≡ (d.hbm q).va
    → (dma_done d' q).1 ≡ (dma_done d q).1
dma_done-same_words d d' q offset words =
    dma_done_lem d' q
    ∙ marks_gone-same_words (mark_word d) (mark_word d') (d.hbm q) (d'.hbm q) offset words
    ∙ sym (dma_done_lem d q)

-- The result of `poison_overwritten` is that of `dma_done`, and it leaves words and settings alone.
pub poison_overwritten-dma_done : (d : Dev) (p : ℕ) → (poison_overwritten d p).1 ≡ (dma_done d p).1
unfolding dma_done
poison_overwritten-dma_done d p = refl

pub mark_word-poison_overwritten :
    (d : Dev) (p : ℕ) → mark_word (poison_overwritten d p).0 ≡ mark_word d
mark_word-poison_overwritten d p = rw ((poison_overwritten_lem d p).1) (mark_word-poison_offset d)

pub hbm-poison_overwritten : (d : Dev) (p : ℕ) → (poison_overwritten d p).0.hbm ≡ d.hbm
hbm-poison_overwritten d p = rw ((poison_overwritten_lem d p).1) (hbm-poison_offset d)
