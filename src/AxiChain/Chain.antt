-- ===== src/AxiChain/Chain.antt =====
-- All buffers of the chain: after `poison_all_buffers` the check of the data loop passes.
use acq400drv.Prelude.{
  ℕ, zero, suc, ◌+◌, ◌/◌, ◌<◌, ◌≡◌, ◌≢◌, ◌⊎◌, refl, sym, ◌∙◌, Bool, true, false, List, [], ◌∷◌,
  arith, inl, inr, Bool-cases, length, set, length-set, count, ◌==◌, if◌then◌else◌, ne→==, eq→==,
  ==_iff, ltb, ltb→lt,
}
use acq400drv.Device.{Dev, Hbm}
use acq400drv.AxiChain.{
  init_words, init_one_buffer, poison_offset, poison_words, poison_one_buffer, poison_overwritten,
  poison_chain, poison_all_buffers, count_unpoisoned, check_all_buffers_are_poisoned,
}
use acq400drv.AxiChain.Poison.{
  Marked, mark_word, HasRoom, poison_words-Marked, Marked-marks_gone, mark_word-poison_offset,
  hbm-poison_offset, hbm-poison_one_buffer_self, hbm-poison_one_buffer_ne,
  mark_word-poison_one_buffer, poison_overwritten_lem,
}

length-init_words :
    (left ii : ℕ) (words : List ℕ) → length (init_words left ii words) ≡ length words
unfolding init_words
length-init_words zero ii words = refl
length-init_words (suc left) ii words =
    length-init_words left (ii + 1) (set words ii ii) ∙ length-set words ii ii

length-poison_words : (w : ℕ) (b : Hbm) → length (poison_words w b).va ≡ length b.va
unfolding poison_words
length-poison_words w b = length-set _ _ _ ∙ length-set _ _ _

-- What every poison function keeps.
record Kept (d d' : Dev) : Type 0 where
  word : mark_word d' ≡ mark_word d
  lengths : (q : ℕ) → length (d'.hbm q).va ≡ length (d.hbm q).va
  chain : d'.chain1 ≡ d.chain1
  free : d'.empties ≡ d.empties

Kept-trans : (a b c : Dev) → Kept a b → Kept b c → Kept a c
Kept-trans a b c k l = record {
  word = l.word ∙ k.word;
  lengths = λ q. l.lengths q ∙ k.lengths q;
  chain = l.chain ∙ k.chain;
  free = l.free ∙ k.free;
}

HasRoom-Kept : (q : ℕ) (d d' : Dev) → Kept d d' → HasRoom d q → HasRoom d' q
HasRoom-Kept q d d' k r = record {
  small = rw k.word r.small;
  inside = rw (k.word, k.lengths q) r.inside;
}

init_one_buffer-Kept : (d : Dev) (p : ℕ) → Kept d (init_one_buffer d p)
unfolding init_one_buffer poison_offset
init_one_buffer-Kept d p = record {
  word = ground arith;
  lengths = λ q. ground (arith, length-init_words (d.bufferlen / 4) 0 (d.hbm p).va);
  chain = refl;
  free = refl;
}

init_one_buffer-others : (d : Dev) (p q : ℕ) → q ≢ p → (init_one_buffer d p).hbm q ≡ d.hbm q
unfolding init_one_buffer
init_one_buffer-others d p q ne = rw (ne→== q p ne)

poison_one_buffer-Kept : (d : Dev) (p : ℕ) → Kept d (poison_one_buffer d p)
unfolding poison_one_buffer poison_offset
poison_one_buffer-Kept d p = record {
  word = mark_word-poison_one_buffer d p;
  lengths = λ q. elim (Bool-cases (q == p)) [
    | inl e ↦ rw (hbm-poison_offset d, e, length-poison_words _ (d.hbm p), (==_iff q p).0 e)
    | inr e ↦ rw (hbm-poison_offset d, e)
  ];
  chain = ground arith;
  free = ground arith;
}

-- One round of the loop over the descriptors: initialise if asked to, then poison.
abbrev initialised : Bool → Dev → ℕ → Dev
initialised b d p = if b then init_one_buffer d p else d

abbrev round : Dev → ℕ → Dev
round d p = poison_one_buffer (initialised d.axi_init_buffers d p) p

initialised-Kept : (b : Bool) (d : Dev) (p : ℕ) → Kept d (initialised b d p)
initialised-Kept true d p = init_one_buffer-Kept d p
initialised-Kept false d p = record { word = refl; lengths = λ q. refl; chain = refl; free = refl }

initialised-others : (b : Bool) (d : Dev) (p q : ℕ) → q ≢ p → (initialised b d p).hbm q ≡ d.hbm q
initialised-others true d p q ne = init_one_buffer-others d p q ne
initialised-others false d p q ne = refl

abbrev IsPoisoned : Dev → ℕ → Type 0
IsPoisoned d q = Marked (mark_word d) (d.hbm q)

round-Kept : (d : Dev) (p : ℕ) → Kept d (round d p)
round-Kept d p =
    Kept-trans d _ (round d p) (initialised-Kept d.axi_init_buffers d p)
      (poison_one_buffer-Kept _ p)

round-IsPoisoned_self : (d : Dev) (p : ℕ) → HasRoom d p → IsPoisoned (round d p) p
round-IsPoisoned_self d p room =
    let d0 : Dev = initialised d.axi_init_buffers d p in
    rw (mark_word-poison_one_buffer d0 p, hbm-poison_one_buffer_self d0 p)
      (poison_words-Marked (mark_word d0) (d0.hbm p)
        (HasRoom-Kept p d d0 (initialised-Kept d.axi_init_buffers d p) room))

round-IsPoisoned_ne : (d : Dev) (p q : ℕ) → q ≢ p → IsPoisoned d q → IsPoisoned (round d p) q
round-IsPoisoned_ne d p q ne m =
    rw
      (
        (round-Kept d p).word,
        hbm-poison_one_buffer_ne (initialised d.axi_init_buffers d p) p q ne,
        initialised-others d.axi_init_buffers d p q ne,
      )
      m

still-IsPoisoned :
    (d : Dev) (p q : ℕ) (ps : List ℕ)
    → q ≢ p
    → IsPoisoned d q ⊎ (0 < count q (p ∷ ps))
    → IsPoisoned (round d p) q ⊎ (0 < count q ps)
still-IsPoisoned d p q ps ne (inl m) = inl (round-IsPoisoned_ne d p q ne m)
still-IsPoisoned d p q ps ne (inr h) = inr (ground arith)

-- A buffer is poisoned once the loop has reached it, and stays so.
poison_chain-IsPoisoned :
    (ps : List ℕ) (d : Dev) (q : ℕ)
    → HasRoom d q
    → IsPoisoned d q ⊎ (0 < count q ps)
    → IsPoisoned (poison_chain ps d) q
unfolding poison_chain
poison_chain-IsPoisoned [] d q room (inl m) = m
poison_chain-IsPoisoned [] d q room (inr h) = absurd (omega arith)
poison_chain-IsPoisoned (p ∷ ps) d q room h = elim (Bool-cases (q == p)) [
  | inl e ↦
      let same : p ≡ q = sym ((==_iff q p).0 e) in
      poison_chain-IsPoisoned ps (round d p) q (HasRoom-Kept q d (round d p) (round-Kept d p) room)
        (inl (rw same (round-IsPoisoned_self d q room)))
  | inr e ↦
      poison_chain-IsPoisoned ps (round d p) q (HasRoom-Kept q d (round d p) (round-Kept d p) room)
        (still-IsPoisoned d p q ps (λ same. ground (arith, eq→== q p same)) h)
]

poison_chain-Kept : (ps : List ℕ) (d : Dev) → Kept d (poison_chain ps d)
unfolding poison_chain
poison_chain-Kept [] d = record { word = refl; lengths = λ q. refl; chain = refl; free = refl }
poison_chain-Kept (p ∷ ps) d =
    Kept-trans d (round d p) (poison_chain ps (round d p)) (round-Kept d p)
      (poison_chain-Kept ps (round d p))

count_unpoisoned-zero :
    (ps : List ℕ) (d : Dev) (n : ℕ)
    → ((q : ℕ) → 0 < count q ps → IsPoisoned d q)
    → (count_unpoisoned ps d n).1 ≡ n
unfolding count_unpoisoned
count_unpoisoned-zero [] d n h = refl
count_unpoisoned-zero (p ∷ ps) d n h =
    let d1 : Dev = (poison_offset d).0 in
    let over : (poison_overwritten d p).1 ≡ false =
      (poison_overwritten_lem d p).0
      ∙ Marked-marks_gone (mark_word d) (d.hbm p) (h p (ground arith)) in
    rw (over, (poison_overwritten_lem d p).1, count_unpoisoned)
      (count_unpoisoned-zero ps d1 n
        λ q m. rw (mark_word-poison_offset d, hbm-poison_offset d) (h q (ground arith)))

poison_all-IsPoisoned :
    (d : Dev) (q : ℕ)
    → HasRoom d q
    → 0 < count q d.chain0 + count q d.chain1
    → IsPoisoned (poison_all_buffers d) q
unfolding poison_all_buffers
poison_all-IsPoisoned d q room h =
    let d1 : Dev = poison_chain d.chain0 d in
    let k1 : Kept d d1 = poison_chain-Kept d.chain0 d in
    poison_chain-IsPoisoned d1.chain1 d1 q (HasRoom-Kept q d d1 k1 room)
      (elim (Bool-cases (ltb 0 (count q d.chain0))) [
        | inl e ↦ inl (poison_chain-IsPoisoned d.chain0 d q room (inr (ltb→lt _ _ e)))
        | inr e ↦ inr (rw k1.chain (ground arith))
      ])

empties-poison_all : (d : Dev) → (poison_all_buffers d).empties ≡ d.empties
unfolding poison_all_buffers
empties-poison_all d =
    let d1 : Dev = poison_chain d.chain0 d in
    (poison_chain-Kept d1.chain1 d1).free ∙ (poison_chain-Kept d.chain0 d).free

-- `poison_all_buffers` marks every buffer of the two chains, so `check_all_buffers_are_poisoned`
-- finds nothing wrong, if every free buffer belongs to a chain and has room for the markers.
pub check-poison_all :
    (d : Dev)
    → ((q : ℕ) → 0 < count q d.empties → 0 < count q d.chain0 + count q d.chain1)
    → ((q : ℕ) → 0 < count q d.empties → HasRoom d q)
    → (check_all_buffers_are_poisoned (poison_all_buffers d)).1 ≡ 0
unfolding check_all_buffers_are_poisoned
check-poison_all d covered room =
    count_unpoisoned-zero (poison_all_buffers d).empties (poison_all_buffers d) 0 λ q m.
      let free : 0 < count q d.empties = rw empties-poison_all at m in
      poison_all-IsPoisoned d q (room q free) (covered q free)
