-- ===== src/Shuffle.antt =====
-- acq400_stream.cpp, what the post-processing of a transient capture does to the ring of mapped
-- buffers: `BufferDistribution` with `BufferSeq`, and the mapping of Buffer.h. The buffers are mapped
-- one after the other. A vector of `BufferSeq` objects is a function of the index, and a failed `assert` is `none`.
pub mod Cards
pub mod Sorting
pub mod Order
pub mod Linear
pub mod Distribution
use acq400drv.Prelude.{
  ℕ, zero, suc, ◌+◌, ◌-◌, ◌*◌, ◌/◌, ◌^◌, Bool, true, false, ◌&&◌, List, [], Option, none, some, ltb,
  ◌==◌, if◌then◌else◌,
}

-- The static members of `MapBuffer` and `Buffer`; `ba_hi` is `ba1`.
pub record Mapping : Type 0 where
  pub ba0 : ℕ
  pub ba_lo : ℕ
  pub ba_hi : ℕ
  pub bufferlen : ℕ
  pub nbuffers : ℕ

-- `MapBuffer::ba`
abbrev pub ba : Mapping → ℕ → ℕ
ba mp ib = mp.ba0 + ib * mp.bufferlen

-- `MapBuffer::getBuffer`
pub get_buffer : Mapping → ℕ → ℕ
get_buffer mp pb =
    if ltb pb mp.ba0
    then 2 ^ 32 - 1
    else if ltb mp.ba_hi pb
    then 2 ^ 32 - 2
    else (pb - mp.ba0) / mp.bufferlen

-- `enum BS_STATE`
pub data BsState : Type 0 where
  bs_unknown bs_empty bs_pre bs_post bs_es : BsState

-- `struct BufferSeq`, with the bytes of the buffer; `esp` is 0 for the null pointer.
pub record BufferSeq : Type 0 where
  pub ibuf : ℕ
  pub state : BsState
  pub iseq : ℕ
  pub esp : ℕ
  pub bytes : List ℕ

abbrev pub Buffers : Type 0
Buffers = ℕ → BufferSeq

abbrev pub put : Buffers → ℕ → BufferSeq → Buffers
put mm ib b i = if i == ib then b else mm i

-- `BufferSeq::clr`
abbrev pub clr : BufferSeq → BufferSeq
clr b = record b { iseq = 0; state = bs_empty; esp = 0 }

abbrev pub is_empty_state : BsState → Bool
is_empty_state bs_empty = true
is_empty_state bs_unknown = false
is_empty_state bs_pre = false
is_empty_state bs_post = false
is_empty_state bs_es = false

abbrev pub is_es : BsState → Bool
is_es bs_es = true
is_es bs_unknown = false
is_es bs_empty = false
is_es bs_pre = false
is_es bs_post = false

-- `BufferSeq::findSeq`, from index `i` on with `n` objects left
pub find_seq : Buffers → ℕ → ℕ → ℕ → Option ℕ
find_seq mm iseq i zero = none
find_seq mm iseq i (suc n) =
    if (mm i).iseq == iseq then some (mm i).ibuf else find_seq mm iseq (suc i) n

-- `BufferSeq::findES`
pub find_es : Buffers → ℕ → ℕ → Option ℕ
find_es mm i zero = none
find_es mm i (suc n) = if is_es (mm i).state then some (mm i).ibuf else find_es mm (suc i) n

module _ (mp : Mapping) where
  -- `BufferSeq::copy`
  pub copy : BufferSeq → BufferSeq → BufferSeq
  copy to from = record to {
    bytes = from.bytes;
    state = from.state;
    iseq = from.iseq;
    esp = if from.esp == 0 then 0 else from.esp + ba mp to.ibuf - ba mp from.ibuf;
  }

  -- `BufferSeq::mv`
  pub mv : Buffers → ℕ → ℕ → Buffers
  mv mm from to = let m1 = put mm to (copy (mm to) (mm from)) in put m1 from (clr (m1 from))

  -- `BufferSeq::swap`
  pub swap : Buffers → ℕ → ℕ → ℕ → Buffers
  swap mm aa bb tt =
      let m1 = put mm tt (copy (mm tt) (mm aa)) in
      let m2 = put m1 aa (copy (m1 aa) (m1 bb)) in put m2 bb (copy (m2 bb) (m2 tt))

  -- The loop of `sortToLinearBuffer` over `iseq`, from `j` on for `n` rounds.
  pub sort_loop : Buffers → ℕ → ℕ → Option Buffers
  sort_loop mm j zero = some mm
  sort_loop mm j (suc n) = elim (find_seq mm j 0 mp.nbuffers) [
    | none ↦ none
    | some ib_from ↦
        sort_loop (if is_empty_state (mm j).state then mv mm ib_from j else swap mm ib_from j 0)
          (suc j) n
  ]

  -- The body of its first labelling loop, for buffer `ib`.
  pub label_to_end : ℕ → ℕ → ℕ → BufferSeq → BufferSeq
  label_to_end esp ib iseq b =
      let ib_esp = get_buffer mp esp in
      let b1 = record b { iseq = iseq } in
      if ltb ib ib_esp
      then record b1 { state = bs_pre }
      else if ib == ib_esp
      then record b1 { state = bs_es; esp = esp }
      else record b1 { state = bs_post }

  -- The body of its second one.
  pub label_from_start : ℕ → ℕ → ℕ → ℕ → BufferSeq → BufferSeq
  label_from_start esp ib_fin ib iseq b =
      let ib_esp = get_buffer mp esp in
      let b1 = record b { iseq = iseq } in
      if ltb ib_esp ib_fin && ltb ib ib_esp
      then record b1 { state = bs_pre }
      else if ib == ib_esp
      then record b1 { state = bs_es; esp = esp }
      else record b1 { state = bs_post }

-- A labelling loop: `n` buffers from `ib` on get the numbers after `iseq`.
pub label_loop : (ℕ → ℕ → BufferSeq → BufferSeq) → ℕ → ℕ → ℕ → Buffers → Buffers
label_loop body ib iseq zero mm = mm
label_loop body ib iseq (suc n) mm =
    label_loop body (suc ib) (suc iseq) n (put mm ib (body ib (suc iseq) (mm ib)))

-- A new `BufferSeq`, for buffers with contents `mem`.
abbrev pub unlabelled : (ℕ → List ℕ) → Buffers
unlabelled mem ib = record { ibuf = ib; state = bs_unknown; iseq = 0; esp = 0; bytes = mem ib }

module _ (mp : Mapping) where
  -- How many buffers each labelling loop of `sortToLinearBuffer` takes.
  abbrev pub to_end : ℕ → ℕ
  to_end start = mp.nbuffers - get_buffer mp start

  abbrev pub from_start : ℕ → ℕ
  from_start finish = suc (get_buffer mp finish) - get_buffer mp mp.ba_lo

  pub label_all : (ℕ → List ℕ) → ℕ → ℕ → ℕ → Buffers
  label_all mem esp start finish =
      label_loop (label_from_start mp esp (get_buffer mp finish)) (get_buffer mp mp.ba_lo)
        (to_end start) (from_start finish)
        (label_loop (label_to_end mp esp) (get_buffer mp start) 0 (to_end start) (unlabelled mem))

  -- `BufferDistribution::sortToLinearBuffer`: the buffers and the new `esp`.
  pub sort_to_linear : (ℕ → List ℕ) → ℕ → ℕ → ℕ → Option (Buffers × ℕ)
  sort_to_linear mem esp start finish =
      elim (sort_loop mp (label_all mem esp start finish) 1 (to_end start + from_start finish)) [
        | none ↦ none
        | some sorted ↦
            let mm = put sorted 0 (clr (sorted 0)) in
            elim (find_es mm 0 mp.nbuffers) [ none ↦ none | some ib_es ↦ some (mm, (mm ib_es).esp) ]
      ]
