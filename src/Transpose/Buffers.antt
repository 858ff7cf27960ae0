-- ===== src/Transpose/Buffers.antt =====
-- acq400_stream.cpp, `Demuxer::demux`: the samples fill one buffer after the other, behind the words still to be read.
use native.Mathlib.Nat.{
  add-mul, mul_comm, mul_assoc, mul_right_comm, mul-pos, mul-div_cancel, div-one,
}
use acq400drv.Prelude.{
  ℕ, ◌+◌, ◌-◌, ◌*◌, ◌/◌, ◌<◌, ◌≤◌, ◌≡◌, false, List, arith, ap, ap₂, sym, subst, ◌∙◌, if_false,
}
use acq400drv.Transpose.{
  Format, BufferCursor, EsEntry, Demuxed, channel_buffer_sam, channel_buffer_bytes,
  total_remain_bytes, get_base, step, harvest, demux_part,
}
use acq400drv.Transpose.Spread.{slot_below, apart, harvest-kept, harvest-moved}

-- One sample at a time, and `size` whole samples fill a buffer.
pub record Whole (f : Format) (size : ℕ) : Type 0 where
  pub single : f.double_up ≡ false
  pub some_chan : 0 < f.nchan
  pub some_size : 0 < size
  pub some_bytes : 0 < f.sizeof_t
  pub same_word : f.wordsize ≡ f.sizeof_t
  pub filled : f.bufferlen ≡ size * f.sizeof_t * f.nchan

minus_zero : (n : ℕ) → n - 0 ≡ n
minus_zero n = omega arith

module _ (f : Format) (size : ℕ) (z : Whole f size) where
  bytes_lem : channel_buffer_bytes f ≡ size * f.sizeof_t
  bytes_lem = ap (λ v. v / f.nchan) z.filled ∙ mul-div_cancel (size * f.sizeof_t) z.some_chan

  sam_lem : channel_buffer_sam f ≡ size
  sam_lem = ap (λ v. v / f.sizeof_t) bytes_lem ∙ mul-div_cancel size z.some_bytes

  per_buffer : f.bufferlen / f.sizeof_t ≡ size * f.nchan
  per_buffer =
      ap (λ v. v / f.sizeof_t) (z.filled ∙ mul_right_comm size f.sizeof_t f.nchan)
      ∙ mul-div_cancel (size * f.nchan) z.some_bytes

  pub base_lem : (ibuf : ℕ) → get_base f (ibuf + 1) ≡ get_base f ibuf + size * f.nchan
  base_lem ibuf = omega (arith, per_buffer, add-mul ibuf 1 (f.bufferlen / f.sizeof_t))

  -- The bytes of a sample.
  abbrev pub unit : ℕ
  unit = f.nchan * f.wordsize

  pub some_unit : 0 < unit
  some_unit = mul-pos z.some_chan (subst (λ v. 0 < v) (sym z.same_word) z.some_bytes)

  left_lem :
      (done : ℕ) → done ≤ size → size * f.sizeof_t - done * f.sizeof_t ≡ (size - done) * f.sizeof_t
  left_lem done h =
      let whole : done + (size - done) ≡ size = omega (arith, h) in
      omega (arith, add-mul done (size - done) f.sizeof_t, ap (λ v. v * f.sizeof_t) whole)

  pub unit_lem : (n : ℕ) → n * f.sizeof_t * f.nchan ≡ n * unit
  unit_lem n =
      mul_assoc n f.sizeof_t f.nchan
      ∙ ap (λ v. n * v) (mul_comm f.sizeof_t f.nchan ∙ ap (λ v. f.nchan * v) (sym z.same_word))

  pub remain_lem :
      (c : BufferCursor) (done : ℕ)
      → c.cursor ≡ c.base + done
      → done ≤ size
      → total_remain_bytes f c ≡ (size - done) * unit
  remain_lem c done e h =
      let taken : c.cursor - c.base ≡ done = omega (arith, e) in
      ap₂ (λ v w. (v - w * f.sizeof_t) * f.nchan) bytes_lem taken
      ∙ ap (λ v. v * f.nchan) (left_lem done h)
      ∙ unit_lem (size - done)

  pub words_lem : (n : ℕ) → n * unit / f.sizeof_t ≡ n * f.nchan
  words_lem n =
      ap (λ v. v / f.sizeof_t) (sym (unit_lem n) ∙ mul_right_comm n f.sizeof_t f.nchan)
      ∙ mul-div_cancel (n * f.nchan) z.some_bytes

  -- Part of a buffer: `n` samples after the `done` ones that it has.
  pub record Filled (ibuf done n start : ℕ) (memory after : ℕ → ℕ) : Type 0 where
    pub moved :
        (c r : ℕ)
        → c < f.nchan
        → done ≤ r
        → r < done + n
        → after (get_base f ibuf + c * size + r) ≡ memory (start + (r - done) * f.nchan + c)
    pub before : (a : ℕ) → a < get_base f ibuf → after a ≡ memory a
    pub earlier :
        (c r : ℕ)
        → c < f.nchan
        → r < done
        → after (get_base f ibuf + c * size + r) ≡ memory (get_base f ibuf + c * size + r)
    pub ahead : (a : ℕ) → get_base f (ibuf + 1) ≤ a → after a ≡ memory a

  part_samples : (n : ℕ) → n * unit / (f.nchan * f.wordsize) ≡ n
  part_samples n = mul-div_cancel n some_unit

  slot_same : (c : ℕ) → c * channel_buffer_sam f ≡ c * size
  slot_same c = ap (λ v. c * v) sam_lem

  pub slot_top :
      (ibuf c r : ℕ)
      → c < f.nchan
      → r < size
      → get_base f ibuf + c * size + r < get_base f (ibuf + 1)
  slot_top ibuf c r h l =
      omega (arith, base_lem ibuf, slot_below c f.nchan r size h l, mul_comm f.nchan size)

  harvest-Filled :
      (ibuf done n start : ℕ) (memory : ℕ → ℕ) (esf : List EsEntry)
      → done + n ≤ size
      → get_base f (ibuf + 1) ≤ start
      → Filled ibuf done n start memory
          (harvest f (get_base f ibuf + done) 0 start n (memory, esf)).0
  harvest-Filled ibuf done n start memory esf h ahead = record {
    moved = λ c r l i j.
        ap (harvest f (get_base f ibuf + done) 0 start n (memory, esf)).0
          (omega (arith, slot_same c, i))
        ∙ harvest-moved f z.single (get_base f ibuf + done) 0 start n c (r - done) memory esf
            (subst (λ v. 0 < v) (sym sam_lem) z.some_size)
            (λ d s k m.
              omega (arith, ahead, slot_same d, slot_top ibuf d (done + s) k (omega (arith, m, h))))
            (subst (λ v. 0 + n ≤ v) (sym sam_lem) (omega (arith, h))) l (omega arith)
            (omega (arith, i, j))
        ∙ ap (λ v. memory (start + v * f.nchan + c)) (minus_zero (r - done));
    before =
        λ a l. harvest-kept f z.single _ 0 start n memory esf a (λ c s i j k. omega (arith, l));
    earlier = λ c r l i. harvest-kept f z.single _ 0 start n memory esf _ (λ d s k m o x.
        apart (get_base f ibuf) c d r (done + s) size (omega (arith, h, i)) (omega (arith, h, o))
          (omega (arith, i)) (omega (arith, x, slot_same d)));
    ahead = λ a l. harvest-kept f z.single _ 0 start n memory esf a (λ c s i j k x.
        omega (arith, l, x, slot_same c, slot_top ibuf c (done + s) i (omega (arith, k, h))));
  }

  part_rounds : (n : ℕ) → (n * unit / (f.nchan * f.wordsize) + step f - 1) / step f ≡ n
  part_rounds n =
      let one : n + 1 - 1 ≡ n = omega arith in
      ap₂ (λ m s. (m + s - 1) / s) (part_samples n) (if_false 2 1 z.single)
      ∙ ap (λ v. v / 1) one
      ∙ div-one n

  pub demux_part-Filled :
      (ibuf done n start : ℕ) (d : Demuxed)
      → d.dst.cursor ≡ get_base f ibuf + done
      → done + n ≤ size
      → get_base f (ibuf + 1) ≤ start
      → Filled ibuf done n start d.memory (demux_part f start (n * unit) d).memory
  unfolding demux_part
  demux_part-Filled ibuf done n start d e h ahead =
      subst (Filled ibuf done n start d.memory)
        (ap₂ (λ p m. (harvest f p 0 start m (d.memory, d.esf)).0) (sym e) (sym (part_rounds n)))
        (harvest-Filled ibuf done n start d.memory d.esf h ahead)

  pub demux_part-dst :
      (n start : ℕ) (d : Demuxed)
      → (demux_part f start (n * unit) d).dst ≡ record d.dst { cursor = d.dst.cursor + n }
  unfolding demux_part
  demux_part-dst n start d = ap (λ v. record d.dst { cursor = d.dst.cursor + v }) (part_samples n)
