-- ===== src/Coalesce.antt =====
-- acq400_drv.c, `coalesce_buffers`: neighbouring host buffers that are contiguous in memory are made
-- into one. The addresses and lengths have 32 bits, as on the driver's machine. What is not merged
-- stays on a list on the stack, which the code abandons.
pub mod Pairs
use acq400drv.Prelude.{ℕ, zero, suc, ◌+◌, ◌%◌, ◌^◌, List, [], ◌∷◌, ◌++◌, ◌==◌, if◌then◌else◌}
use acq400drv.Device.{Dev, update}

-- The device, the list `tmp_list` as it is left, and the two counts of `_coalesce_buffers`.
pub record Coalesced : Type 0 where
  pub dev : Dev
  pub left : List ℕ
  pub nbuffers : ℕ
  pub bufferlen : ℕ

-- `b0->len += b1->len; list_move_tail(&b0->list, &adev->EMPTIES)`
abbrev pub merge : ℕ → ℕ → Dev → Dev
merge b0 b1 d = record d {
  hbm = update d.hbm b0 (record (d.hbm b0) { len = ((d.hbm b0).len + (d.hbm b1).len) % 2 ^ 32 });
  empties = d.empties ++ b0 ∷ [];
}

-- The loop of `_coalesce_buffers`, two entries a round; the counts are those so far.
pub coalesce_pairs : List ℕ → Dev → ℕ → ℕ → Coalesced
coalesce_pairs [] d n blen = record { dev = d; left = []; nbuffers = n; bufferlen = blen }
coalesce_pairs (b0 ∷ []) d n blen = record {
  dev = d;
  left = b0 ∷ [];
  nbuffers = n;
  bufferlen = blen;
}
coalesce_pairs (b0 ∷ b1 ∷ rest) d n blen =
    let d' = merge b0 b1 d in
    let merged = coalesce_pairs rest d' (n + 1) (if blen == 0 then (d'.hbm b0).len else blen) in
    let kept = coalesce_pairs rest d n blen in
    if (d.hbm b1).pa == ((d.hbm b0).pa + (d.hbm b0).len) % 2 ^ 32
    then record merged { left = b1 ∷ merged.left }
    else record kept { left = b0 ∷ b1 ∷ kept.left }

-- `_coalesce_buffers` of what EMPTIES held.
pub coalesce_once : Dev → Coalesced
unfolding coalesce_pairs
coalesce_once d = coalesce_pairs d.empties (record d { empties = [] }) 0 0

-- The module parameters `nbuffers` and `bufferlen` beside the device.
pub record Layout : Type 0 where
  pub device : Dev
  pub nbuffers : ℕ
  pub bufferlen : ℕ

-- `coalesce_buffers`, as often as the factor says.
pub coalesce_buffers : ℕ → Layout → Layout
unfolding coalesce_once
coalesce_buffers zero y = y
coalesce_buffers (suc factor) y =
    let c = coalesce_once y.device in
    coalesce_buffers factor
      (record { device = c.dev; nbuffers = c.nbuffers; bufferlen = c.bufferlen })
