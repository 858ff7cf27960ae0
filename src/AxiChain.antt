-- ===== src/AxiChain.antt =====
-- acq400_axi_chain.c: two marker words ("poison") near the end of each buffer of the DMA chain show
-- whether the DMA has filled it. The displaced data is kept beside the buffer. Cache maintenance
-- (`dma_sync_single_for_*`) has no effect on the modelled words and logging has no state. A word
-- index out of range reads 0 and is not stored.
pub mod Poison
pub mod Chain
pub mod Frame
use acq400drv.Prelude.{
  ℕ, zero, suc, ◌+◌, ◌-◌, ◌/◌, ◌%◌, ◌^◌, Bool, not, ◌&&◌, List, [], ◌∷◌, ltb, leb, ◌==◌,
  if◌then◌else◌, get_or, set,
}
use acq400drv.Device.{Dev, Hbm, update, PutEmptyHook, null_put_empty, poison_fastidious}

abbrev pub poison_mark0 : ℕ
poison_mark0 = 0xc0de0000

abbrev pub poison_mark1 : ℕ
poison_mark1 = 0xc1de0000

-- `cursor[ii] = ii` for `left` words from `ii` on.
pub init_words : ℕ → ℕ → List ℕ → List ℕ
init_words zero ii words = words
init_words (suc left) ii words = init_words left (ii + 1) (set words ii ii)

pub init_one_buffer : Dev → ℕ → Dev
unfolding init_words
init_one_buffer d p =
    let words = init_words (d.bufferlen / 4) 0 (d.hbm p).va in
    record d { hbm = update d.hbm p (record (d.hbm p) { va = words }) }

-- The offset in bytes; a debug setting past the buffer's end is cut back, for good.
unfoldable pub poison_offset : Dev → Dev × ℕ
poison_offset d =
    if d.axi_poison_offset == 0
    then (d, d.bufferlen)
    else if ltb d.bufferlen d.axi_poison_offset
    then (record d { axi_poison_offset = d.bufferlen }, d.bufferlen)
    else (d, d.axi_poison_offset)

-- `FIRST_POISON_WORD`, in unsigned arithmetic.
abbrev pub first_poison_word : ℕ → ℕ
first_poison_word po_bytes = (po_bytes / 4 + 2 ^ 32 - 2) % 2 ^ 32

-- The index of the second marker word.
abbrev pub next_word : ℕ → ℕ
next_word w = (w + 1) % 2 ^ 32

-- The buffer with its markers written, the data under them put aside unless it is a marker itself.
pub poison_words : ℕ → Hbm → Hbm
poison_words w b = record b {
  va = set (set b.va w poison_mark0) (next_word w) poison_mark1;
  poison0 = if get_or b.va w 0 == poison_mark0 then b.poison0 else get_or b.va w 0;
  poison1 =
      if get_or b.va (next_word w) 0 == poison_mark1
      then b.poison1
      else get_or b.va (next_word w) 0;
}

pub poison_one_buffer : Dev → ℕ → Dev
unfolding poison_offset poison_words
poison_one_buffer d p =
    let (d', po) = poison_offset d in
    record d' { hbm = update d'.hbm p (poison_words (first_poison_word po) (d'.hbm p)) }

pub poison_one_buffer_fastidious : Dev → ℕ → Dev
unfolding poison_one_buffer
poison_one_buffer_fastidious d p =
    if leb d.axi_debug_loopback_index (d.hbm p).ix then poison_one_buffer d p else d

-- Both marker words are gone.
pub marks_gone : ℕ → Hbm → Bool
marks_gone w b =
    not (get_or b.va w 0 == poison_mark0) && not (get_or b.va (next_word w) 0 == poison_mark1)

unfoldable pub poison_overwritten : Dev → ℕ → Dev × Bool
unfolding poison_offset marks_gone
poison_overwritten d p =
    let (d', po) = poison_offset d in (d', marks_gone (first_poison_word po) (d'.hbm p))

-- `dma_done` only adds a log line.
unfoldable pub dma_done : Dev → ℕ → Dev × Bool
unfolding poison_overwritten
dma_done d p = poison_overwritten d p

-- The buffer with the saved words put back.
pub restore_words : ℕ → Hbm → Hbm
restore_words w b = record b { va = set (set b.va w b.poison0) (next_word w) b.poison1 }

pub clear_poison_from_buffer : Dev → ℕ → Dev
clear_poison_from_buffer d p =
    let (d1, po) = poison_offset d in
    let (d2, over) = poison_overwritten d1 p in
    if over
    then d2
    else record d2 { hbm = update d2.hbm p (restore_words (first_poison_word po) (d2.hbm p)) }

-- `_poison_all_buffers` along the descriptors of one channel.
pub poison_chain : List ℕ → Dev → Dev
poison_chain [] d = d
poison_chain (p ∷ ps) d =
    poison_chain ps (poison_one_buffer (if d.axi_init_buffers then init_one_buffer d p else d) p)

pub poison_all_buffers : Dev → Dev
poison_all_buffers d = let d' = poison_chain d.chain0 d in poison_chain d'.chain1 d'

-- `_clear_poison_all_buffers` along the descriptors of one channel.
pub clear_poison_chain : List ℕ → Dev → Dev
clear_poison_chain [] d = d
clear_poison_chain (p ∷ ps) d = clear_poison_chain ps (clear_poison_from_buffer d p)

pub clear_poison_all_buffers : Dev → Dev
clear_poison_all_buffers d =
    let d' = clear_poison_chain d.chain0 d in clear_poison_chain d'.chain1 d'

-- The loop of `check_all_buffers_are_poisoned`, counting the failures.
pub count_unpoisoned : List ℕ → Dev → ℕ → Dev × ℕ
count_unpoisoned [] d fails = (d, fails)
count_unpoisoned (p ∷ ps) d fails =
    let (d', over) = poison_overwritten d p in
    count_unpoisoned ps d' (if over then fails + 1 else fails)

pub check_all_buffers_are_poisoned : Dev → Dev × ℕ
check_all_buffers_are_poisoned d = count_unpoisoned d.empties d 0

-- What the function behind the pointer does.
pub call_hook : PutEmptyHook → Dev → ℕ → Dev
unfolding poison_one_buffer_fastidious
call_hook null_put_empty d p = d
call_hook poison_fastidious d p = poison_one_buffer_fastidious d p

-- The call `adev->onPutEmpty(adev, hbm)`.
unfoldable pub run_put_empty_hook : Dev → ℕ → Dev
unfolding call_hook
run_put_empty_hook d p = call_hook d.on_put_empty d p
