-- ===== src/Lib.antt =====
-- The ACQ400 kernel driver and its stream program: how host buffers travel between the DMA engine,
-- the acquisition threads and the readers, the registers and their cache, how waveforms are played to
-- analog outputs, and how transient captures are taken.
--
-- The parts and how they meet. A device (`Device`) owns host buffers, which stand on kernel lists.
-- The list functions (`HbmLists`) move buffers: EMPTIES to INFLIGHT when a DMA may fill one,
-- INFLIGHT to REFILLS when it is full, REFILLS to OPENS when a reader takes it, OPENS back to
-- EMPTIES. When a buffer comes back, a hook writes marker words into it (`AxiChain`); a data loop
-- (`DataLoop`) waits until the markers are overwritten and then passes the buffer on. Devices without
-- that chain have two DMA channels in turn (`StreamLoop`). A reader (`Reader`) takes the full buffers
-- and tells the other clients. Paths reserve buffers out of the lists (`HbmLists.Path`), and stream clients get the numbers of full buffers on
-- rings (`BufferQueue`). `Registers` reads and writes a device's registers through `RegCache`, and
-- `DeviceSet` says which modules feed the stream. `Fields` shows and stores
-- parts of registers as text. `SewFifo` embeds bytes that users write. `Playloop` plays samples from
-- host buffers to the outputs, and `Awg` is the file that puts them there, with the start and the stop
-- of the playing. The stream program takes a transient capture buffer by buffer (`PrePost`), and
-- afterwards unrolls the ring of buffers that it lies in (`Shuffle`). `Demux` deals raw buffers out to
-- the files of the channels, and `Transpose` moves the samples of a capture so that channels follow one
-- another.
--
-- Files and code:
--   Device     acq400_structs.h, hbm.h: struct acq400_dev, RUN_TIME, HBM
--   AxiChain   acq400_axi_chain.c: poison_one_buffer, poison_overwritten, dma_done,
--              poison_all_buffers, clear_poison_all_buffers, check_all_buffers_are_poisoned
--   HbmLists   acq400_lists.c: getEmpty, putFull, getEmptyFromRefills, getFull, putEmpty, the ao_
--              functions, move_list_to_empty, move_list_to_stash
--   HbmLists.Path   acq400_lists.c: reserve, remove, sort_empties, replace_all, empty_lists
--   RegCache   acq400_reg_cache.c: the dev_rc_ functions
--   DataLoop   acq400_drv.c: axi64_data_loop, axi64_dual_data_loop
--   StreamLoop   acq400_drv.c: ai_data_loop, the end of _acq420_continuous_dma_stop
--   Reader     acq400_drv.c: acq400_continuous_read, _acq400_continuous_read
--   Playloop   acq400_drv.c: xo400_fill_fifo, xo400_write_fifo_dma, ao420_getFifoHeadroom,
--              xo_check_fiferr, xo400_dma; acq400_core.c: xo400_write_fifo; dma_shims.c: dma_memcpy
--   Awg        acq400_drv.c: xo400_reset_playloop, update_abcde_status, ao_auto_rearm; acq400_ui.c:
--              xo400_awg_open, xo400_awg_read, xo400_awg_write, xo400_awg_release
--   Fields     acq400_sysfs_utils.c: the show and store functions of register fields, count_set_bits;
--              acq400_structs.h: getSHL
--   BufferQueue   acq400_structs.h: struct BQ and the BQ_ functions; acq400_drv.c: acq400_bq_notify
--   Registers  acq400_core.c: acq400wr32, acq400rd32, acq400_enable_trg, acq400_enable_event0,
--              acq400_soft_trigger, the AXI DMA length, the data engines
--   Registers.Aggregator   acq400_core.c: enabling and resetting the aggregator, the distributor
--   DeviceSet  acq400_set.c, and acq400_lookupSite and check_fifo_statuses of acq400_core.c
--   Coalesce   acq400_drv.c: coalesce_buffers
--   SewFifo    acq400_sewfifo.c: acq400_sew_fifo_work, acq400_sew_fifo_write_bytes; acq400_structs.h:
--              buf_put, buf_get
--   PrePost    acq400_stream.cpp: StreamHeadPrePost::streamCore, the events of getBufferId
--   Shuffle    acq400_stream.cpp: BufferSeq, BufferDistribution::sortToLinearBuffer; Buffer.h: MapBuffer
--   Shuffle.Distribution   acq400_stream.cpp: BufferDistribution, getSegments and what it calls
--   Demux      acq400_stream.cpp: DemuxBuffer::demux and writeBuffer, for DB_REGULAR
--   Transpose  acq400_stream.cpp: Demuxer::demux, DemuxerImpl::_demux
--   Prelude, Bits   lists, tests and bit arithmetic that the parts share
--   Examples   small devices and caches on which the hypotheses of the theorems hold
--
-- State and operations. A C function that changes a device is a function from device to device,
-- with its result beside it. A pointer to a buffer is a number, and lists hold these numbers. A
-- function that runs under a mutex is one step, and what several threads do is a sequence of such
-- steps (`HbmLists.Steps`); `getFull` and `getEmptyFromRefills`, which test a list before they lock, are
-- one step if nothing comes in between, and their locked parts are steps of their own. The `ao_`
-- functions and the paths' reservations are not among the steps. What the outside does to a waiting thread is an argument, a `Tick`.
-- Reading an entry of an empty list, or past an array, is a fault and a value of its own.
--
-- Bounds and fuel. Unsigned words are natural numbers with `% 2 ^ 32` where the code can wrap. The
-- catch-up loops run on fuel one above the number of free buffers: each round uses up one. The loop of
-- `xo400_fill_fifo` counts its rounds itself, 1000 at most. `getSHL`, `count_set_bits` and the sign
-- extension have fuel 32: a word has 32 bits. The sort of `Shuffle` makes one round per buffer of the
-- capture, and a run of `PrePost` ends with the list of buffers that come. `Demux` has a round for every
-- word of a buffer and one more, as each round but the last takes a word. The loop of `Transpose` has two
-- rounds more than bytes: a round takes a sample at least, but the last that looks at 0.
--
-- Not modelled: cache maintenance of DMA memory, wait queues and wake-ups, logging, timers, the
-- allocation of buffers and the DMA engine itself. What a writer meets in `SewFifo` is an argument.
-- `list_sort` of the kernel is a parameter with its documented laws, and so are CIRC_CNT and
-- CIRC_SPACE; `copy_from_user` and `copy_to_user`; `sscanf` and `sprintf` of one number, and
-- `tolower`, are parameters too; `ioread32` is a function from register to value. `replace` is left
-- out, as it moves a list's head itself. Of the stream program the demultiplexing of two samples or
-- two DMAs at a time, clients, the search for the event's signature and the other stream heads are
-- left out, and its mapped buffers follow one another. A `Bank` reads back what was written to it.
pub mod Demux
pub mod Transpose
pub mod Prelude
pub mod Bits
pub mod Device
pub mod AxiChain
pub mod HbmLists
pub mod RegCache
pub mod DataLoop
pub mod Registers
pub mod BufferQueue
pub mod DeviceSet
pub mod Coalesce
pub mod SewFifo
pub mod StreamLoop
pub mod Reader
pub mod Playloop
pub mod Awg
pub mod Shuffle
pub mod PrePost
pub mod Fields
pub mod Examples
