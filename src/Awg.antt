-- ===== src/Awg.antt =====
-- acq400_drv.c, starting and stopping what `Playloop` plays: `xo400_reset_playloop`, `ao_auto_rearm` and
-- the segments of `update_abcde_status`; acq400_ui.c, the waveform as a file: `xo400_awg_open`, `_read`,
-- `_write` and `_release`. Calls that only set up hardware are logged in order. The waits for the
-- worker thread to end are steps after which it has ended. The settings are those after `xo400_getDMA`.
pub mod Calls
pub mod Reset
pub mod Rearm
pub mod Bytes
pub mod Room
pub mod File
pub mod Session
use acq400drv.Prelude.{
  ℕ, zero, suc, ◌+◌, ◌-◌, ◌*◌, ◌/◌, ◌%◌, ◌^◌, min, Bool, true, false, ◌&&◌, List, [], ◌∷◌, ◌++◌,
  Option, none, some, ltb, leb, ◌==◌, if◌then◌else◌,
}
use acq400drv.Device.{truthy}
use acq400drv.SewFifo.{CircBuf, buf_get, buf_put}
use acq400drv.Playloop.{XoDev, AoPlayloop, Settings, Look, fill_fifo}

-- Calls of the device's own operations, of the distributor and of the worker thread.
pub data Call : Type 0 where
  on_stop on_start stop_set start_set : Call
  abort_en abort_clr feeder_off feeder_on : Call
  distributor_reset dio432_clocked get_dma clear_fifo_flags : Call

-- The segment of the distributor's buffers that is played, and the queues of requests and replies.
pub record Segments : Type 0 where
  pub new_queue : CircBuf
  pub ret_queue : CircBuf
  pub awg_seg : ℕ
  pub max_seg : ℕ
  pub segment_offset : ℕ

pub record Output : Type 0 where
  pub xo : XoDev
  pub calls : List Call
  pub task_active : Bool
  pub segments : Segments
  -- the bytes of each buffer
  pub mem : ℕ → List ℕ

-- What kind of output it is: first of the distributor's set, a DIO432, an AO424 with bipolar span.
pub record Kind : Type 0 where
  pub heads_set : Bool
  pub is_dio432 : Bool
  pub flips : Bool

-- `first_in_set` of `xo400_reset_playloop`.
abbrev pub leads_set : Settings → Kind → Bool
leads_set cfg k = cfg.use_distributor && k.heads_set

abbrev pub call : Call → Output → Output
call c o = record o { calls = o.calls ++ c ∷ [] }

abbrev pub with_playloop : (AoPlayloop → AoPlayloop) → Output → Output
with_playloop f o = record o { xo = record o.xo { playloop = f o.xo.playloop } }

abbrev pub task_ended : Output → Output
task_ended o = record o { task_active = false }

-- XO400_PLAYCONTINUOUS
abbrev pub play_continuous : ℕ
play_continuous = 0xffffffff

-- The start that `xo400_reset_playloop` ends with.
pub start_play : Settings → Kind → Look → ℕ → Output → Output
start_play cfg k look n o =
    let o1 = if k.is_dio432 then call dio432_clocked o else o in
    if leads_set cfg k
    then (let o2 = call get_dma o1 in
        call start_set
          (if n == play_continuous then o2 else record (call feeder_on o2) { task_active = true }))
    else if cfg.use_distributor
    then o1
    else (let o2 = call get_dma o1 in
        let o3 = record o2 { xo = (fill_fifo cfg look o2.xo).0 } in
        call on_start (call clear_fifo_flags o3))

-- The stop that it ends with, for a length of 0.
pub stop_play : Settings → Kind → Output → Output
stop_play cfg k o =
    if leads_set cfg k
    then call stop_set o
    else if cfg.use_distributor
    then o
    else with_playloop (λ p. record p { cursor = 0 }) (call on_stop o)

-- What it does with the mutex and after it, until the worker thread has ended.
pub halt : Settings → Kind → Output → Output
halt cfg k o =
    let o1 = call on_stop o in
    let o2 = if leads_set cfg k then call feeder_off o1 else o1 in
    task_ended (if cfg.use_distributor then call distributor_reset o2 else o2)

-- Its part once the mutex is taken.
pub reset_locked : Settings → Kind → Look → ℕ → Output → Output
reset_locked cfg k look n o =
    let o1 =
      with_playloop
        (λ p. if n == play_continuous then record p { oneshot = 0 } else record p { length = n })
        (halt cfg k o) in
    if n == 0 then stop_play cfg k o1 else start_play cfg k look n o1

-- `xo400_reset_playloop`, with whether it returned 0; `no_lock` says that the wait for the mutex was
-- interrupted.
pub reset_playloop : Settings → Kind → Look → Bool → ℕ → Output → Output × Bool
reset_playloop cfg k look no_lock n o =
    if truthy n && cfg.use_distributor && o.task_active
    then (o, false)
    else (let o1 =
          if n == 0 && cfg.use_distributor
          then call abort_clr
              (task_ended (call abort_en (with_playloop (λ p. record p { oneshot = 1 }) o)))
          else o in
        if no_lock then (o1, false) else (reset_locked cfg k look n o1, true))

-- VALID_ABCDE
abbrev pub valid_abcde : ℕ → ℕ → Bool
valid_abcde max_seg bx = leb 0x41 max_seg && leb max_seg 0x5a && leb 0x41 bx && leb bx max_seg

-- AWG_ABCDE_LEN
abbrev pub awg_abcde_len : ℕ
awg_abcde_len = 4096

module _ (circ_cnt : ℕ → ℕ → ℕ → ℕ) where
  -- `update_abcde_status`: a waiting request is taken, the segment changed if it is valid, and the old
  -- one returned.
  pub update_abcde : Segments → Segments
  update_abcde s =
      if circ_cnt s.new_queue.head s.new_queue.tail awg_abcde_len == 0
      then s
      else (let (q, bx) = buf_get s.new_queue awg_abcde_len in
          let ok = valid_abcde s.max_seg bx in
          record s {
            new_queue = q;
            awg_seg = if ok then bx else s.awg_seg;
            segment_offset = if ok then bx - 0x41 else s.segment_offset;
            ret_queue = buf_put s.ret_queue s.awg_seg awg_abcde_len;
          })

  -- `ao_auto_rearm`, once the FIFO has drained.
  pub auto_rearm : Settings → Kind → Look → Bool → Output → Output
  auto_rearm cfg k look no_lock o =
      let o1 = call on_stop o in
      let p = o1.xo.playloop in
      if ltb 0 p.length && p.oneshot == 2
      then (reset_playloop cfg k look no_lock p.length (
          with_playloop (λ p. record p { cursor = 0 })
            (record o1 { segments = update_abcde o1.segments }))).0
      else o1

-- How the file was opened, as `f_flags & O_ACCMODE`.
pub data Access : Type 0 where
  rdonly wronly rdwr : Access

-- `xo400_awg_open`
pub awg_open : Settings → Kind → Look → Bool → Access → Output → Output
awg_open cfg k look no_lock wronly o =
    (reset_playloop cfg k look no_lock 0 (with_playloop (λ p. record p { length = 0 }) o)).0
awg_open cfg k look no_lock rdonly o = o
awg_open cfg k look no_lock rdwr o = o

-- `xo400_awg_release`; `oneshot` is what the minor number of the file asks for.
pub awg_release : Settings → Kind → Look → Bool → Access → ℕ → Output → Output
awg_release cfg k look no_lock rdonly oneshot o = o
awg_release cfg k look no_lock access oneshot o =
    let o1 = with_playloop (λ p. record p { oneshot = oneshot }) o in
    (reset_playloop cfg k look no_lock o1.xo.playloop.length o1).0

abbrev pub take : ℕ → List ℕ → List ℕ
take zero l = []
take (suc n) [] = []
take (suc n) (x ∷ l) = x ∷ take n l

-- `n` bytes from `offset` on.
abbrev pub bytes_at : List ℕ → ℕ → ℕ → List ℕ
bytes_at l zero n = take n l
bytes_at [] (suc offset) n = []
bytes_at (x ∷ l) (suc offset) n = bytes_at l offset n

-- A copy of `xs` to `offset`.
abbrev pub copy_to : List ℕ → ℕ → List ℕ → List ℕ
copy_to l offset [] = l
copy_to [] offset (y ∷ ys) = []
copy_to (x ∷ l) zero (y ∷ ys) = y ∷ copy_to l zero ys
copy_to (x ∷ l) (suc offset) (y ∷ ys) = x ∷ copy_to l offset (y ∷ ys)

-- `flip_x16_sign_bit` on the bytes of 16-bit words, the low one first.
abbrev pub flip_x16_sign_bit : List ℕ → List ℕ
flip_x16_sign_bit [] = []
flip_x16_sign_bit (x ∷ []) = x ∷ []
flip_x16_sign_bit (low ∷ high ∷ rest) = low ∷ (high + 128) % 256 ∷ flip_x16_sign_bit rest

abbrev pub signs_flipped : Kind → List ℕ → List ℕ
signs_flipped k bytes = if k.flips then flip_x16_sign_bit bytes else bytes

-- The bytes `bytes` written to `offset` in buffer `ib`.
abbrev pub put_bytes : ℕ → ℕ → List ℕ → Output → Output
put_bytes ib offset bytes o = record o {
  mem = λ i. if i == ib then copy_to (o.mem ib) offset bytes else o.mem i;
}

-- What a read or a write returns, the file's position and the count, none for -1.
abbrev pub Transfer : Type 0
Transfer = ℕ × Option ℕ

-- `xo400_awg_write`; `copy_from_user` is what it puts at the destination for a count, and the number of
-- bytes it did not get.
pub awg_write : Settings → Kind → (ℕ → List ℕ × ℕ) → ℕ → ℕ → Output → Output × Transfer
awg_write cfg k copy_from_user f_pos count o =
    let len = (cfg.hb 0).len in
    let ib = f_pos / len in
    let offset = f_pos - ib * len in
    let n = min count (len - offset) in
    let (bytes, rc) = copy_from_user n in
    if truthy rc then (put_bytes ib offset bytes o, (f_pos, none)) else (
      with_playloop (λ p. record p { length = (p.length + n / cfg.aoss) % 2 ^ 32 })
          (put_bytes ib offset (signs_flipped k bytes) o),
      (f_pos + n, some n),
    )

-- `xo400_awg_read`, with the bytes for the user; `copy_to_user` is the number of bytes of a count that
-- did not get there.
pub awg_read : Settings → (ℕ → ℕ) → ℕ → ℕ → Output → List ℕ × Transfer
awg_read cfg copy_to_user f_pos count o =
    let pll = o.xo.playloop.length * cfg.aoss % 2 ^ 32 in
    let len = (cfg.hb 0).len in
    let ib = f_pos / len in
    let offset = f_pos - ib * len in
    let n = min count (min (len - offset) (pll - f_pos)) in
    if leb pll f_pos
    then ([], (f_pos, some 0))
    else if truthy (copy_to_user n)
    then ([], (f_pos, none))
    else (bytes_at (o.mem ib) offset n, (f_pos + n, some n))
