-- ===== src/Examples/Streaming.antt =====
-- The streaming loop on the idle device, and a reader of two full buffers who has one more opened.
use acq400drv.Prelude.{ℕ, ◌≡◌, refl, none, some, true, false, [], ◌∷◌, arith, if◌then◌else◌, ◌==◌}
use acq400drv.Device.{Dev, Hbm, bs_full, bs_full_app}
use acq400drv.HbmLists.{get_empty}
use acq400drv.HbmLists.Invariant.{IsValid}
use acq400drv.StreamLoop.{Turn, Channels, turns}
use acq400drv.StreamLoop.TwoInFlight.{Flies, Sound, both, Fair}
use acq400drv.StreamLoop.Captures.{turns-Sound}
use acq400drv.Reader.{Stream, continuous_read, buffer}
use acq400drv.Reader.Backlog.{Took, continuous_read-Took}
use acq400drv.Examples.{idle, some_buffer}
use acq400drv.Examples.Queues.{cnt, space, cnt-CircLaws, clients, ring-IsValid}

abbrev done : Turn
done = record {
  stop_before = false;
  during_wait = λ d. d;
  callbacks = 1;
  timed_out = false;
  stop_after = false;
  synced = true;
  after_put_full = λ d. d;
  before_pull = λ d. d;
  fifo_error = false;
}

done-Fair : Fair done
done-Fair = ((λ d l h. h), (λ d l h. h), λ d l h. h)

-- The buffers 0 and 1 given to the channels.
abbrev flying : Dev
flying = (get_empty (get_empty idle).0).0

abbrev channels : Channels
channels = record { fills0 = 0; fills1 = 1; second = false; callback_done = 0 }

flying-Flies : Flies flying (both channels)
unfolding get_empty
flying-Flies = record { valid = λ q. ground arith; flies = refl }

-- Two turns: the second one takes back a buffer from the readers.
turns-Sound_example : Sound (turns false (done ∷ done ∷ []) flying channels)
turns-Sound_example =
    turns-Sound false (done ∷ done ∷ []) flying channels (done-Fair, (done-Fair, tt)) flying-Flies

abbrev reading_buffers : ℕ → Hbm
reading_buffers q = record (some_buffer q) { bstate = if q == 0 then bs_full_app else bs_full }

abbrev reading : Dev
reading = record idle { hbm = reading_buffers; empties = []; refills = 1 ∷ 2 ∷ []; opens = 0 ∷ [] }

reading-IsValid : IsValid reading
reading-IsValid = λ q. ground arith

abbrev stream : Stream
stream = record {
  dev = reading;
  reads = 1;
  hb0 = record { hb0_count = 0; hb0_ix0 = 0; hb0_ix1 = 0; hb0_last = 0; hbm_m1 = some 0 };
  wrapper = clients;
}

continuous_read-Took_example :
    (s' : Stream) × (continuous_read cnt space 10 (λ d. none) (λ d. d) 0 0 100 1 stream
      ≡ buffer 1 s')
    × Took 2 10 0 stream 1 (2 ∷ []) s'
continuous_read-Took_example =
    continuous_read-Took cnt space cnt-CircLaws 10 2 0 0 100 1 1 (2 ∷ []) stream (λ d. none)
      (omega arith) (ring-IsValid, (ring-IsValid, tt)) reading-IsValid refl refl
