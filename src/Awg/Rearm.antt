-- ===== src/Awg/Rearm.antt =====
-- acq400_drv.c, `ao_auto_rearm`: a one-shot that is to be repeated starts again once the FIFO has
-- drained.
use mathlib.Core.Bool.{true≢false}
use acq400drv.Prelude.{
  ℕ, ◌<◌, ◌≡◌, refl, arith, Bool, true, false, not, ◌&&◌, ◌||◌, ltb, ◌==◌, if◌then◌else◌,
}
use acq400drv.Device.{truthy}
use acq400drv.Playloop.{Settings, Look, XoDev, fill_fifo}
use acq400drv.Awg.{Output, Kind, call, on_stop, update_abcde, with_playloop, play_continuous}

pub truthy-pos : (n : ℕ) → 0 < n → truthy n ≡ true
truthy-pos n h = ground arith

pub idle_worker : (a u b : Bool) → u ≡ false → ((a && u && b) || false) ≡ false
idle_worker true true b e = absurd (true≢false e)
idle_worker true false b e = refl
idle_worker false u b e = refl

pub frontside : (a h u : Bool) → u ≡ false → (a && ((u && h) || not u)) ≡ a
frontside a h true e = absurd (true≢false e)
frontside true h false e = refl
frontside false h false e = refl

-- Whether there is a waveform and it is an AO_oneshot_rearm.
abbrev pub to_rearm : Output → Bool
to_rearm o = ltb 0 o.xo.playloop.length && o.xo.playloop.oneshot == 2

-- The waveform set to be played from its start.
abbrev pub from_start : XoDev → XoDev
from_start x = record x { playloop = record x.playloop { cursor = 0 } }

-- A reset for a length of 0xffffffff, that of continuous playing, makes it no one-shot.
abbrev pub uncounted : XoDev → XoDev
uncounted x = record x {
  playloop = record x.playloop {
    oneshot = if x.playloop.length == play_continuous then 0 else x.playloop.oneshot;
  };
}

-- What a rearming leaves of the waveform `x` and its FIFO.
abbrev pub refilled : Settings → Look → Bool → XoDev → XoDev
refilled cfg look no_lock x =
    if no_lock then from_start x else (fill_fifo cfg look (uncounted (from_start x))).0

module _ (circ_cnt : ℕ → ℕ → ℕ → ℕ) (cfg : Settings) (k : Kind) (look : Look) (no_lock : Bool)
    (o : Output) where
  -- What the second reset is called on.
  rewound : Output
  rewound =
      with_playloop (λ p. record p { cursor = 0 })
        (record (call on_stop o) { segments = update_abcde circ_cnt o.segments })
