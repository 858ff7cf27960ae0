-- ===== src/AxiChain/Frame.antt =====
-- The poison functions store into buffers' words only: no list, state or index changes.
use acq400drv.Prelude.{ℕ, ◌≡◌, refl, arith, leb, Bool-cases, inl, inr}
use acq400drv.Device.{Dev, PutEmptyHook, null_put_empty, poison_fastidious}
use acq400drv.AxiChain.{
  poison_offset, poison_one_buffer, poison_one_buffer_fastidious, poison_overwritten, dma_done,
  call_hook, run_put_empty_hook,
}

-- What the callers of the poison functions rely on.
pub record SameLists (d d' : Dev) : Type 0 where
  pub empties : d'.empties ≡ d.empties
  pub inflight : d'.inflight ≡ d.inflight
  pub refills : d'.refills ≡ d.refills
  pub opens : d'.opens ≡ d.opens
  pub stash : d'.stash ≡ d.stash
  pub states : (q : ℕ) → (d'.hbm q).bstate ≡ (d.hbm q).bstate
  pub indices : (q : ℕ) → (d'.hbm q).ix ≡ (d.hbm q).ix

pub poison_one_buffer-SameLists : (d : Dev) (p : ℕ) → SameLists d (poison_one_buffer d p)
unfolding poison_one_buffer
poison_one_buffer-SameLists d p = record {
  empties = ground arith;
  inflight = ground arith;
  refills = ground arith;
  opens = ground arith;
  stash = ground arith;
  states = λ q. ground arith;
  indices = λ q. ground arith;
}

same_lists : (d : Dev) → SameLists d d
same_lists d = record {
  empties = refl;
  inflight = refl;
  refills = refl;
  opens = refl;
  stash = refl;
  states = λ q. refl;
  indices = λ q. refl;
}

fastidious-SameLists : (d : Dev) (p : ℕ) → SameLists d (poison_one_buffer_fastidious d p)
unfolding poison_one_buffer_fastidious
fastidious-SameLists d p = elim (Bool-cases (leb d.axi_debug_loopback_index (d.hbm p).ix)) [
  | inl e ↦ rw e (poison_one_buffer-SameLists d p)
  | inr e ↦ rw e (same_lists d)
]

hook-SameLists : (k : PutEmptyHook) (d : Dev) (p : ℕ) → SameLists d (call_hook k d p)
unfolding call_hook
hook-SameLists null_put_empty d p = same_lists d
hook-SameLists poison_fastidious d p = fastidious-SameLists d p

pub run_put_empty_hook-SameLists : (d : Dev) (p : ℕ) → SameLists d (run_put_empty_hook d p)
unfolding run_put_empty_hook
run_put_empty_hook-SameLists d p = hook-SameLists d.on_put_empty d p

pub poison_overwritten-SameLists : (d : Dev) (p : ℕ) → SameLists d (poison_overwritten d p).0
unfolding poison_overwritten poison_offset
poison_overwritten-SameLists d p = record {
  empties = ground arith;
  inflight = ground arith;
  refills = ground arith;
  opens = ground arith;
  stash = ground arith;
  states = λ q. ground arith;
  indices = λ q. ground arith;
}

pub dma_done-SameLists : (d : Dev) (p : ℕ) → SameLists d (dma_done d p).0
unfolding dma_done
dma_done-SameLists d p = poison_overwritten-SameLists d p
