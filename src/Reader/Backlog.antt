-- ===== src/Reader/Backlog.antt =====
-- acq400_drv.c, `acq400_continuous_read`: the backlog is given back, and the reader gets the oldest full
-- buffer.
use mathlib.Core.List.{append-nil, append_assoc}
use acq400drv.Prelude.{
  sym, ◌-◌, ℕ, zero, suc, ◌≡◌, ◌<◌, ◌^◌, min, refl, ap, ◌∙◌, List, [], ◌∷◌, ◌++◌, Option, some,
  true, false, arith, inl, inr, Bool-cases, length, is_empty, ltb, if◌then◌else◌,
}
use acq400drv.Device.{Dev, bs_empty, bs_full_app, set_state, truthy, incr32}
use acq400drv.AxiChain.{run_put_empty_hook}
use acq400drv.AxiChain.Frame.{run_put_empty_hook-SameLists}
use acq400drv.HbmLists.{put_empty, get_full, take_full, full}
use acq400drv.HbmLists.Invariant.{IsValid, put_empty-IsValid, take_full-IsValid}
use acq400drv.BufferQueue.{bq_notify}
use acq400drv.BufferQueue.Notify.{CircLaws, AllGot, AllValid, bq_notify-AllGot}
use acq400drv.Reader.{
  Stream, copy_failed, update_hb0, drop_backlog, count_dropped, buffer, deliver, after_get_full,
  continuous_read,
}

-- `d'` is `d` with the oldest opened buffers given back, so that `opens` stay.
pub record GivenBack (d : Dev) (opens : List ℕ) (d' : Dev) : Type 0 where
  pub valid : IsValid d'
  pub opened : d'.opens ≡ opens
  pub gone : List ℕ
  pub split : d.opens ≡ gone ++ opens
  pub freed : d'.empties ≡ d.empties ++ gone
  pub same_refills : d'.refills ≡ d.refills
  pub same_indices : (q : ℕ) → (d'.hbm q).ix ≡ (d.hbm q).ix

abbrev opened_back : Dev → ℕ → List ℕ → Dev
opened_back d p rest =
    let d' = run_put_empty_hook (record d { hbm = set_state d.hbm p bs_empty }) p in
    record d' { opens = rest; empties = d'.empties ++ p ∷ [] }

put_empty-GivenBack :
    (d : Dev) (p : ℕ) (rest : List ℕ)
    → IsValid d
    → d.opens ≡ p ∷ rest
    → (d' : Dev) × (put_empty d ≡ some d') × GivenBack d rest d'
unfolding put_empty
put_empty-GivenBack d p rest v e =
    let f = run_put_empty_hook-SameLists (record d { hbm = set_state d.hbm p bs_empty }) p in
    let out : put_empty d ≡ some (opened_back d p rest) = ground (arith, e) in
    (
      opened_back d p rest,
      out,
      record {
        valid = put_empty-IsValid d (opened_back d p rest) out v;
        opened = refl;
        gone = p ∷ [];
        split = e;
        freed = ap (λ l. l ++ p ∷ []) f.empties;
        same_refills = f.refills;
        same_indices = λ q. f.indices q ∙ ground arith;
      },
    )

count_dropped-GivenBack :
    (d d' : Dev) (l : List ℕ) → GivenBack d l d' → GivenBack d l (count_dropped d')
count_dropped-GivenBack d d' l g = record {
  valid = λ q. ground (arith, g.valid q);
  opened = g.opened;
  gone = g.gone;
  split = g.split;
  freed = g.freed;
  same_refills = g.same_refills;
  same_indices = g.same_indices;
}

GivenBack-trans : (d e f : Dev) (l m : List ℕ) → GivenBack d l e → GivenBack e m f → GivenBack d m f
GivenBack-trans d e f l m g h = record {
  valid = h.valid;
  opened = h.opened;
  gone = g.gone ++ h.gone;
  split =
      g.split ∙ ap (λ l. g.gone ++ l) (sym g.opened ∙ h.split) ∙ sym (append_assoc g.gone h.gone m);
  freed = h.freed ∙ ap (λ l. l ++ h.gone) g.freed ∙ append_assoc d.empties g.gone h.gone;
  same_refills = h.same_refills ∙ g.same_refills;
  same_indices = λ q. h.same_indices q ∙ g.same_indices q;
}

-- What stays of the opened buffers `l`, of which there are `n`.
abbrev pub latest : ℕ → ℕ → List ℕ → List ℕ
latest limit zero l = l
latest limit (suc n) [] = []
latest limit (suc n) (p ∷ l) = if ltb limit (suc n) then latest limit n l else p ∷ l

pub length-latest :
    (limit n : ℕ) (l : List ℕ) → length l ≡ n → length (latest limit n l) ≡ min n limit
length-latest limit zero l e = omega (arith, e)
length-latest limit (suc n) [] e = omega (arith, e)
length-latest limit (suc n) (p ∷ l) e = ground (arith, length-latest limit n l)

-- The backlog is given back without a fault, the oldest buffers first.
drop_backlog-GivenBack :
    (limit n : ℕ) (d : Dev) (l : List ℕ)
    → IsValid d
    → d.opens ≡ l
    → length l ≡ n
    → (d' : Dev) × (drop_backlog limit n d ≡ some d') × GivenBack d (latest limit n l) d'
unfolding drop_backlog
drop_backlog-GivenBack limit zero d l v e len = (
  d,
  refl,
  record {
    valid = v;
    opened = e;
    gone = [];
    split = e;
    freed = sym (append-nil d.empties);
    same_refills = refl;
    same_indices = λ q. refl;
  },
)
drop_backlog-GivenBack limit (suc n) d [] v e len = absurd (omega (arith, len))
drop_backlog-GivenBack limit (suc n) d (p ∷ l) v e len = elim (Bool-cases (ltb limit (suc n))) [
  | inr b ↦ (
    d,
    rw (b, drop_backlog) refl,
    rw b (record {
      valid = v;
      opened = e;
      gone = [];
      split = e;
      freed = sym (append-nil d.empties);
      same_refills = refl;
      same_indices = λ q. refl;
    }),
  )
  | inl b ↦
      let (d1, out, g) = put_empty-GivenBack d p l v e in
      let g1 = count_dropped-GivenBack d d1 l g in
      let (d2, out2, h) =
        drop_backlog-GivenBack limit n (count_dropped d1) l g1.valid g1.opened
          (omega (arith, len)) in
      (
        d2,
        rw (b, drop_backlog, out) out2,
        rw b (GivenBack-trans d (count_dropped d1) d2 l (latest limit n l) g1 h),
      )
]

-- What a read did that took buffer `p`, with `rest` still to be read.
pub record Took (k nbuffers limit : ℕ) (s : Stream) (p : ℕ) (rest : List ℕ) (s' : Stream)
    : Type 0 where
  pub valid : IsValid s'.dev
  pub opened : s'.dev.opens ≡ latest limit (length s.dev.opens) s.dev.opens ++ p ∷ []
  pub unread : s'.dev.refills ≡ rest
  pub gone : List ℕ
  pub split : s.dev.opens ≡ gone ++ latest limit (length s.dev.opens) s.dev.opens
  pub freed : s'.dev.empties ≡ s.dev.empties ++ gone
  pub told : AllGot k (nbuffers - 2) (s.dev.hbm p).ix s.wrapper.bq_clients s'.wrapper.bq_clients

abbrev taken : Dev → ℕ → List ℕ → Dev
taken d p rest = record d {
  refills = rest;
  opens = d.opens ++ p ∷ [];
  hbm = set_state d.hbm p bs_full_app;
}

take_full-taken :
    (d : Dev) (p : ℕ) (rest : List ℕ) → d.refills ≡ p ∷ rest → take_full d ≡ full p (taken d p rest)
unfolding take_full
take_full-taken d p rest e = ground (arith, e)

get_full-taken :
    (wait_event : Dev → Option Dev) (d : Dev) (p : ℕ) (rest : List ℕ)
    → d.refills ≡ p ∷ rest
    → get_full wait_event (λ x. x) true d ≡ full p (taken d p rest)
unfolding get_full take_full
get_full-taken wait_event d p rest e = ground (arith, e)

module _ (circ_cnt circ_space : ℕ → ℕ → ℕ → ℕ) (laws : CircLaws circ_cnt circ_space) where
  -- While no other thread acts between `getFull`'s test of REFILLS and its lock, a read of a stream that
  -- is not to stop and has a full buffer gives back all but the last `OPEN_BACKLOG` of the buffers
  -- still opened, the oldest ones, to EMPTIES, takes the oldest full buffer, and returns its number, or an
  -- error if the number can not be copied to the user; either way every client of the stream gets it.
  pub continuous_read-Took :
      (nbuffers k open_backlog uncopied now no_ratelimit p : ℕ) (rest : List ℕ) (s : Stream)
      (wait_event : Dev → Option Dev)
      → 1 < 2 ^ k
      → AllValid k s.wrapper.bq_clients
      → IsValid s.dev
      → truthy s.dev.rt.please_stop ≡ false
      → s.dev.refills ≡ p ∷ rest
      → (s' : Stream) × (continuous_read circ_cnt circ_space nbuffers wait_event
            (λ x. x)
            open_backlog
            uncopied
            now
            no_ratelimit
            s
          ≡ (if truthy uncopied then copy_failed uncopied s' else buffer (s.dev.hbm p).ix s'))
        × Took k nbuffers open_backlog s p rest s'
  unfolding continuous_read after_get_full deliver
  continuous_read-Took nbuffers k open_backlog uncopied now no_ratelimit p rest s wait_event big
        clients v go e =
      let l = s.dev.opens in
      let (d, out, g) = drop_backlog-GivenBack open_backlog (length l) s.dev l v refl refl in
      let e' : d.refills ≡ p ∷ rest = g.same_refills ∙ e in
      let got = get_full-taken wait_event d p rest e' in
      let some_open : is_empty (d.opens ++ p ∷ []) ≡ false = snoc d.opens p in
      let ix : ((taken d p rest).hbm p).ix ≡ (s.dev.hbm p).ix = ground (arith, g.same_indices p) in
      let t : Dev = taken d p rest in
      let s' : Stream = record s {
        dev = t;
        reads = incr32 s.reads;
        hb0 = update_hb0 now no_ratelimit t p s.hb0;
        wrapper = bq_notify circ_cnt circ_space nbuffers (t.hbm p).ix s.wrapper;
      } in
      (
        s',
        rw (go, continuous_read, out, got, after_get_full, some_open)
            (ap (λ i. if truthy uncopied then copy_failed uncopied s' else buffer i s') ix),
        record {
          valid = take_full-IsValid p d t (take_full-taken d p rest e') g.valid;
          opened = ap (λ x. x ++ p ∷ []) g.opened;
          unread = refl;
          gone = g.gone;
          split = g.split;
          freed = g.freed;
          told = rw ix (
              bq_notify-AllGot circ_cnt circ_space laws k nbuffers (s.dev.hbm p).ix s.wrapper big
                clients);
        },
      )
    where
      snoc : (xs : List ℕ) (x : ℕ) → is_empty (xs ++ x ∷ []) ≡ false
      snoc [] x = refl
      snoc (y ∷ ys) x = refl
