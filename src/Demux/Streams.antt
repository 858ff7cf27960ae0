-- ===== src/Demux/Streams.antt =====
-- acq400_stream.cpp, `DemuxBuffer::demux` and `writeBuffer`: a stream of raw buffers and the files it becomes.
use mathlib.Core.List.{append_assoc}
use acq400drv.Prelude.{
  ℕ, zero, suc, ◌+◌, ◌-◌, ◌<◌, ◌≤◌, ◌≡◌, ◌⊎◌, inl, inr, List, [], ◌∷◌, ◌++◌, some, refl, arith, ap,
  sym, subst, if_true, ◌∙◌, le→leb, leb-cases, bit_and,
}
use acq400drv.Demux.{Config, Channels, Dealt, ended, goes_on, push, skip_es, deal, samples}
use acq400drv.Demux.Dealing.{words_from, Holds, wrap, wrap-below, DealtTo, deal-DealtTo, push-Holds}

module _ (cfg : Config) where
  -- The words of a buffer from `src` on without the signatures that stand where a sample begins. No signature
  -- runs up to the end of the buffer.
  pub data Payload (words : ℕ → ℕ) (tlen : ℕ) : ℕ → ℕ → List ℕ → Type 0 where
    last_sample :
        {src ichan : ℕ} (s : ℕ)
        → skip_es cfg words src ≡ s
        → s < tlen
        → tlen ≤ s + (cfg.nchan - ichan)
        → Payload words tlen src ichan (words_from words s (tlen - s))
    next_sample :
        {src ichan : ℕ} (s : ℕ) (ws : List ℕ)
        → skip_es cfg words src ≡ s
        → s + (cfg.nchan - ichan) < tlen
        → Payload words tlen (s + (cfg.nchan - ichan)) 0 ws
        → Payload words tlen src ichan (words_from words s (cfg.nchan - ichan) ++ ws)

  module _ (words : ℕ → ℕ) (tlen : ℕ) (some_chan : 0 < cfg.nchan) where
    skip_es-le : (src : ℕ) → src ≤ skip_es cfg words src
    unfolding skip_es
    skip_es-le src = ground arith

    dealt_cases :
        (s n : ℕ) (ws : List ℕ) (r : Dealt)
        → DealtTo cfg words tlen s ws n r
        → ((out : Channels) × (next : ℕ) × (r ≡ ended out next)
            × (tlen ≤ s + n)
            × Holds cfg out next (ws ++ words_from words s (tlen - s)))
          ⊎ ((out : Channels) × (r ≡ goes_on out (s + n))
              × (s + n < tlen)
              × Holds cfg out 0 (ws ++ words_from words s n))
    dealt_cases s n ws (ended out next) (a, h) = inl (out, next, refl, a, h)
    dealt_cases s n ws (goes_on out src1) (a, e, h) =
        inr (out, ap (goes_on out) e, subst (λ v. v < tlen) e a, h)

    samples-ended :
        (fuel : ℕ) (out : Channels) (src ichan : ℕ) (out1 : Channels) (next : ℕ)
        → deal cfg words tlen out (skip_es cfg words src) ichan (cfg.nchan - ichan)
          ≡ ended out1 next
        → samples cfg (suc fuel) words tlen out src ichan ≡ some (out1, next)
    unfolding samples
    samples-ended fuel out src ichan out1 next e = rw (e, samples) refl

    samples-goes_on :
        (fuel : ℕ) (out : Channels) (src ichan : ℕ) (out1 : Channels) (src1 : ℕ)
        → deal cfg words tlen out (skip_es cfg words src) ichan (cfg.nchan - ichan)
          ≡ goes_on out1 src1
        → samples cfg (suc fuel) words tlen out src ichan ≡ samples cfg fuel words tlen out1 src1 0
    unfolding samples
    samples-goes_on fuel out src ichan out1 src1 e = rw (e, samples) refl

    deal-last :
        (out : Channels) (s ichan n : ℕ)
        → ichan < cfg.nchan
        → n ≡ cfg.nchan - ichan
        → tlen ≤ s
        → deal cfg words tlen out s ichan n
          ≡ ended (push out ichan (bit_and (words s) (cfg.mask ichan))) (wrap cfg (suc ichan))
    unfolding deal
    deal-last out s ichan zero l e a = absurd (omega (arith, e, l))
    deal-last out s ichan (suc n) l e a = if_true _ _ (le→leb tlen (suc s) (omega (arith, a)))

    -- A sample, after the signature before it.
    sample-cases :
        (out : Channels) (src ichan s : ℕ) (ws : List ℕ)
        → ichan < cfg.nchan
        → skip_es cfg words src ≡ s
        → s < tlen
        → Holds cfg out ichan ws
        → DealtTo cfg words tlen s ws
            (cfg.nchan - ichan)
            (deal cfg words tlen out (skip_es cfg words src) ichan (cfg.nchan - ichan))
    sample-cases out src ichan s ws l e a h =
        subst
          (λ v.
            DealtTo cfg words tlen s ws (cfg.nchan - ichan)
              (deal cfg words tlen out v ichan (cfg.nchan - ichan)))
          (sym e)
          (deal-DealtTo cfg words tlen (cfg.nchan - ichan) out s ichan ws (omega (arith, l)) a
            (subst (λ v. Holds cfg out v ws) (sym (wrap-below cfg ichan l)) h))

    -- Enough fuel: `samples` deals out the words of the buffer.
    abbrev DealsOut : ℕ → Channels → ℕ → ℕ → List ℕ → List ℕ → Type 0
    DealsOut fuel out src ichan ws more =
        (out1 : Channels) × (next : ℕ) × (samples cfg fuel words tlen out src ichan
          ≡ some (out1, next))
        × Holds cfg out1 next (ws ++ more)

    pub samples-Holds :
        (fuel : ℕ) (out : Channels) (src ichan : ℕ) (ws more : List ℕ)
        → ichan < cfg.nchan
        → tlen < src + fuel
        → Holds cfg out ichan ws
        → Payload words tlen src ichan more
        → DealsOut fuel out src ichan ws more
    samples-Holds zero out src ichan ws more l f h (last_sample s e a b) =
        absurd (omega (arith, f, e, a, skip_es-le src))
    samples-Holds zero out src ichan ws more l f h (next_sample s rest e a p) =
        absurd (omega (arith, f, e, a, skip_es-le src))
    samples-Holds (suc fuel) out src ichan ws more l f h (last_sample s e a b) =
        elim (dealt_cases s (cfg.nchan - ichan) ws _ (sample-cases out src ichan s ws l e a h)) [
          | inl (out1, next, r, g, k) ↦
              (out1, next, samples-ended fuel out src ichan out1 next r, k)
          | inr (out1, r, g, k) ↦ absurd (omega (arith, b, g))
        ]
    samples-Holds (suc fuel) out src ichan ws more l f h (next_sample s rest e a p) =
        elim (dealt_cases s (cfg.nchan - ichan) ws _
          (sample-cases out src ichan s ws l e (omega (arith, a)) h)) [
            | inl (out1, next, r, g, k) ↦ absurd (omega (arith, a, g))
            | inr (out1, r, g, k) ↦
                let (out2, next, runs, k2) =
                  samples-Holds fuel out1 (s + (cfg.nchan - ichan)) 0
                    (ws ++ words_from words s (cfg.nchan - ichan)) rest some_chan
                    (omega (arith, f, e, l, skip_es-le src)) k p in
                (
                  out2,
                  next,
                  samples-goes_on fuel out src ichan out1 _ r ∙ runs,
                  subst (Holds cfg out2 next)
                      (append_assoc ws (words_from words s (cfg.nchan - ichan)) rest) k2,
                )
          ]

    -- A signature that runs up to the end of a buffer, or past it, where a sample begins or the buffer does: one
    -- word from after the signature, which is not in the buffer, is dealt out as if it were the next of the
    -- stream, and the channel that comes next moves on by one.
    pub samples-past_end :
        (fuel : ℕ) (out : Channels) (src ichan : ℕ) (ws : List ℕ)
        → ichan < cfg.nchan
        → tlen ≤ skip_es cfg words src
        → Holds cfg out ichan ws
        → DealsOut (suc fuel) out src ichan ws (words (skip_es cfg words src) ∷ [])
    samples-past_end fuel out src ichan ws l a h =
        let s = skip_es cfg words src in
        let out1 = push out ichan (bit_and (words s) (cfg.mask ichan)) in
        (
          out1,
          wrap cfg (suc ichan),
          samples-ended fuel out src ichan out1 (wrap cfg (suc ichan))
              (deal-last out s ichan (cfg.nchan - ichan) l refl a),
          push-Holds cfg out ichan (words s) ws l h,
        )

    words_from-append :
        (src a b : ℕ)
        → words_from words src (a + b) ≡ words_from words src a ++ words_from words (src + a) b
    words_from-append src zero b =
        let none_left : 0 + b ≡ b = omega arith in
        let here : src + 0 ≡ src = omega arith in rw none_left (rw here refl)
    words_from-append src (suc a) b =
        let shifted : suc a + b ≡ suc (a + b) = omega arith in
        let further : src + suc a ≡ suc src + a = omega arith in
        rw shifted (rw further (ap (λ ws. words src ∷ ws) (words_from-append (suc src) a b)))

    -- In a buffer without signatures, or with `show_es`, every word is part of the stream.
    pub quiet-Payload :
        (fuel src ichan : ℕ)
        → ((p : ℕ) → skip_es cfg words p ≡ p)
        → ichan < cfg.nchan
        → src < tlen
        → tlen < src + fuel
        → Payload words tlen src ichan (words_from words src (tlen - src))
    quiet-Payload zero src ichan q l a f = absurd (omega (arith, a, f))
    quiet-Payload (suc fuel) src ichan q l a f = elim (leb-cases tlen (src + (cfg.nchan - ichan))) [
      | inl (b, _) ↦ last_sample src (q src) a b
      | inr (b, _) ↦
          let n = cfg.nchan - ichan in
          let left : n + (tlen - (src + n)) ≡ tlen - src = omega (arith, b) in
          let split =
            sym (words_from-append src n (tlen - (src + n))) ∙ ap (words_from words src) left in
          subst (Payload words tlen src ichan) split (
            next_sample src _ (q src) b
              (quiet-Payload fuel (src + n) 0 q some_chan b (omega (arith, f, l))))
    ]
