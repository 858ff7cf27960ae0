-- ===== src/Demux/Dealing.antt =====
-- acq400_stream.cpp, `DemuxBuffer::demux`: which words a channel gets.
use native.Mathlib.Nat.{suc-mod, mod_self, mod-eq_of_lt}
use mathlib.Core.List.{append-nil, append_assoc}
use acq400drv.Prelude.{
  ℕ, zero, suc, ◌+◌, ◌-◌, ◌%◌, ◌<◌, ◌≤◌, ◌≡◌, ◌≢◌, ◌⊎◌, inl, inr, Bool, true, false, List, [], ◌∷◌,
  ◌++◌, leb, eq→==, ne→==, le→leb, gt→leb, leb-cases, ◌==◌, if◌then◌else◌, refl, arith, ap, sym,
  subst, ap₂, if_true, if_false, ◌∙◌, bit_and, length, length-append,
}
use acq400drv.Demux.{Config, Channels, Dealt, ended, goes_on, push, deal}

-- The words from `src` on.
abbrev pub words_from : (ℕ → ℕ) → ℕ → ℕ → List ℕ
words_from words src zero = []
words_from words src (suc n) = words src ∷ words_from words (suc src) n

abbrev pub pick : Bool → ℕ → List ℕ → List ℕ
pick true w ws = w ∷ ws
pick false w ws = ws

pick-append : (b : Bool) (w : ℕ) (xs ys : List ℕ) → pick b w (xs ++ ys) ≡ pick b w xs ++ ys
pick-append true w xs ys = refl
pick-append false w xs ys = refl

same_or_not : (a b : ℕ) → (a ≡ b) ⊎ (a ≢ b)
same_or_not a b = ground arith

last_or_not : (i n : ℕ) → i < n → (suc i ≡ n) ⊎ (suc i < n)
last_or_not i n h = omega arith

add_one : (n : ℕ) → n + 1 ≡ suc n
add_one n = omega arith

zero_plus : (n : ℕ) → 0 + n ≡ n
zero_plus n = omega arith

module _ (cfg : Config) where
  -- Channel `c` of a stream that starts at word `i`: the words whose number is `c` modulo the number of
  -- channels, masked.
  abbrev pub select : ℕ → ℕ → List ℕ → List ℕ
  select c i [] = []
  select c i (w ∷ ws) = pick (i % cfg.nchan == c) (bit_and w (cfg.mask c)) (select c (suc i) ws)

  -- The channels have been dealt the words `ws`, and `ichan` is next.
  pub record Holds (out : Channels) (ichan : ℕ) (ws : List ℕ) : Type 0 where
    pub dealt : (c : ℕ) → c < cfg.nchan → out c ≡ select c 0 ws
    pub turn : length ws % cfg.nchan ≡ ichan

  select-append :
      (c i : ℕ) (xs ys : List ℕ)
      → select c i (xs ++ ys) ≡ select c i xs ++ select c (i + length xs) ys
  select-append c i [] ys = let same : i + 0 ≡ i = omega arith in rw same refl
  select-append c i (x ∷ xs) ys =
      let same : i + suc (length xs) ≡ suc i + length xs = omega arith in
      let b = i % cfg.nchan == c in
      let w = bit_and x (cfg.mask c) in
      rw same (
        ap (pick b w) (select-append c (suc i) xs ys)
        ∙ pick-append b w (select c (suc i) xs) (select c (suc i + length xs) ys))

  push-pick :
      (out : Channels) (ichan c w : ℕ)
      → push out ichan (bit_and w (cfg.mask ichan)) c
        ≡ out c ++ pick (ichan == c) (bit_and w (cfg.mask c)) []
  push-pick out ichan c w = elim (same_or_not c ichan) [
    | inl e ↦
        subst
          (λ v.
            push out v (bit_and w (cfg.mask v)) c
            ≡ out c ++ pick (v == c) (bit_and w (cfg.mask c)) [])
          e
          (if_true _ _ (eq→== c c refl)
            ∙ sym (ap (λ b. out c ++ pick b (bit_and w (cfg.mask c)) []) (eq→== c c refl)))
    | inr e ↦
        if_false _ _ (ne→== c ichan e)
        ∙ sym (
            ap (λ b. out c ++ pick b (bit_and w (cfg.mask c)) []) (ne→== ichan c (λ x. e (sym x)))
            ∙ append-nil (out c))
  ]

  turn_next :
      (n ichan : ℕ)
      → ichan < cfg.nchan
      → n % cfg.nchan ≡ ichan
      → suc n % cfg.nchan ≡ (if leb cfg.nchan (suc ichan) then 0 else suc ichan)
  turn_next n ichan h e =
      suc-mod n cfg.nchan ∙ ap (λ v. suc v % cfg.nchan) e ∙ elim (last_or_not ichan cfg.nchan h) [
        | inl l ↦
            ap (λ v. v % cfg.nchan) l
            ∙ mod_self cfg.nchan
            ∙ sym (if_true _ _ (le→leb cfg.nchan (suc ichan) (omega (arith, l))))
        | inr l ↦ mod-eq_of_lt l ∙ sym (if_false _ _ (gt→leb cfg.nchan (suc ichan) l))
      ]

  -- Dealing a word to the channel whose turn it is.
  pub push-Holds :
      (out : Channels) (ichan w : ℕ) (ws : List ℕ)
      → ichan < cfg.nchan
      → Holds out ichan ws
      → Holds
          (push out ichan (bit_and w (cfg.mask ichan)))
          (if leb cfg.nchan (suc ichan) then 0 else suc ichan)
          (ws ++ w ∷ [])
  push-Holds out ichan w ws h k = record {
    dealt = λ c l.
        push-pick out ichan c w
        ∙ ap₂ (λ xs j. xs ++ pick (j == c) (bit_and w (cfg.mask c)) []) (k.dealt c l) (sym k.turn)
        ∙ ap (λ n. select c 0 ws ++ select c n (w ∷ [])) (sym (zero_plus (length ws)))
        ∙ sym (select-append c 0 ws (w ∷ []));
    turn =
        ap (λ v. v % cfg.nchan) (length-append ws (w ∷ []) ∙ add_one (length ws))
        ∙ turn_next (length ws) ichan h k.turn;
  }

  -- The channel after the last one is the first one.
  abbrev pub wrap : ℕ → ℕ
  wrap ichan = if leb cfg.nchan ichan then 0 else ichan

  pub wrap-below : (i : ℕ) → i < cfg.nchan → wrap i ≡ i
  wrap-below i h = if_false _ _ (gt→leb cfg.nchan i h)

  module _ (words : ℕ → ℕ) (tlen : ℕ) where
    -- What `deal` does of the buffer from `src` on, for `n` channels.
    abbrev pub DealtTo : ℕ → List ℕ → ℕ → Dealt → Type 0
    DealtTo src ws n (ended out next) =
        (tlen ≤ src + n) × Holds out next (ws ++ words_from words src (tlen - src))
    DealtTo src ws n (goes_on out src1) =
        (src1 < tlen) × (src1 ≡ src + n) × Holds out 0 (ws ++ words_from words src n)

    DealtTo-later :
        (src : ℕ) (ws : List ℕ) (n : ℕ) (r : Dealt)
        → suc src < tlen
        → DealtTo (suc src) (ws ++ words src ∷ []) n r
        → DealtTo src ws (suc n) r
    DealtTo-later src ws n (ended out next) l (a, h) =
        let left : tlen - src ≡ suc (tlen - suc src) = omega (arith, l) in
        (
          omega (arith, a),
          rw left (
              subst (Holds out next)
                (append_assoc ws (words src ∷ []) (words_from words (suc src) (tlen - suc src))) h),
        )
    DealtTo-later src ws n (goes_on out src1) l (a, e, h) = (
      a,
      omega (arith, e),
      subst (Holds out 0) (append_assoc ws (words src ∷ []) (words_from words (suc src) n)) h,
    )

    pub deal-DealtTo :
        (n : ℕ) (out : Channels) (src ichan : ℕ) (ws : List ℕ)
        → ichan + n ≡ cfg.nchan
        → src < tlen
        → Holds out (wrap ichan) ws
        → DealtTo src ws n (deal cfg words tlen out src ichan n)
    unfolding deal
    deal-DealtTo zero out src ichan ws e l h =
        let full : wrap ichan ≡ 0 = if_true _ _ (le→leb cfg.nchan ichan (omega (arith, e))) in
        (
          l,
          omega arith,
          subst (Holds out 0) (sym (append-nil ws)) (subst (λ v. Holds out v ws) full h),
        )
    deal-DealtTo (suc n) out src ichan ws e l h =
        let below : ichan < cfg.nchan = omega (arith, e) in
        let k =
          push-Holds out ichan (words src) ws below
            (subst (λ v. Holds out v ws) (wrap-below ichan below) h) in
        let last : tlen ≤ suc src → tlen - src ≡ 1 = λ h. omega (arith, h, l) in
        elim (leb-cases tlen (suc src)) [
          | inl (g, b) ↦ rw (if_true _ _ b) (omega (arith, g), rw (last g) k)
          | inr (g, b) ↦ rw (if_false _ _ b) (
              DealtTo-later src ws n _ g (
                deal-DealtTo n _ (suc src) (suc ichan) (ws ++ words src ∷ []) (omega (arith, e)) g
                  k))
        ]
