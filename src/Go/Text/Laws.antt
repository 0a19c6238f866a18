-- ===== src/Go/Text/Laws.antt =====
-- Laws of Split, Join, TrimRight and TrimSpace.
use dbgp_tools.Base.{
  Bytes, length, All, Lacks, ℕ, zero, suc, ◌≤◌, ◌≡◌, refl, ◌≢◌, none, List, [], ◌∷◌, ◌++◌, map,
  reverse, arith, ap, ◌∙◌, sym, Bool-cases, eqb, inl, inr, eqb_iff, false, true, All-append,
}
use mathlib.Core.List.{reverse-reverse}
use dbgp_tools.Go.Text.{
  split, join, strip_prefix, strip_any, trim_front, trim_right, trim_space, white_space, push,
}

module _ (sep : ℕ) where
  pub split-Lacks : (p : Bytes) → Lacks sep p → split sep p ≡ p ∷ []
  unfolding split
  split-Lacks [] h = refl
  split-Lacks (c ∷ p) h = ground (arith, split-Lacks p h.1)

  pub split-cons : (p s : Bytes) → Lacks sep p → split sep (p ++ sep ∷ s) ≡ p ∷ split sep s
  unfolding split
  split-cons [] s h = ground arith
  split-cons (c ∷ p) s h = ground (arith, split-cons p s h.1)

  -- Splitting a join gives the parts back, if there is a part and none holds the separator.
  pub split-join :
      (p : Bytes) (ps : List Bytes)
      → All (Lacks sep) (p ∷ ps)
      → split sep (join sep (p ∷ ps)) ≡ p ∷ ps
  unfolding join
  split-join p [] h = split-Lacks p h.0
  split-join p (q ∷ ps) h = rw (split-cons p (join sep (q ∷ ps)) h.0, split-join q ps h.1)

  push-All : (c : ℕ) (ps : List Bytes) → c ≢ sep → All (Lacks sep) ps → All (Lacks sep) (push c ps)
  unfolding push
  push-All c [] h hs = ((h, tt), tt)
  push-All c (p ∷ ps) h hs = ((h, hs.0), hs.1)

  -- No part holds the separator.
  pub split-All : (s : Bytes) → All (Lacks sep) (split sep s)
  unfolding split
  split-All [] = (tt, tt)
  split-All (c ∷ s) = elim (Bool-cases (eqb c sep)) [
    | inl is_sep ↦ rw is_sep (tt, split-All s)
    | inr other ↦ rw other (push-All c (split sep s) (ground arith) (split-All s))
  ]

  -- There is always a part.
  pub split-ne-nil : (s : Bytes) → (p : Bytes) × (ps : List Bytes) × (split sep s ≡ p ∷ ps)
  unfolding split push
  split-ne-nil [] = ([], [], refl)
  split-ne-nil (c ∷ s) =
      let (p, ps, e) = split-ne-nil s in
      elim (Bool-cases (eqb c sep)) [
        | inl is_sep ↦ ([], split sep s, rw is_sep)
        | inr other ↦ (c ∷ p, ps, rw (other, e))
      ]

  join-push :
      (c : ℕ) (p : Bytes) (ps : List Bytes) → join sep (push c (p ∷ ps)) ≡ c ∷ join sep (p ∷ ps)
  unfolding join push
  join-push c p [] = refl
  join-push c p (q ∷ ps) = refl

  join-nil : (p : Bytes) (ps : List Bytes) → join sep ([] ∷ p ∷ ps) ≡ sep ∷ join sep (p ∷ ps)
  unfolding join
  join-nil p ps = refl

  split-sep : (s : Bytes) (c : ℕ) → eqb c sep ≡ true → split sep (c ∷ s) ≡ [] ∷ split sep s
  unfolding split
  split-sep s c e = rw e

  split-other : (s : Bytes) (c : ℕ) → eqb c sep ≡ false → split sep (c ∷ s) ≡ push c (split sep s)
  unfolding split
  split-other s c e = rw e

  -- Joining the parts of a split gives the text back.
  pub join-split : (s : Bytes) → join sep (split sep s) ≡ s
  join-split [] = unfold join split in refl
  join-split (c ∷ s) =
      let (p, ps, e) = split-ne-nil s in
      let rest : join sep (p ∷ ps) ≡ s = ap (join sep) (sym e) ∙ join-split s in
      elim (Bool-cases (eqb c sep)) [
        | inl is_sep ↦
            rw (split-sep s c is_sep, e) (join-nil p ps ∙ cc ((eqb_iff c sep).0 is_sep, rest))
        | inr other ↦ rw (split-other s c other, e) (join-push c p ps ∙ ap (λ r. c ∷ r) rest)
      ]

  pub join-All : (b : ℕ) (ps : List Bytes) → sep ≢ b → All (Lacks b) ps → Lacks b (join sep ps)
  unfolding join
  join-All b [] h hs = tt
  join-All b (p ∷ []) h hs = hs.0
  join-All b (p ∷ q ∷ ps) h hs = All-append (λ c. c ≢ b) p _ hs.0 (h, join-All b (q ∷ ps) h hs.1)

  pub trim_right-append : (s : Bytes) → Lacks sep s → trim_right sep (s ++ sep ∷ []) ≡ s
  unfolding trim_right
  trim_right-append [] h = ground arith
  trim_right-append (c ∷ s) h = ground (arith, trim_right-append s h.1)

-- A graphic ASCII character is none of the white space characters, nor a part of one.
abbrev pub IsGraphic : ℕ → Type 0
IsGraphic c = (33 ≤ c) × (c ≤ 126)

abbrev Heads : ℕ → List Bytes → Type 0
Heads c [] = Unit
Heads c ([] ∷ ps) = ⊥
Heads c ((a ∷ p) ∷ ps) = (a ≢ c) × Heads c ps

strip_any-Heads : (c : ℕ) (s : Bytes) (ps : List Bytes) → Heads c ps → strip_any ps (c ∷ s) ≡ none
unfolding strip_any strip_prefix
strip_any-Heads c s [] h = refl
strip_any-Heads c s ([] ∷ ps) h = absurd h
strip_any-Heads c s ((a ∷ p) ∷ ps) h = ground (arith, strip_any-Heads c s ps h.1)

trim_front-Heads :
    (f c : ℕ) (s : Bytes) (ps : List Bytes) → Heads c ps → trim_front f ps (c ∷ s) ≡ c ∷ s
unfolding trim_front
trim_front-Heads zero c s ps h = refl
trim_front-Heads (suc f) c s ps h = rw (strip_any-Heads c s ps h, trim_front)

front_graphic : (c : ℕ) → IsGraphic c → Heads c white_space
front_graphic c h = omega arith

back_graphic : (c : ℕ) → IsGraphic c → Heads c (map reverse white_space)
back_graphic c h = omega arith

-- A text that begins and ends with graphic characters is not trimmed.
pub trim_space-graphic :
    (c d : ℕ) (s r : Bytes)
    → IsGraphic c
    → IsGraphic d
    → reverse (c ∷ s) ≡ d ∷ r
    → trim_space (c ∷ s) ≡ c ∷ s
unfolding trim_space
trim_space-graphic c d s r hc hd e =
    rw
      (
        trim_front-Heads (length (c ∷ s)) c s white_space (front_graphic c hc),
        e,
        trim_front-Heads (length (c ∷ s)) d r (map reverse white_space) (back_graphic d hd),
      )
      (ap reverse (sym e) ∙ reverse-reverse (c ∷ s))
