-- ===== src/Go/Stream/Measure.antt =====
-- How much there is still to read, which every read makes smaller but one at the end of the stream.
use dbgp_tools.Base.{
  Bytes, ℕ, suc, ◌+◌, ◌<◌, ◌≤◌, ◌≡◌, ◌≢◌, List, [], ◌∷◌, ◌++◌, length, length-append, some, inl,
  inr, Option-cases, Bool-cases, eqb, arith,
}
use dbgp_tools.Go.Stream.{
  Event, chunk, deadline, failure, err, eof, Input, ReadResult, cut, found, failed, fill,
  read_bytes,
}

abbrev pub weight : List Event → ℕ
weight [] = 0
weight (chunk s ∷ es) = suc (length s + weight es)
weight (deadline ∷ es) = suc (weight es)
weight (failure ∷ es) = suc (weight es)

abbrev pub measure : Input → ℕ
measure i = length i.buffer + weight i.events

cut-length : (d : ℕ) (s l r : Bytes) → cut d s ≡ some (l, r) → length r < length s
unfolding cut
cut-length d [] l r e = cc
cut-length d (c ∷ s) l r e = elim (Bool-cases (eqb c d)) [
  | inl here ↦ ground (arith, here)
  | inr there ↦ elim (Option-cases (cut d s)) [
    | inl no_cut ↦ ground (arith, there, no_cut)
    | inr ((l', r'), cut_here) ↦ ground (arith, there, cut_here, cut-length d s l' r' cut_here)
  ]
]

-- What is left after a read, unless the stream has ended.
abbrev pub Shrinks : ReadResult → ℕ → Type 0
Shrinks out n = out.result ≢ err eof → measure out.input < n

fill-Shrinks :
    (d : ℕ) (buffer : Bytes) (events : List Event)
    → Shrinks (fill d buffer events) (length buffer + weight events)
unfolding fill found failed
fill-Shrinks d buffer [] h = elim (Option-cases (cut d buffer)) [
  | inl no_cut ↦ absurd (h (rw (no_cut, fill)))
  | inr ((l, r), here) ↦ rw (here, fill) (omega (arith, cut-length d buffer l r here))
]
fill-Shrinks d buffer (chunk s ∷ es) h = elim (Option-cases (cut d buffer)) [
  | inl no_cut ↦
      rw (no_cut, fill)
        (omega (
          arith,
          length-append buffer s,
          fill-Shrinks d (buffer ++ s) es (λ e. h (rw (no_cut, fill) e)),
        ))
  | inr ((l, r), here) ↦ rw (here, fill) (omega (arith, cut-length d buffer l r here))
]
fill-Shrinks d buffer (deadline ∷ es) h = elim (Option-cases (cut d buffer)) [
  | inl no_cut ↦ rw (no_cut, fill) (omega arith)
  | inr ((l, r), here) ↦ rw (here, fill) (omega (arith, cut-length d buffer l r here))
]
fill-Shrinks d buffer (failure ∷ es) h = elim (Option-cases (cut d buffer)) [
  | inl no_cut ↦ rw (no_cut, fill) (omega arith)
  | inr ((l, r), here) ↦ rw (here, fill) (omega (arith, cut-length d buffer l r here))
]

pub read_bytes-Shrinks : (d : ℕ) (i : Input) → Shrinks (read_bytes d i) (measure i)
unfolding read_bytes
read_bytes-Shrinks d i = fill-Shrinks d i.buffer i.events

fill-events :
    (d : ℕ) (buffer : Bytes) (events : List Event)
    → weight (fill d buffer events).input.events ≤ weight events
unfolding fill found failed
fill-events d buffer [] = elim (Option-cases (cut d buffer)) [
  | inl no_cut ↦ rw (no_cut, fill) (omega arith)
  | inr (p, here) ↦ rw (here, fill) (omega arith)
]
fill-events d buffer (chunk s ∷ es) = elim (Option-cases (cut d buffer)) [
  | inl no_cut ↦ rw (no_cut, fill) (omega (arith, fill-events d (buffer ++ s) es))
  | inr (p, here) ↦ rw (here, fill) (omega arith)
]
fill-events d buffer (deadline ∷ es) = elim (Option-cases (cut d buffer)) [
  | inl no_cut ↦ rw (no_cut, fill) (omega arith)
  | inr (p, here) ↦ rw (here, fill) (omega arith)
]
fill-events d buffer (failure ∷ es) = elim (Option-cases (cut d buffer)) [
  | inl no_cut ↦ rw (no_cut, fill) (omega arith)
  | inr (p, here) ↦ rw (here, fill) (omega arith)
]

-- No read puts anything back on the network.
pub read_bytes-events : (d : ℕ) (i : Input) → weight (read_bytes d i).input.events ≤ weight i.events
unfolding read_bytes
read_bytes-events d i = fill-events d i.buffer i.events
