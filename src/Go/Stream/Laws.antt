-- ===== src/Go/Stream/Laws.antt =====
-- What ReadBytes returns does not depend on how the network cut the bytes.
use dbgp_tools.Base.{
  Bytes, All, Lacks, Option-cases, ℕ, ◌≡◌, ap, ◌∙◌, inl, inr, none, some, List, [], ◌∷◌, ◌++◌,
  append_assoc, append-nil, arith, refl,
}
use dbgp_tools.Go.Stream.{
  Event, chunk, deadline, failure, ok, Input, ReadResult, cut, found, fill, read_bytes, failed, err,
  timeout,
}

-- The bytes of the chunks.
abbrev pub bytes_of : List Event → Bytes
bytes_of [] = []
bytes_of (chunk s ∷ es) = s ++ bytes_of es
bytes_of (deadline ∷ es) = bytes_of es
bytes_of (failure ∷ es) = bytes_of es

abbrev IsChunk : Event → Type 0
IsChunk (chunk s) = Unit
IsChunk deadline = ⊥
IsChunk failure = ⊥

-- Nothing interrupts what arrives.
abbrev pub OnlyChunks : List Event → Type 0
OnlyChunks = All IsChunk

-- All that is still to be read.
abbrev pending : Input → Bytes
pending i = i.buffer ++ bytes_of i.events

module _ (d : ℕ) where
  cut-Lacks : (p s : Bytes) → Lacks d p → cut d (p ++ d ∷ s) ≡ some (p ++ d ∷ [], s)
  unfolding cut
  cut-Lacks [] s h = ground arith
  cut-Lacks (c ∷ p) s h = ground (arith, cut-Lacks p s h.1)

  cut-append : (s t l r : Bytes) → cut d s ≡ some (l, r) → cut d (s ++ t) ≡ some (l, r ++ t)
  unfolding cut
  cut-append [] t l r e = cc
  cut-append (c ∷ s) t l r e = elim (Option-cases (cut d s)) [
    | inl no_cut ↦ ground (arith, no_cut)
    | inr ((l', r'), cut_here) ↦ ground (arith, cut_here, cut-append s t l' r' cut_here)
  ]

  pub record Reads (out : ReadResult) (line rest : Bytes) : Type 0 where
    pub line_read : out.result ≡ ok line
    pub left : pending out.input ≡ rest
    pub calm : OnlyChunks out.input.events

  fill-found :
      (es : List Event) (buffer : Bytes) (p : Bytes × Bytes)
      → cut d buffer ≡ some p
      → fill d buffer es ≡ found p es
  unfolding fill
  fill-found [] buffer p e = rw (e, fill)
  fill-found (chunk s ∷ es) buffer p e = rw (e, fill)
  fill-found (deadline ∷ es) buffer p e = rw (e, fill)
  fill-found (failure ∷ es) buffer p e = rw (e, fill)

  fill-chunk :
      (s : Bytes) (es : List Event) (buffer : Bytes)
      → cut d buffer ≡ none
      → fill d buffer (chunk s ∷ es) ≡ fill d (buffer ++ s) es
  unfolding fill
  fill-chunk s es buffer e = rw (e, fill)

  found-Reads :
      (es : List Event) (buffer l r l' r' : Bytes)
      → OnlyChunks es
      → cut d (buffer ++ bytes_of es) ≡ some (l, r)
      → cut d buffer ≡ some (l', r')
      → Reads (fill d buffer es) l r
  unfolding found
  found-Reads es buffer l r l' r' h e here = rw (fill-found es buffer (l', r') here) (
      let whole = cut-append buffer (bytes_of es) l' r' here in
      record { line_read = cc (whole, e); left = cc (whole, e); calm = h })

  fill-cut :
      (es : List Event) (buffer l r : Bytes)
      → OnlyChunks es
      → cut d (buffer ++ bytes_of es) ≡ some (l, r)
      → Reads (fill d buffer es) l r
  fill-cut [] buffer l r h e = elim (Option-cases (cut d buffer)) [
    | inl no_cut ↦ cc (append-nil buffer, no_cut, e)
    | inr ((l', r'), here) ↦ found-Reads [] buffer l r l' r' h e here
  ]
  fill-cut (chunk s ∷ es) buffer l r h e = elim (Option-cases (cut d buffer)) [
    | inl no_cut ↦
        rw (fill-chunk s es buffer no_cut)
          (fill-cut es (buffer ++ s) l r h.1 (ap (cut d) (append_assoc buffer s (bytes_of es)) ∙ e))
    | inr ((l', r'), here) ↦ found-Reads (chunk s ∷ es) buffer l r l' r' h e here
  ]
  fill-cut (deadline ∷ es) buffer l r h e = absurd h.0
  fill-cut (failure ∷ es) buffer l r h e = absurd h.0

  -- Reading up to a delimiter takes exactly the bytes up to it, wherever the network cut them.
  pub read_bytes-pending :
      (i : Input) (p s : Bytes)
      → OnlyChunks i.events
      → Lacks d p
      → pending i ≡ p ++ d ∷ s
      → Reads (read_bytes d i) (p ++ d ∷ []) s
  unfolding read_bytes
  read_bytes-pending i p s h lacks e =
      fill-cut i.events i.buffer (p ++ d ∷ []) s h (ap (cut d) e ∙ cut-Lacks p s lacks)

  cut-none : (s : Bytes) → Lacks d s → cut d s ≡ none
  unfolding cut
  cut-none [] h = refl
  cut-none (c ∷ s) h = ground (arith, cut-none s h.1)

  -- A chunk without the delimiter is read into the buffer.
  pub read_bytes-chunk :
      (buffer s : Bytes) (es : List Event)
      → Lacks d buffer
      → read_bytes d (record { buffer = buffer; events = chunk s ∷ es })
        ≡ read_bytes d (record { buffer = buffer ++ s; events = es })
  unfolding read_bytes
  read_bytes-chunk buffer s es h = fill-chunk s es buffer (cut-none buffer h)

  -- A deadline that passes while the delimiter is missing drops what was buffered.
  pub read_bytes-deadline :
      (buffer : Bytes) (es : List Event)
      → Lacks d buffer
      → read_bytes d (record { buffer = buffer; events = deadline ∷ es })
        ≡ record { result = err timeout; input = record { buffer = []; events = es } }
  unfolding read_bytes fill failed
  read_bytes-deadline buffer es h = rw (cut-none buffer h, fill)

  -- A line that is in the buffer is taken from it, and the connection is not asked.
  pub read_bytes-found :
      (p s : Bytes) (es : List Event)
      → Lacks d p
      → read_bytes d (record { buffer = p ++ d ∷ s; events = es })
        ≡ record { result = ok (p ++ d ∷ []); input = record { buffer = s; events = es } }
  unfolding read_bytes found
  read_bytes-found p s es h = fill-found es (p ++ d ∷ s) (p ++ d ∷ [], s) (cut-Lacks p s h)
