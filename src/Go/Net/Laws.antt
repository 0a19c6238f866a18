-- ===== src/Go/Net/Laws.antt =====
-- Reading from a connection, and writing to one.
use dbgp_tools.Base.{refl, true, false, Bytes, Lacks, ℕ, ◌≡◌, List, [], ◌∷◌, ◌++◌, ap}
use dbgp_tools.Go.Stream.{Event, chunk, deadline, timeout, ok, err}
use dbgp_tools.Go.Stream.Laws.{
  bytes_of, OnlyChunks, read_bytes-pending, read_bytes-chunk, read_bytes-deadline, read_bytes-found,
}
use dbgp_tools.Go.Net.{Conn, write, write_next, read_from, ConnRead}

module _ (d : ℕ) where
  pub record ReadsFrom (out : ConnRead) (line rest : Bytes) : Type 0 where
    pub line_read : out.result ≡ ok line
    pub left : out.buffer ++ bytes_of out.conn.events ≡ rest
    pub calm : OnlyChunks out.conn.events

  pub read_from-pending :
      (buffer : Bytes) (conn : Conn) (p s : Bytes)
      → OnlyChunks conn.events
      → Lacks d p
      → buffer ++ bytes_of conn.events ≡ p ++ d ∷ s
      → ReadsFrom (read_from d buffer conn) (p ++ d ∷ []) s
  read_from-pending buffer conn p s calm lacks e =
      let h =
        read_bytes-pending d (record { buffer = buffer; events = conn.events }) p s calm lacks e in
      unfold read_from in record { line_read = h.line_read; left = h.left; calm = h.calm }

  pub read_from-chunk :
      (buffer s : Bytes) (es : List Event) (conn : Conn)
      → Lacks d buffer
      → read_from d buffer (record conn { events = chunk s ∷ es })
        ≡ read_from d (buffer ++ s) (record conn { events = es })
  unfolding read_from
  read_from-chunk buffer s es conn h = rw (read_bytes-chunk d buffer s es h)

  pub read_from-deadline :
      (buffer : Bytes) (es : List Event) (conn : Conn)
      → Lacks d buffer
      → read_from d buffer (record conn { events = deadline ∷ es })
        ≡ record { result = err timeout; buffer = []; conn = record conn { events = es } }
  unfolding read_from
  read_from-deadline buffer es conn h = rw (read_bytes-deadline d buffer es h)

-- Where the network does not fail, a write appends and succeeds.
pub write_unfailing :
    (s : Bytes) (conn : Conn)
    → conn.faults ≡ []
    → write s conn ≡ record { conn = record conn { sent = conn.sent ++ s }; failed = false }
unfolding write
write_unfailing s conn e = ap (λ fs. write_next fs s conn) e

module _ (d : ℕ) where
  pub read_from-found :
      (p s : Bytes) (conn : Conn)
      → Lacks d p
      → read_from d (p ++ d ∷ s) conn
        ≡ record { result = ok (p ++ d ∷ []); buffer = s; conn = conn }
  unfolding read_from
  read_from-found p s conn h = rw (read_bytes-found d p s conn.events h)

-- Writing takes nothing from what is to be read.
pub events-write : (s : Bytes) (conn : Conn) → (write s conn).conn.events ≡ conn.events
unfolding write
events-write s conn = elim conn.faults as (λ fs. (write_next fs s conn).conn.events ≡ conn.events) [
  | [] ↦ unfold write_next in refl
  | false ∷ fs ↦ unfold write_next in refl
  | true ∷ fs ↦ unfold write_next in refl
]
