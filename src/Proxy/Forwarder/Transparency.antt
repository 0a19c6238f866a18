-- ===== src/Proxy/Forwarder/Transparency.antt =====
-- What the IDE gets from a session.
use dbgp_tools.Base.{
  Bytes, ℕ, zero, suc, ◌<◌, Bool, true, false, Bool-cases, inl, inr, List, [], ◌∷◌, ◌++◌, length,
  length-append, All, Lacks, ◌≡◌, ap, ◌∙◌, append_assoc, append-nil, arith,
}
use dbgp_tools.Go.Decimal.{itoa}
use dbgp_tools.Go.Net.{Conn}
use dbgp_tools.Go.Net.Laws.{write_unfailing}
use dbgp_tools.Go.Stream.Laws.{OnlyChunks}
use dbgp_tools.Protocol.Server.{frame}
use dbgp_tools.Protocol.Client.{DbgpClient, new_dbgp_client, read_response}
use dbgp_tools.Protocol.Client.Packets.{to_read, read_response-frame}
use dbgp_tools.Protocol.Formatting.{Decoder, format_xml}
use dbgp_tools.Proxy.Forwarder.{reassembled, closes, minus_one, forward, finished, Forwarded}
use dbgp_tools.Proxy.Forwarder.{setup_forwarder}
use dbgp_tools.Go.Net.{close}
use dbgp_tools.Go.Stream.Laws.{bytes_of}
use dbgp_tools.Base.{some}
use dbgp_tools.Proxy.Forwarder.{hang_up}
use dbgp_tools.Base.{refl}

-- Packets one after the other.
abbrev pub frames : List Bytes → Bytes
frames [] = []
frames (m ∷ ms) = frame m ++ frames ms

-- What is forwarded is the packet as it would be framed anew.
reassembled-frame : (m : Bytes) → reassembled (m ++ 0 ∷ []) ≡ frame m
unfolding reassembled frame
reassembled-frame m =
    let e : length (m ++ 0 ∷ []) ≡ suc (length m) = omega (arith, length-append m (0 ∷ [])) in
    ap (λ n. itoa (minus_one n) ++ 0 ∷ (m ++ 0 ∷ [])) e

-- Whether a packet closes the session does not depend on the reader.
closes-reader :
    (d : Decoder) (c c' : DbgpClient) (text : Bytes) → closes d c text ≡ closes d c' text
unfolding closes format_xml
closes-reader d c c' text = elim (Bool-cases (d.response text).failed) [
  | inl other ↦ rw (other, closes)
  | inr own ↦ rw (own, closes)
]

-- A packet as the loop reads it does not close the session, or closes it.
abbrev pub Continues : Decoder → Bytes → Type 0
Continues d m = (closes d new_dbgp_client (m ++ 0 ∷ []) ≡ false) × Lacks 0 m

abbrev pub Closes : Decoder → Bytes → Type 0
Closes d m = (closes d new_dbgp_client (m ++ 0 ∷ []) ≡ true) × Lacks 0 m

pub record Passes (out : Forwarded) (sent rest : Bytes) : Type 0 where
  pub ended : out.outcome ≡ finished
  pub passed : out.ide.sent ≡ sent
  pub left : to_read out.reader out.conn ≡ rest

forward-closing :
    (d : Decoder) (f : ℕ) (ended : List Bool) (c : DbgpClient) (conn ide : Conn) (last rest : Bytes)
    → OnlyChunks conn.events
    → Closes d last
    → to_read c conn ≡ frame last ++ rest
    → Passes (forward d (suc f) ended c conn ide) ide.sent rest
unfolding forward
forward-closing d f ended c conn ide last rest calm (closing, clean) e =
    let g = read_response-frame c conn last rest calm clean e in
    let now =
      closes-reader d (read_response c conn).client new_dbgp_client (last ++ 0 ∷ []) ∙ closing in
    record {
      ended = rw (g.got, forward, now);
      passed = rw (g.got, forward, now);
      left = rw (g.got, forward, now) g.left;
    }

forward-continuing :
    (d : Decoder) (f : ℕ) (ended : List Bool) (c : DbgpClient) (conn ide : Conn) (m rest : Bytes)
    → OnlyChunks conn.events
    → Continues d m
    → ide.faults ≡ []
    → to_read c conn ≡ frame m ++ rest
    → forward d (suc f) ended c conn ide
      ≡ forward d f ended
          (read_response c conn).client
          (read_response c conn).conn
          (record ide { sent = ide.sent ++ frame m })
unfolding forward
forward-continuing d f ended c conn ide m rest calm (going, clean) quiet e =
    let g = read_response-frame c conn m rest calm clean e in
    let now = closes-reader d (read_response c conn).client new_dbgp_client (m ++ 0 ∷ []) ∙ going in
    rw (
      g.got,
      forward,
      now,
      write_unfailing (reassembled (m ++ 0 ∷ [])) ide quiet,
      reassembled-frame m,
    )

forward-frames :
    (d : Decoder) (f : ℕ) (ended : List Bool) (c : DbgpClient) (conn ide : Conn) (ms : List Bytes)
    (last rest : Bytes)
    → length ms < f
    → OnlyChunks conn.events
    → All (Continues d) ms
    → Closes d last
    → ide.faults ≡ []
    → to_read c conn ≡ frames ms ++ (frame last ++ rest)
    → Passes (forward d f ended c conn ide) (ide.sent ++ frames ms) rest
forward-frames d zero ended c conn ide ms last rest enough calm going closing quiet e =
    absurd (omega arith)
forward-frames d (suc f) ended c conn ide [] last rest enough calm going closing quiet e =
    rw (append-nil ide.sent) (forward-closing d f ended c conn ide last rest calm closing e)
forward-frames d (suc f) ended c conn ide (m ∷ ms) last rest enough calm going closing quiet e =
    let later = frames ms ++ (frame last ++ rest) in
    let e' : to_read c conn ≡ frame m ++ later =
      e ∙ append_assoc (frame m) (frames ms) (frame last ++ rest) in
    let g = read_response-frame c conn m later calm going.0.1 e' in
    let out = read_response c conn in
    let ide' : Conn = record ide { sent = ide.sent ++ frame m } in
    rw (forward-continuing d f ended c conn ide m later calm going.0 quiet e') (
      rw (← append_assoc ide.sent (frame m) (frames ms)) (
        forward-frames d f ended out.client out.conn ide' ms last rest (omega arith) g.calm going.1
          closing quiet g.left))

-- Let the IDE be connected and no write to it fail, and let Xdebug send, behind its first packet,
-- packets that do not close the session and then one that does, each framed, with no byte 0 in it, and
-- not interrupted. With fuel for each of them the session finishes: the IDE gets the first packet and
-- all packets before the one that closes, in order and framed as they were, and nothing else; its
-- connection is closed, and what follows the closing packet is in the buffer of the session's own reader,
-- which is dropped, or still unread on the connection.
pub setup_forwarder-Passes :
    (d : Decoder) (f : ℕ) (ended : List Bool) (conn ide : Conn) (first : Bytes) (ms : List Bytes)
    (last rest : Bytes)
    → length ms < f
    → OnlyChunks conn.events
    → All (Continues d) ms
    → Closes d last
    → ide.faults ≡ []
    → bytes_of conn.events ≡ frames ms ++ (frame last ++ rest)
    → (out : Forwarded) × (setup_forwarder d f ended (some ide) (first ++ 0 ∷ []) conn ≡ some out)
      × Passes out (ide.sent ++ frame first ++ frames ms) rest
      × (out.ide.closed ≡ true)
unfolding setup_forwarder close
setup_forwarder-Passes d f ended conn ide first ms last rest enough calm going closing quiet e =
    let ide' : Conn = record ide { sent = ide.sent ++ frame first } in
    let p =
      forward-frames d f ended new_dbgp_client conn ide' ms last rest enough calm going closing
        quiet e in
    (
      hang_up (forward d f ended new_dbgp_client conn ide'),
      rw (write_unfailing (reassembled (first ++ 0 ∷ [])) ide quiet, reassembled-frame first),
      record { ended = p.ended; passed = p.passed; left = p.left },
      refl,
    )
