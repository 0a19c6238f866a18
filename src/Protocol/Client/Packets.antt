-- ===== src/Protocol/Client/Packets.antt =====
-- How packets are read: what the other end framed comes back, wherever the network cuts the bytes,
-- and what a deadline does to a packet that has arrived in part.
use dbgp_tools.Base.{
  Bytes, length, All, Lacks, ℕ, ◌≤◌, ◌≡◌, ◌∙◌, [], ◌∷◌, ◌++◌, append_assoc, arith,
}
use dbgp_tools.Base.{refl}
use dbgp_tools.Go.Stream.{Read}
use dbgp_tools.Base.Int.{pos}
use dbgp_tools.Go.Decimal.{itoa, format_nat}
use dbgp_tools.Go.Decimal.RoundTrip.{itoa-pos, format_nat-All}
use dbgp_tools.Go.Stream.Laws.{bytes_of, OnlyChunks}
use dbgp_tools.Go.Net.Laws.{read_from-pending}
use dbgp_tools.Go.Net.{Conn, read_from}
use dbgp_tools.Protocol.Server.{frame}
use dbgp_tools.Protocol.Client.{DbgpClient, packet, Reading, read_response, read_after_length}

-- All that the client has still to read: its buffer, and what the connection brings.
abbrev pub to_read : DbgpClient → Conn → Bytes
to_read c conn = c.buffer ++ bytes_of conn.events

pub record Gets (out : Reading) (text rest : Bytes) : Type 0 where
  pub got : out.response ≡ packet text
  pub left : to_read out.client out.conn ≡ rest
  pub calm : OnlyChunks out.conn.events

-- A packet is read whole and nothing more is, however the network cut it: what is returned is the
-- text with the byte 0 behind it, and what follows the packet is left to be read.
pub read_response-Gets :
    (c : DbgpClient) (conn : Conn) (length xml rest : Bytes)
    → OnlyChunks conn.events
    → Lacks 0 length
    → Lacks 0 xml
    → to_read c conn ≡ length ++ (0 ∷ (xml ++ 0 ∷ rest))
    → Gets (read_response c conn) (xml ++ 0 ∷ []) rest
unfolding read_response read_after_length
read_response-Gets c conn length xml rest calm hl hx e =
    let first = read_from-pending 0 c.buffer conn length (xml ++ 0 ∷ rest) calm hl e in
    let out = read_from 0 c.buffer conn in
    let second = read_from-pending 0 out.buffer out.conn xml rest first.calm hx first.left in
    rw first.line_read
      (record { got = rw second.line_read; left = second.left; calm = second.calm })

digits_lack_zero : (s : Bytes) → All (λ c. (b'0' ≤ c) × (c ≤ b'9')) s → Lacks 0 s
digits_lack_zero [] h = tt
digits_lack_zero (c ∷ s) h = (omega arith, digits_lack_zero s h.1)

pub itoa-Lacks : (n : ℕ) → Lacks 0 (itoa (pos n))
itoa-Lacks n = rw itoa-pos (digits_lack_zero (format_nat n) (format_nat-All n))

-- What SendResponse writes for a text with no byte 0 is read back by ReadResponse, followed by a
-- byte 0, whatever comes behind it and however the network cut the bytes, if nothing interrupts
-- them; what comes behind it is left to be read.
pub read_response-frame :
    (c : DbgpClient) (conn : Conn) (xml rest : Bytes)
    → OnlyChunks conn.events
    → Lacks 0 xml
    → to_read c conn ≡ frame xml ++ rest
    → Gets (read_response c conn) (xml ++ 0 ∷ []) rest
unfolding frame
read_response-frame c conn xml rest calm h e =
    read_response-Gets c conn (itoa (pos (length xml))) xml rest calm (itoa-Lacks (length xml)) h
      (e ∙ simp append_assoc)

-- Reading writes nothing.
pub read_response-sent :
    (c : DbgpClient) (conn : Conn) → (read_response c conn).conn.sent ≡ conn.sent
unfolding read_response read_from
read_response-sent c conn =
    let out = read_from 0 c.buffer conn in
    elim out.result as (λ r. (read_after_length c r out).conn.sent ≡ conn.sent) [
      | Read.ok text ↦ unfold read_after_length in refl
      | Read.err e ↦ unfold read_after_length in refl
    ]

pub read_response-faults :
    (c : DbgpClient) (conn : Conn) → (read_response c conn).conn.faults ≡ conn.faults
unfolding read_response read_from
read_response-faults c conn =
    let out = read_from 0 c.buffer conn in
    elim out.result as (λ r. (read_after_length c r out).conn.faults ≡ conn.faults) [
      | Read.ok text ↦ unfold read_after_length in refl
      | Read.err e ↦ unfold read_after_length in refl
    ]

pub read_response-counter :
    (c : DbgpClient) (conn : Conn) → (read_response c conn).client.counter ≡ c.counter
unfolding read_response read_from
read_response-counter c conn =
    let out = read_from 0 c.buffer conn in
    elim out.result as (λ r. (read_after_length c r out).client.counter ≡ c.counter) [
      | Read.ok text ↦ unfold read_after_length in refl
      | Read.err e ↦ unfold read_after_length in refl
    ]

pub read_response-last_source_begin :
    (c : DbgpClient) (conn : Conn)
    → (read_response c conn).client.last_source_begin ≡ c.last_source_begin
unfolding read_response read_from
read_response-last_source_begin c conn =
    let out = read_from 0 c.buffer conn in
    elim out.result
      as (λ r. (read_after_length c r out).client.last_source_begin ≡ c.last_source_begin) [
        | Read.ok text ↦ unfold read_after_length in refl
        | Read.err e ↦ unfold read_after_length in refl
      ]
