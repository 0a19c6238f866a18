-- ===== src/Protocol/Client/Patience.antt =====
-- Reading with a deadline: a caller that goes on after each timeout, as the loops of lib/proxy and of
-- the command line client do.
use dbgp_tools.Base.{
  Bytes, length, All, All-append, Lacks, ℕ, zero, suc, ◌≤◌, ◌≡◌, refl, ap, ◌∙◌, ◌≢◌, List, [], ◌∷◌,
  ◌++◌, append_assoc, arith,
}
use dbgp_tools.Go.Stream.{Event, chunk, deadline, failure, timeout}
use dbgp_tools.Go.Stream.Laws.{bytes_of, OnlyChunks}
use dbgp_tools.Go.Net.{Conn}
use dbgp_tools.Go.Net.Laws.{read_from-chunk, read_from-deadline, read_from-found}
use dbgp_tools.Protocol.Client.{
  DbgpClient, packet, timed_out, data_failed, Reading, read_response, read_after_length,
}
use dbgp_tools.Protocol.Client.Packets.{Gets, read_response-Gets}

-- A timeout is followed by another attempt.
go_on : Reading → Reading → Reading
go_on out again = elim out.response [ timed_out ↦ again | other ↦ out ]

-- Reading until there is a packet or an error; the fuel bounds the timeouts.
unfoldable pub await : ℕ → DbgpClient → Conn → Reading
unfolding go_on
await zero c conn = read_response c conn
await (suc f) c conn =
    let out = read_response c conn in let again = await f out.client out.conn in go_on out again

-- What may come before the end of the length: parts of it, and deadlines.
abbrev IsPartial : Event → Type 0
IsPartial (chunk s) = Lacks 0 s
IsPartial deadline = Unit
IsPartial failure = ⊥

await-cong :
    (f : ℕ) (c c' : DbgpClient) (conn conn' : Conn)
    → read_response c conn ≡ read_response c' conn'
    → await f c conn ≡ await f c' conn'
unfolding await
await-cong zero c c' conn conn' e = e
await-cong (suc f) c c' conn conn' e = ap (λ out. go_on out (await f out.client out.conn)) e

response_chunk :
    (c : DbgpClient) (s : Bytes) (es : List Event) (conn : Conn)
    → Lacks 0 c.buffer
    → read_response c (record conn { events = chunk s ∷ es })
      ≡ read_response (record c { buffer = c.buffer ++ s }) (record conn { events = es })
unfolding read_response read_after_length
response_chunk c s es conn h = rw (read_from-chunk 0 c.buffer s es conn h)

pub response_deadline :
    (c : DbgpClient) (es : List Event) (conn : Conn)
    → Lacks 0 c.buffer
    → read_response c (record conn { events = deadline ∷ es }) ≡ record {
      response = timed_out;
      client = record c { buffer = [] };
      conn = record conn { events = es };
    }
unfolding read_response read_after_length
response_deadline c es conn h = rw (read_from-deadline 0 c.buffer es conn h)

await-deadline :
    (f : ℕ) (c : DbgpClient) (es : List Event) (conn : Conn)
    → Lacks 0 c.buffer
    → await (suc f) c (record conn { events = deadline ∷ es })
      ≡ await f (record c { buffer = [] }) (record conn { events = es })
unfolding await
await-deadline f c es conn h =
    ap (λ out. go_on out (await f out.client out.conn)) (response_deadline c es conn h)

go_on-packet :
    (out again : Reading) (text : Bytes) → out.response ≡ packet text → go_on out again ≡ out
unfolding go_on
go_on-packet out again text e = ground arith

await-packet :
    (f : ℕ) (c : DbgpClient) (conn : Conn) (text : Bytes)
    → (read_response c conn).response ≡ packet text
    → await f c conn ≡ read_response c conn
unfolding await
await-packet zero c conn text e = refl
await-packet (suc f) c conn text e = go_on-packet (read_response c conn) _ text e

await_calm :
    (f : ℕ) (c : DbgpClient) (conn : Conn) (text rest : Bytes)
    → Gets (read_response c conn) text rest
    → Gets (await f c conn) text rest
await_calm f c conn text rest g = rw (await-packet f c conn text g.got) g

-- A packet whose length arrives in parts, with deadlines passing in between, is still read whole
-- by a caller that goes on after every timeout, if it does so at least as often as anything
-- arrives before the rest, and if the rest, with the end of the length and a text with no byte 0,
-- arrives without interruption; what follows the packet is left to be read.
pub await-Gets :
    (pre : List Event) (f : ℕ) (c : DbgpClient) (conn : Conn) (es : List Event)
    (len xml rest : Bytes)
    → All IsPartial pre
    → length pre ≤ f
    → Lacks 0 c.buffer
    → OnlyChunks es
    → Lacks 0 len
    → Lacks 0 xml
    → bytes_of es ≡ len ++ (0 ∷ (xml ++ 0 ∷ rest))
    → Gets (await f c (record conn { events = pre ++ es })) (xml ++ 0 ∷ []) rest
await-Gets [] f c conn es len xml rest partial enough empty calm hl hx e =
    await_calm f c (record conn { events = es }) (xml ++ 0 ∷ []) rest
      (read_response-Gets c (record conn { events = es }) (c.buffer ++ len) xml rest calm
        (All-append (λ b. b ≢ 0) c.buffer len empty hl) hx
        (ap (λ s. c.buffer ++ s) e ∙ simp append_assoc))
await-Gets (chunk s ∷ pre) f c conn es len xml rest partial enough empty calm hl hx e =
    rw (await-cong f c _ _ _ (response_chunk c s (pre ++ es) conn empty)) (
      await-Gets pre f (record c { buffer = c.buffer ++ s }) conn es len xml rest partial.1
        (omega arith) (All-append (λ b. b ≢ 0) c.buffer s empty partial.0) calm hl hx e)
await-Gets (deadline ∷ pre) zero c conn es len xml rest partial enough empty calm hl hx e =
    absurd (omega arith)
await-Gets (deadline ∷ pre) (suc f) c conn es len xml rest partial enough empty calm hl hx e =
    rw (await-deadline f c (pre ++ es) conn empty) (
      await-Gets pre f (record c { buffer = [] }) conn es len xml rest partial.1 (omega arith) tt
        calm hl hx e)
await-Gets (failure ∷ pre) f c conn es len xml rest partial enough empty calm hl hx e =
    absurd partial.0

-- A deadline that passes when the length of a packet has been buffered and its text only in part
-- is reported as an error of the text and not as a timeout, and the part of the text that had
-- arrived is dropped.
pub read_response-data_deadline :
    (c : DbgpClient) (conn : Conn) (es : List Event) (len part : Bytes)
    → Lacks 0 len
    → Lacks 0 part
    → c.buffer ≡ len ++ 0 ∷ part
    → read_response c (record conn { events = deadline ∷ es }) ≡ record {
      response = data_failed timeout;
      client = record c { buffer = [] };
      conn = record conn { events = es };
    }
unfolding read_response read_after_length
read_response-data_deadline c conn es len part hl hp e = rw (
  e,
  read_from-found 0 len part (record conn { events = deadline ∷ es }) hl,
  read_from-deadline 0 part es conn hp,
)
