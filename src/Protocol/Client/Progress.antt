-- ===== src/Protocol/Client/Progress.antt =====
-- Every round of a loop that reads packets leaves less to read, so the loops end.
use dbgp_tools.Base.{
  ◌⊎◌, inl, inr, Bytes, ℕ, ◌+◌, ◌<◌, ◌≤◌, ◌≡◌, ◌≢◌, length, arith, Bool, true, false,
}
use dbgp_tools.Go.Net.{Conn, read_from, ConnRead}
use dbgp_tools.Go.Stream.{eof, timeout, io_error, Read, ok, err}
use dbgp_tools.Go.Stream.Measure.{weight, read_bytes-Shrinks, read_bytes-events}
use dbgp_tools.Protocol.Client.{
  DbgpClient, Response, packet, timed_out, length_failed, data_failed, read_response,
  read_after_length, data_read, with_read, read_data,
}
use dbgp_tools.Go.Stream.{ReadError}
use dbgp_tools.Base.{refl, ap}

-- What a client has still to read.
abbrev pub remaining : DbgpClient → Conn → ℕ
remaining c conn = length c.buffer + weight conn.events

read_from-Shrinks :
    (buffer : Bytes) (conn : Conn)
    → let out = read_from 0 buffer conn in
      out.result ≢ err eof
      → length out.buffer + weight out.conn.events < length buffer + weight conn.events
unfolding read_from
read_from-Shrinks buffer conn =
    read_bytes-Shrinks 0 (record { buffer = buffer; events = conn.events })

-- A loop goes on after these.
abbrev pub goes_on : Response → Bool
goes_on (packet text) = true
goes_on timed_out = true
goes_on (length_failed e) = false
goes_on (data_failed e) = false

data_read-ne-eof : (r : Read Bytes) → goes_on (data_read r) ≡ true → r ≢ err eof
data_read-ne-eof (ok l) h e = cc
data_read-ne-eof (err x) h e = cc

after_data :
    (c : DbgpClient) (out : ConnRead)
    → goes_on (read_data c out).response ≡ true
    → remaining (read_data c out).client (read_data c out).conn
      < length out.buffer + weight out.conn.events
unfolding read_data with_read
after_data c out h =
    read_from-Shrinks out.buffer out.conn
      (data_read-ne-eof (read_from 0 out.buffer out.conn).result h)

after_length :
    (c : DbgpClient) (r : Read Bytes) (out : ConnRead) (n : ℕ)
    → (r ≢ err eof → length out.buffer + weight out.conn.events < n)
    → goes_on (read_after_length c r out).response ≡ true
    → remaining (read_after_length c r out).client (read_after_length c r out).conn < n
unfolding read_after_length with_read
after_length c (ok l) out n less h = omega (arith, less (λ e. cc), after_data c out h)
after_length c (err timeout) out n less h = less (λ e. cc)
after_length c (err eof) out n less h = cc
after_length c (err io_error) out n less h = cc

-- A read that ends with a packet or a timeout leaves less to read.
pub remaining-read_response :
    (c : DbgpClient) (conn : Conn)
    → goes_on (read_response c conn).response ≡ true
    → remaining (read_response c conn).client (read_response c conn).conn < remaining c conn
unfolding read_response
remaining-read_response c conn h =
    let out = read_from 0 c.buffer conn in
    after_length c out.result out (remaining c conn) (read_from-Shrinks c.buffer conn) h

after_length-packet :
    (c : DbgpClient) (r : Read Bytes) (out : ConnRead) (n : ℕ) (text : Bytes)
    → (r ≢ err eof → length out.buffer + weight out.conn.events < n)
    → (read_after_length c r out).response ≡ packet text
    → remaining (read_after_length c r out).client (read_after_length c r out).conn + 2 ≤ n
unfolding read_after_length with_read
after_length-packet c (ok l) out n text less h =
    omega (arith, less (λ e. cc), after_data c out (ap goes_on h))
after_length-packet c (err timeout) out n text less h = cc
after_length-packet c (err eof) out n text less h = cc
after_length-packet c (err io_error) out n text less h = cc

-- A packet is two bytes or more.
pub remaining-packet :
    (c : DbgpClient) (conn : Conn) (text : Bytes)
    → (read_response c conn).response ≡ packet text
    → remaining (read_response c conn).client (read_response c conn).conn + 2 ≤ remaining c conn
unfolding read_response
remaining-packet c conn text h =
    let out = read_from 0 c.buffer conn in
    after_length-packet c out.result out (remaining c conn) text (read_from-Shrinks c.buffer conn) h

read_from-events :
    (buffer : Bytes) (conn : Conn)
    → weight (read_from 0 buffer conn).conn.events ≤ weight conn.events
unfolding read_from
read_from-events buffer conn =
    read_bytes-events 0 (record { buffer = buffer; events = conn.events })

after_length-events :
    (c : DbgpClient) (r : Read Bytes) (out : ConnRead)
    → weight (read_after_length c r out).conn.events ≤ weight out.conn.events
unfolding read_after_length with_read read_data
after_length-events c (ok l) out = read_from-events out.buffer out.conn
after_length-events c (err e) out = omega arith

-- Whatever a read ends with, the network does not bring more than before.
pub read_response-events :
    (c : DbgpClient) (conn : Conn) → weight (read_response c conn).conn.events ≤ weight conn.events
unfolding read_response
read_response-events c conn =
    let out = read_from 0 c.buffer conn in
    omega (arith, after_length-events c out.result out, read_from-events c.buffer conn)

-- The results of a read, with the equation.
pub Response-cases :
    (r : Response)
    → ((text : Bytes) × (r ≡ packet text))
      ⊎ ((r ≡ timed_out)
          ⊎ (((e : ReadError) × (r ≡ length_failed e)) ⊎ ((e : ReadError) × (r ≡ data_failed e))))
Response-cases (packet text) = inl (text, refl)
Response-cases timed_out = inr (inl refl)
Response-cases (length_failed e) = inr (inr (inl (e, refl)))
Response-cases (data_failed e) = inr (inr (inr (e, refl)))
