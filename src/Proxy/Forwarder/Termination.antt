-- ===== src/Proxy/Forwarder/Termination.antt =====
-- The loop of a session ends, whatever arrives.
use dbgp_tools.Base.{
  ◌≤◌, Option, none, some, Bytes, ℕ, suc, zero, ◌<◌, ◌≢◌, List, [], ◌∷◌, Bool, true, false,
  Bool-cases, inl, inr, arith,
}
use dbgp_tools.Go.Net.{close, Conn, write}
use dbgp_tools.Go.Stream.Measure.{weight}
use dbgp_tools.Protocol.Client.{new_dbgp_client, DbgpClient, read_response}
use dbgp_tools.Protocol.Client.Progress.{
  read_response-events, remaining, remaining-read_response, Response-cases,
}
use dbgp_tools.Proxy.Forwarder.{
  Forwarded, setup_forwarder, hang_up, forward, closes, reassembled, unfinished,
}
use dbgp_tools.Protocol.Formatting.{Decoder}

-- With more fuel than there is to read, which is the bytes and the events that are left, the loop ends
-- by itself: whatever Xdebug sends, however the network cuts and interrupts it, whatever the decoder
-- makes of it, and whenever the IDE goes.
pub forward_ends :
    (d : Decoder) (f : ℕ) (ended : List Bool) (c : DbgpClient) (conn ide : Conn)
    → remaining c conn < f
    → (forward d f ended c conn ide).outcome ≢ unfinished
unfolding forward
forward_ends d zero ended c conn ide enough = absurd (omega arith)
forward_ends d (suc f) ended c conn ide enough =
    let out = read_response c conn in
    elim (Response-cases out.response) [
      | inl (text, got) ↦
          let less = remaining-read_response c conn (rw got) in
          elim (Bool-cases (closes d out.client text)) [
            | inl closing ↦ rw (got, forward, closing) (λ e. cc)
            | inr going ↦
                rw (got, forward, going)
                  (forward_ends d f ended out.client out.conn (write (reassembled text) ide).conn
                    (omega (arith, less)))
          ]
      | inr (inl late) ↦
          let less = remaining-read_response c conn (rw late) in
          let again = λ (later : List Bool).
            forward_ends d f later out.client out.conn ide (omega (arith, less)) in
          elim ended as (λ en. (forward d (suc f) en c conn ide).outcome ≢ unfinished) [
            | [] ↦ rw (late, forward) (again [])
            | true ∷ later ↦ rw (late, forward) (λ e. cc)
            | false ∷ later ↦ rw (late, forward) (again later)
          ]
      | inr (inr (inl (e, lost))) ↦ rw (lost, forward) (λ e. cc)
      | inr (inr (inr (e, lost))) ↦ rw (lost, forward) (λ e. cc)
    ]

-- A session puts nothing back on the network.
forward-events :
    (d : Decoder) (f : ℕ) (ended : List Bool) (c : DbgpClient) (conn ide : Conn)
    → weight (forward d f ended c conn ide).conn.events ≤ weight conn.events
unfolding forward close
forward-events d zero ended c conn ide = omega arith
forward-events d (suc f) ended c conn ide =
    let out = read_response c conn in
    let less = read_response-events c conn in
    elim (Response-cases out.response) [
      | inl (text, got) ↦ elim (Bool-cases (closes d out.client text)) [
        | inl closing ↦ rw (got, forward, closing) less
        | inr going ↦
            rw (got, forward, going)
              (omega (
                arith,
                less,
                forward-events d f ended out.client out.conn (write (reassembled text) ide).conn,
              ))
      ]
      | inr (inl late) ↦
          let more = λ (later : List Bool). forward-events d f later out.client out.conn ide in
          elim ended
            as (λ en. weight (forward d (suc f) en c conn ide).conn.events ≤ weight conn.events) [
              | [] ↦ rw (late, forward) (omega (arith, less, more []))
              | true ∷ later ↦ rw (late, forward) less
              | false ∷ later ↦ rw (late, forward) (omega (arith, less, more later))
            ]
      | inr (inr (inl (e, lost))) ↦ rw (lost, forward) less
      | inr (inr (inr (e, lost))) ↦ rw (lost, forward) less
    ]

-- The fuel did not run out.
abbrev pub HasEnded : Option Forwarded → Type 0
HasEnded none = Unit
HasEnded (some out) = out.outcome ≢ unfinished

pub setup_forwarder_ends :
    (d : Decoder) (f : ℕ) (ended : List Bool) (dialled : Option Conn) (initial : Bytes)
    (conn : Conn)
    → weight conn.events < f
    → HasEnded (setup_forwarder d f ended dialled initial conn)
unfolding setup_forwarder hang_up close
setup_forwarder_ends d f ended none initial conn enough = tt
setup_forwarder_ends d f ended (some ide) initial conn enough =
    let sent = write (reassembled initial) ide in
    elim (Bool-cases sent.failed) [
      | inl lost ↦ rw (lost, setup_forwarder) (λ e. cc)
      | inr fine ↦
          rw (fine, setup_forwarder, hang_up)
            (forward_ends d f ended new_dbgp_client conn sent.conn (omega arith))
    ]

-- What the network still brings behind a session, if there was one.
abbrev pub left_by : Option Forwarded → ℕ
left_by none = 0
left_by (some out) = weight out.conn.events

pub setup_forwarder-events :
    (d : Decoder) (f : ℕ) (ended : List Bool) (dialled : Option Conn) (initial : Bytes)
    (conn : Conn)
    → left_by (setup_forwarder d f ended dialled initial conn) ≤ weight conn.events
unfolding setup_forwarder hang_up close
setup_forwarder-events d f ended none initial conn = omega arith
setup_forwarder-events d f ended (some ide) initial conn =
    let sent = write (reassembled initial) ide in
    elim (Bool-cases sent.failed) [
      | inl lost ↦ rw (lost, setup_forwarder) (omega arith)
      | inr fine ↦
          rw (fine, setup_forwarder, hang_up)
            (forward-events d f ended new_dbgp_client conn sent.conn)
    ]
