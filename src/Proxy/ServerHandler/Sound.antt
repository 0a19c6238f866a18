-- ===== src/Proxy/ServerHandler/Sound.antt =====
-- Rounds in which RemoveByKey does not block and the fuel of the session suffices.
use dbgp_tools.Base.{
  Bytes, Bool, true, false, ◌<◌, ◌≢◌, refl, Option, none, some, Option-cases, inl, inr, arith,
}
use dbgp_tools.Go.Net.{Conn}
use dbgp_tools.Go.Stream.{eof, timeout, io_error}
use dbgp_tools.Go.Stream.Measure.{weight}
use dbgp_tools.Connections.{Registry, find_by_key}
use dbgp_tools.Connections.Unclaimed.{Unclaimed, remove_by_key-Unclaimed}
use dbgp_tools.Protocol.Client.{
  DbgpClient, Response, packet, timed_out, length_failed, data_failed, read_response,
}
use dbgp_tools.Protocol.Client.Progress.{remaining, read_response-events}
use dbgp_tools.Protocol.Formatting.{
  RunResult, succeeded, panicked, write_failed, read_failed, not_xml, refused,
}
use dbgp_tools.Proxy.ConnectToIde.{connect_to_ide}
use dbgp_tools.Proxy.Forwarder.{Forwarded, ide_closed, init_not_sent, finished, lost, unfinished}
use dbgp_tools.Proxy.Forwarder.Termination.{HasEnded, setup_forwarder_ends}
use dbgp_tools.Proxy.ServerHandler.{
  Turn, Next, blocked, out_of_fuel, after_detach, World, without_ide, released, session_over,
  after_session, with_key, with_response, key_of, stay, read_error, turn,
}
use dbgp_tools.Proxy.ServerHandler.Session.{released-unclaimed}

pub record IsSound (t : Turn) : Type 0 where
  pub not_blocked : t.next ≢ blocked
  pub enough_fuel : t.next ≢ out_of_fuel
  pub free : Unclaimed t.registry

after_detach-blocked : (x : RunResult) → after_detach x ≢ blocked
after_detach-blocked succeeded e = cc
after_detach-blocked panicked e = cc
after_detach-blocked write_failed e = cc
after_detach-blocked (read_failed why) e = cc
after_detach-blocked (not_xml text) e = cc
after_detach-blocked (refused text) e = cc

after_detach-out_of_fuel : (x : RunResult) → after_detach x ≢ out_of_fuel
after_detach-out_of_fuel succeeded e = cc
after_detach-out_of_fuel panicked e = cc
after_detach-out_of_fuel write_failed e = cc
after_detach-out_of_fuel (read_failed why) e = cc
after_detach-out_of_fuel (not_xml text) e = cc
after_detach-out_of_fuel (refused text) e = cc

module _ (w : World) (key : Bytes) (c : DbgpClient) (r : Registry) (free : Unclaimed r) where
  released-IsSound : (conn : Conn) (ide : Option Conn) → IsSound (released w key c conn ide r)
  released-IsSound conn ide = rw (released-unclaimed w key c conn ide r free) (record {
    not_blocked = after_detach-blocked _;
    enough_fuel = after_detach-out_of_fuel _;
    free = remove_by_key-Unclaimed key r free;
  })

  after_session-IsSound :
      (conn : Conn) (o : Option Forwarded) → HasEnded o → IsSound (after_session w key c conn o r)
  unfolding after_session session_over
  after_session-IsSound conn none h = released-IsSound conn none
  after_session-IsSound conn (some out) h =
      elim out.outcome
          as (λ o.
            o ≢ unfinished
            → IsSound (after_session w key c conn (some (record out { outcome = o })) r)) [
              | ide_closed ↦ λ x. released-IsSound out.conn (some out.ide)
              | init_not_sent ↦ λ x. released-IsSound out.conn (some out.ide)
              | finished ↦ λ x. record { not_blocked = λ e. cc; enough_fuel = λ e. cc; free = free }
              | lost ↦ λ x. record { not_blocked = λ e. cc; enough_fuel = λ e. cc; free = free }
              | unfinished ↦ λ x. absurd (x refl)
            ]
        h

module _ (w : World) (r : Registry)
    (keeps : (s : Registry) → Unclaimed s → Unclaimed (w.meanwhile s)) (free : Unclaimed r) where
  with_key-IsSound :
      (key text : Bytes) (c : DbgpClient) (conn : Conn)
      → weight conn.events < w.fuel
      → IsSound (with_key w key text c conn r)
  unfolding with_key without_ide
  with_key-IsSound key text c conn enough = elim (Option-cases (find_by_key key r)) [
    | inl missing ↦
        rw (missing, with_key)
          (record {
            not_blocked = after_detach-blocked _;
            enough_fuel = after_detach-out_of_fuel _;
            free = free;
          })
    | inr (p, found) ↦
        rw (found, with_key)
          (after_session-IsSound w key c (w.meanwhile r) (keeps r free) conn _ (
            setup_forwarder_ends w.decoder w.fuel w.ended (connect_to_ide w.network (r.heap p)) text
              conn enough))
  ]

  stay-IsSound :
      (n : Next) (c : DbgpClient) (conn : Conn)
      → n ≢ blocked
      → n ≢ out_of_fuel
      → IsSound (stay n c conn r)
  unfolding stay
  stay-IsSound n c conn a b = record { not_blocked = a; enough_fuel = b; free = free }

  with_response-IsSound :
      (x : Response) (c : DbgpClient) (conn : Conn)
      → weight conn.events < w.fuel
      → IsSound (with_response w x c conn r)
  unfolding with_response read_error
  with_response-IsSound timed_out c conn h = stay-IsSound _ c conn (λ e. cc) (λ e. cc)
  with_response-IsSound (length_failed eof) c conn h = stay-IsSound _ c conn (λ e. cc) (λ e. cc)
  with_response-IsSound (length_failed timeout) c conn h = stay-IsSound _ c conn (λ e. cc) (λ e. cc)
  with_response-IsSound (length_failed io_error) c conn h =
      stay-IsSound _ c conn (λ e. cc) (λ e. cc)
  with_response-IsSound (data_failed eof) c conn h = stay-IsSound _ c conn (λ e. cc) (λ e. cc)
  with_response-IsSound (data_failed timeout) c conn h = stay-IsSound _ c conn (λ e. cc) (λ e. cc)
  with_response-IsSound (data_failed io_error) c conn h = stay-IsSound _ c conn (λ e. cc) (λ e. cc)
  with_response-IsSound (packet text) c conn h =
      elim (Option-cases (key_of (w.decoder.init text).value)) [
        | inl missing ↦ rw (missing, with_response) (stay-IsSound _ c conn (λ e. cc) (λ e. cc))
        | inr (key, named) ↦ rw (named, with_response) (with_key-IsSound key text c conn h)
      ]

pub turn-IsSound :
    (w : World) (interrupted : Bool) (c : DbgpClient) (conn : Conn) (r : Registry)
    → ((s : Registry) → Unclaimed s → Unclaimed (w.meanwhile s))
    → remaining c conn < w.fuel
    → Unclaimed r
    → IsSound (turn w interrupted c conn r)
unfolding turn
turn-IsSound w true c conn r keeps enough free =
    stay-IsSound w r keeps free _ _ _ (λ e. cc) (λ e. cc)
turn-IsSound w false c conn r keeps enough free =
    let out = read_response c conn in
    with_response-IsSound w r keeps free out.response out.client out.conn
      (omega (arith, read_response-events c conn, enough))
