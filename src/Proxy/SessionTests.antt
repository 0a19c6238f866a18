-- ===== src/Proxy/SessionTests.antt =====
-- The theorems of sessions with Xdebug, at the session of SampleSession.
use dbgp_tools.Proxy.Forwarder.Absence.{Stops, forward-Stops}
use dbgp_tools.Proxy.ServerHandler.{key_of, turn, again}
use dbgp_tools.Base.{
  codes, ◌==◌, ◌≡◌, refl, true, false, some, [], ◌∷◌, ◌++◌, All, arith, append-nil,
}
use dbgp_tools.Base.Dict.{lookup, insert, delete}
use dbgp_tools.Go.Net.{Conn, arriving, read_from}
use dbgp_tools.Go.Stream.{deadline, chunk, read_bytes}
use dbgp_tools.Go.Stream.Laws.{bytes_of, OnlyChunks}
use dbgp_tools.Connections.{find_by_key, new_connection_list, new_connection, add, update}
use dbgp_tools.Connections.Calls.{step, register_new}
use dbgp_tools.Connections.Tests.{key, one_client}
use dbgp_tools.Dbgpxml.Message.{should_close_connection}
use dbgp_tools.Protocol.Server.{frame}
use dbgp_tools.Protocol.Client.{new_dbgp_client, read_response, packet, process_line}
use dbgp_tools.Protocol.Client.Packets.{to_read}
use dbgp_tools.Protocol.Formatting.{format_xml, parse_response_xml, run_command}
use dbgp_tools.Protocol.Formatting.Replies.{expected, run_command-frame}
use dbgp_tools.Proxy.ConnectToIde.{connect_to_ide}
use dbgp_tools.Proxy.Forwarder.{forward, Forwarded, closes, setup_forwarder}
use dbgp_tools.Proxy.Forwarder.Transparency.{
  frames, Continues, Closes, Passes, setup_forwarder-Passes,
}
use dbgp_tools.Proxy.ServerHandler.Session.{turn-forwards}
use dbgp_tools.Proxy.SampleSession.{
  first, step_packet, stop_packet, reply, decoder, session, world, from_xdebug,
}

pub going : All (Continues decoder) (step_packet ∷ [])
unfolding closes format_xml parse_response_xml should_close_connection ◌==◌
going = ((refl, (omega arith, (omega arith, (omega arith, (omega arith, tt))))), tt)

pub closing : Closes decoder stop_packet
unfolding closes format_xml parse_response_xml should_close_connection ◌==◌
closing = (refl, (omega arith, (omega arith, (omega arith, (omega arith, tt)))))

setup_forwarder-Passes_example :
    (out : Forwarded) × (setup_forwarder decoder 2 []
        (some (arriving []))
        (first ++ 0 ∷ [])
        (arriving session)
      ≡ some out)
    × Passes out ([] ++ frame first ++ frames (step_packet ∷ [])) (frame reply)
    × (out.ide.closed ≡ true)
setup_forwarder-Passes_example =
    setup_forwarder-Passes decoder 2 [] (arriving session) (arriving []) first (step_packet ∷ [])
      stop_packet (frame reply) (omega arith) (tt, tt) going closing refl (append-nil _)

run_command-frame_example :
    let c = new_dbgp_client in
    let out = run_command decoder (codes "run") c (arriving (chunk (frame reply) ∷ [])) in
    (out.result ≡ expected decoder out.client (reply ++ 0 ∷ []))
    × (out.conn.sent ≡ [] ++ ((process_line (codes "run") c).content ++ 0 ∷ []))
    × (to_read out.client out.conn ≡ [])
run_command-frame_example =
    run_command-frame decoder (codes "run") new_dbgp_client (arriving (chunk (frame reply) ∷ []))
      reply [] refl (tt, tt)
      (omega arith, (omega arith, (omega arith, (omega arith, (omega arith, tt))))) refl

pub first_read : (read_response new_dbgp_client from_xdebug).response ≡ packet (first ++ 0 ∷ [])
unfolding read_response read_from read_bytes frame
first_read = refl

pub first_left :
    bytes_of (read_response new_dbgp_client from_xdebug).conn.events
    ≡ frames (step_packet ∷ []) ++ (frame stop_packet ++ frame reply)
unfolding read_response read_from read_bytes
first_left = append-nil _

pub first_calm : OnlyChunks (read_response new_dbgp_client from_xdebug).conn.events
unfolding read_response read_from read_bytes
first_calm = (tt, tt)

pub named : key_of (decoder.init (first ++ 0 ∷ [])).value ≡ some key
unfolding key_of ◌==◌
named = refl

present : find_by_key key (one_client false) ≡ some 0
unfolding find_by_key step register_new new_connection add new_connection_list update lookup insert
    delete ◌==◌
present = refl

turn-forwards_example :
    let t =
      turn (world (some (arriving []))) false new_dbgp_client from_xdebug (one_client false) in
    (t.next ≡ again)
    × (t.registry ≡ one_client false)
    × (t.sends ≡ [])
    × ((i : Conn) × (t.ide ≡ some i)
        × (i.sent ≡ [] ++ frame first ++ frames (step_packet ∷ []))
        × (i.closed ≡ true))
unfolding connect_to_ide step lookup new_connection_list
turn-forwards_example =
    turn-forwards (world (some (arriving []))) new_dbgp_client from_xdebug (arriving [])
      (one_client false) 0 key first (step_packet ∷ []) stop_packet (frame reply) first_read named
      present refl (omega arith) first_calm going closing refl first_left

forward-Stops_example :
    Stops
      (forward decoder 3
        (false ∷ true ∷ [])
        new_dbgp_client
        (arriving (deadline ∷ deadline ∷ session))
        (arriving []))
      (arriving [])
      session
forward-Stops_example =
    forward-Stops 1 decoder 3 new_dbgp_client (arriving []) (arriving []) session [] (omega arith)
      tt
