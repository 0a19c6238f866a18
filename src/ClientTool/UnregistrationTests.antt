-- ===== src/ClientTool/UnregistrationTests.antt =====
-- Unregistrations at concrete values.
use dbgp_tools.Base.{
  codes, Bytes, ◌==◌, ◌≡◌, refl, true, false, none, some, [], ◌∷◌, ◌++◌, List, append-nil,
  if◌then◌else◌, arith,
}
use dbgp_tools.Go.Net.{Conn, arriving}
use dbgp_tools.Go.Stream.{Event, chunk}
use dbgp_tools.Go.Stream.Laws.{bytes_of}
use dbgp_tools.Connections.Calls.{targets}
use dbgp_tools.Connections.Refinement.{view, fresh}
use dbgp_tools.Connections.Tests.{
  key, host, port, empty_list, empty_list-IsWellFormed, view-empty_list, one_client,
  one_client-IsWellFormed, view-one_client,
}
use dbgp_tools.Dbgpxml.ProxyStop.{ProxyStop, new_proxy_stop}
use dbgp_tools.Protocol.Client.{new_dbgp_client}
use dbgp_tools.Protocol.Formatting.{Decoder, format_xml, parse_response_xml}
use dbgp_tools.Proxy.ClientHandler.{serve, done}
use dbgp_tools.ClientTool.CommandTests.{proxy_decoder, env, flags}
use dbgp_tools.ClientTool.Proxy.{Env, finished, unregister_with_proxy}
use dbgp_tools.ClientTool.Tests.{key-IsRegistrable, there}
use dbgp_tools.ClientTool.Unregistration.{IsStoppable, line}
use dbgp_tools.ClientTool.Unregistration.Command.{success, unregister_with_proxy_unregisters}
use dbgp_tools.ClientTool.Unregistration.RoundTrip.{register_unregister}

key-IsStoppable : IsStoppable new_dbgp_client key
key-IsStoppable = record {
  front = codes "phpstor";
  back = b'm';
  ends_in = refl;
  graphic = (omega arith, omega arith);
  not_flag = key-IsRegistrable.not_flag;
  no_space = key-IsRegistrable.no_space;
  no_zero = key-IsRegistrable.no_zero;
}

abbrev sid : Bytes
sid = codes "sid-2"

-- The line that unregisters, as it arrives at the proxy.
abbrev stopping : List Event
stopping = chunk (line new_dbgp_client key ++ 0 ∷ []) ∷ []

abbrev to_proxy : Conn
to_proxy = arriving (chunk ((serve host sid (one_client false) (arriving stopping)).conn.sent) ∷ [])

-- The answer as encoding/xml reads it, which puts nothing into a field tagged `xmlns:xdebug,attr`.
abbrev read_answer : ProxyStop
read_answer = record (success key) { xml_ns_xdebug = [] }

-- A decoder that reads the answer of success, and nothing else.
abbrev stop_decoder : Decoder
stop_decoder = record proxy_decoder {
  proxy_init = λ text. record { value = (proxy_decoder.proxy_init text).value; failed = true };
  proxy_stop = λ text. record { value = read_answer; failed = false };
}

abbrev stop_env : Env
stop_env = record env { dial = λ ssl address. some to_proxy; decoder = stop_decoder }

unregister_with_proxy_unregisters_example :
    let ran = unregister_with_proxy stop_env flags (codes "localhost:9001") key in
    let out = serve host sid (one_client false) (arriving stopping) in
    (ran.result ≡ finished)
    × ((last : Conn) × (ran.conns ≡ last ∷ [])
        × (last.closed ≡ true)
        × (last.sent ≡ bytes_of stopping))
    × (out.outcome ≡ done)
    × ((j : Bytes) → view out.registry j ≡ (if key == j then none else view (one_client false) j))
    × (out.sends ≡ [])
unfolding format_xml parse_response_xml new_proxy_stop
unregister_with_proxy_unregisters_example =
    unregister_with_proxy_unregisters stop_env flags (codes "localhost:9001") key host sid
      (one_client false) (fresh key host port false none (codes "sid-1")) stopping to_proxy
      key-IsStoppable (one_client-IsWellFormed false) (view-one_client false) refl refl refl
      (tt, tt) (tt, tt) refl read_answer refl (λ c. refl) (append-nil _) (append-nil _)

register_unregister_example :
    let first = serve host (codes "sid-1") (empty_list false) (arriving there) in
    let second = serve host sid first.registry (arriving stopping) in
    (first.outcome ≡ done)
    × (second.outcome ≡ done)
    × ((j : Bytes) → view second.registry j ≡ view (empty_list false) j)
    × (targets first.registry.heap second.sends ≡ [])
register_unregister_example =
    register_unregister new_dbgp_client new_dbgp_client key host host (codes "sid-1") sid 9003 false
      (empty_list false) there stopping key-IsRegistrable key-IsStoppable
      (empty_list-IsWellFormed false) (view-empty_list false key) (tt, tt) (tt, tt) (append-nil _)
      (append-nil _)
