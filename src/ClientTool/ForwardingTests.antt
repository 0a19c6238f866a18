-- ===== src/ClientTool/ForwardingTests.antt =====
-- A registration, an IDE with another key that comes and goes, and the session of a script.
use dbgp_tools.Base.{
  codes, Bytes, ◌≡◌, ◌≢◌, refl, false, none, some, [], ◌∷◌, ◌++◌, List, append-nil, arith,
}
use dbgp_tools.Go.Net.{Conn, arriving}
use dbgp_tools.Connections.Calls.{Call, register, remove}
use dbgp_tools.Connections.Tests.{key, host, empty_list, empty_list-IsWellFormed, view-empty_list}
use dbgp_tools.Protocol.Client.{new_dbgp_client}
use dbgp_tools.Protocol.Server.{frame}
use dbgp_tools.Proxy.Forwarder.Transparency.{frames}
use dbgp_tools.Proxy.ServerHandler.{turn, again}
use dbgp_tools.Proxy.SampleSession.{first, step_packet, stop_packet, reply, world, from_xdebug}
use dbgp_tools.Proxy.SessionTests.{going, closing, first_read, first_left, first_calm, named}
use dbgp_tools.ClientTool.Registration.Forwarding.{by_then, registered_forwards}
use dbgp_tools.ClientTool.Tests.{key-IsRegistrable, there}
use dbgp_tools.Base.{true}

abbrev sid : Bytes
sid = codes "sid-1"

abbrev other : Bytes
other = codes "other"

other-ne-key : other ≢ key
other-ne-key e = cc

abbrev calls : List Call
calls = register other host (codes "9004") false none sid ∷ remove other ∷ []

registered_forwards_example :
    let list =
      by_then new_dbgp_client key host sid 9003 false
        (empty_list false)
        there
        key-IsRegistrable
        (empty_list-IsWellFormed false)
        (view-empty_list false key)
        (tt, tt)
        (append-nil _)
        calls
        (other-ne-key, (other-ne-key, tt)) in
    let t = turn (world (some (arriving []))) false new_dbgp_client from_xdebug list in
    (t.next ≡ again)
    × (t.registry ≡ list)
    × ((i : Conn) × (t.ide ≡ some i)
        × (i.sent ≡ [] ++ frame first ++ frames (step_packet ∷ []))
        × (i.closed ≡ true))
registered_forwards_example =
    registered_forwards new_dbgp_client key host sid 9003 false (empty_list false) there
      key-IsRegistrable (empty_list-IsWellFormed false) (view-empty_list false key) (tt, tt)
      (append-nil _) calls (other-ne-key, (other-ne-key, tt)) (world (some (arriving [])))
      new_dbgp_client from_xdebug (arriving []) first stop_packet (frame reply) (step_packet ∷ [])
      refl refl refl first_read named (omega arith) first_calm going closing first_left
