-- ===== src/Proxy/ServerHandler/Session.antt =====
-- A connection from Xdebug for which there is an IDE.
use dbgp_tools.Proxy.ConnectToIde.{connect_to_ide}
use dbgp_tools.Proxy.ServerHandler.{
  after_detach, after_removal, send_detach, World, key_of, turn, with_response, with_key,
  after_session, session_over, again, released,
}
use dbgp_tools.Base.{Bytes, ◌<◌, false, some, List, [], ◌∷◌, ◌++◌, length, All, ◌≡◌, true, Option}
use dbgp_tools.Go.Net.{Conn}
use dbgp_tools.Go.Stream.Laws.{OnlyChunks, bytes_of}
use dbgp_tools.Connections.{Registry, Pointer, find_by_key, remove_by_key}
use dbgp_tools.Protocol.Server.{frame}
use dbgp_tools.Protocol.Client.{DbgpClient, read_response, packet}
use dbgp_tools.Proxy.Forwarder.Transparency.{frames, Continues, Closes, setup_forwarder-Passes}
use dbgp_tools.Connections.Unclaimed.{Unclaimed, remove_by_key-sends}

-- A connection from Xdebug whose first packet names a user or key that is on the list, and whose IDE
-- can be reached and takes what is written to it. Let the packets behind the first, up to the first one
-- that closes the session, be framed, with no byte 0, not interrupted, and all of them still unread on
-- the connection when Handle has read the first: bytes that it has read together with the first packet
-- stay in its own reader and are not forwarded. If there is fuel for each packet, the IDE gets the first
-- packet and all before the closing one, in order and framed as they were, and nothing else; the handler
-- does not touch the list, tells no connection to close, and goes on.
pub turn-forwards :
    (w : World) (c : DbgpClient) (conn ide : Conn) (r : Registry) (p : Pointer) (key first : Bytes)
    (ms : List Bytes) (last rest : Bytes)
    → (read_response c conn).response ≡ packet (first ++ 0 ∷ [])
    → key_of (w.decoder.init (first ++ 0 ∷ [])).value ≡ some key
    → find_by_key key r ≡ some p
    → connect_to_ide w.network (r.heap p) ≡ some ide
    → length ms < w.fuel
    → OnlyChunks (read_response c conn).conn.events
    → All (Continues w.decoder) ms
    → Closes w.decoder last
    → ide.faults ≡ []
    → bytes_of (read_response c conn).conn.events ≡ frames ms ++ (frame last ++ rest)
    → let t = turn w false c conn r in
      (t.next ≡ again)
      × (t.registry ≡ w.meanwhile r)
      × (t.sends ≡ [])
      × ((i : Conn) × (t.ide ≡ some i)
          × (i.sent ≡ ide.sent ++ frame first ++ frames ms)
          × (i.closed ≡ true))
unfolding turn
turn-forwards w c conn ide r p key first ms last rest read named here dialled enough calm going
      closing quiet e =
    let read_out = read_response c conn in
    let (out, made, passes, closed) =
      setup_forwarder-Passes w.decoder w.fuel w.ended read_out.conn ide first ms last rest enough
        calm going closing quiet e in
    let same : turn w false c conn r
        ≡ session_over again read_out.client out.conn out.ide (w.meanwhile r) =
      rw (read, with_response, named, with_key, here, dialled, made, after_session, passes.ended) in
    unfold session_over in (rw same, rw same, rw same, (out.ide, rw same, passes.passed, closed))

module _ (w : World) (key : Bytes) (c : DbgpClient) (conn : Conn) (ide : Option Conn) (r : Registry)
    (free : Unclaimed r) where
  pub released-unclaimed : released w key c conn ide r ≡ record {
    next = after_detach (send_detach w.decoder conn).result;
    registry = (remove_by_key key r).registry;
    sends = [];
    reader = c;
    conn = (send_detach w.decoder conn).conn;
    ide = ide;
    detach = some (send_detach w.decoder conn).result;
  }
  unfolding released
  released-unclaimed = rw (remove_by_key-sends key r free, after_removal)
