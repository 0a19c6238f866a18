-- ===== src/ClientTool/Registration/Forwarding.antt =====
-- From a registration to a debugging session: the proxy forwards a script to the IDE that has registered.
use dbgp_tools.Base.{
  Bytes, ◌≡◌, refl, ap, ◌∙◌, ℕ, ◌<◌, Bool, true, false, Option, none, some, Option-cases, inl, inr,
  List, [], ◌∷◌, ◌++◌, All, length, if◌then◌else◌, arith, ◌≢◌, eq_iff, eq_refl,
}
use dbgp_tools.Base.Int.{pos}
use dbgp_tools.Base.Dict.{lookup}
use dbgp_tools.Go.Decimal.{itoa}
use dbgp_tools.Go.HostPort.{join_host_port}
use dbgp_tools.Go.Net.{Conn, arriving}
use dbgp_tools.Go.Stream.{Event}
use dbgp_tools.Go.Stream.Laws.{OnlyChunks, bytes_of}
use dbgp_tools.Connections.{Registry, Connection, Pointer, find_by_key}
use dbgp_tools.Connections.Calls.{Call, register, remove, find, claim, unclaim, step, run}
use dbgp_tools.Connections.Refinement.{View, view, fresh, spec_step, step-Refines}
use dbgp_tools.Connections.WellFormed.{IsWellFormed, step-IsWellFormed}
use dbgp_tools.Protocol.Client.{DbgpClient, read_response, packet}
use dbgp_tools.Protocol.Server.{frame}
use dbgp_tools.Proxy.ClientHandler.{serve}
use dbgp_tools.Proxy.ClientHandler.Called.{serve-Called, Called-IsWellFormed}
use dbgp_tools.Proxy.ConnectToIde.{IdeNetwork, connect_to_ide, full_address}
use dbgp_tools.Proxy.Forwarder.Transparency.{frames, Continues, Closes}
use dbgp_tools.Proxy.ServerHandler.{World, turn, key_of, again}
use dbgp_tools.Proxy.ServerHandler.Session.{turn-forwards}
use dbgp_tools.ClientTool.Registration.{IsRegistrable, line, serve_registers}

-- The key that a call is about.
abbrev pub subject : Call → Bytes
subject (register key ip port ssl conn sid) = key
subject (remove key) = key
subject (find key) = key
subject (claim key) = key
subject (unclaim key) = key

spec_step-other :
    (force : Bool) (v : View) (key : Bytes) (c : Call)
    → subject c ≢ key
    → (spec_step force v c).0 key ≡ v key
spec_step-other force v key (register k ip port ssl conn sid) other = ground (arith, eq_iff k key)
spec_step-other force v key (remove k) other = ground (arith, eq_iff k key)
spec_step-other force v key (find k) other = refl
spec_step-other force v key (claim k) other = ground (arith, eq_iff k key)
spec_step-other force v key (unclaim k) other = ground (arith, eq_iff k key)

-- Calls about other keys leave a key as it is.
run-other :
    (key : Bytes) (r : Registry) (cs : List Call)
    → IsWellFormed r
    → All (λ c. subject c ≢ key) cs
    → view (run r cs).0 key ≡ view r key
unfolding run
run-other key r [] w h = refl
run-other key r (c ∷ cs) w (other, h) =
    run-other key (step r c).0 cs (step-IsWellFormed r w c) h
    ∙ (step-Refines r w c).same_view key
    ∙ spec_step-other r.force_add (view r) key c other

none-ne-some : (c : Connection) → none ≢ some c
none-ne-some c e = cc

some-injective : (a c : Connection) → some a ≡ some c → a ≡ c
some-injective a c e = cc

view-find_by_key :
    (key : Bytes) (r : Registry) (c : Connection)
    → view r key ≡ some c
    → (p : Pointer) × (find_by_key key r ≡ some p) × (r.heap p ≡ c)
unfolding find_by_key
view-find_by_key key r c e = elim (Option-cases (lookup key r.connections)) [
  | inl missing ↦ absurd (none-ne-some c (rw missing at e))
  | inr (p, here) ↦ (p, here, some-injective (r.heap p) c (rw here at e))
]

-- How the proxy reaches an IDE that has registered with an SSL flag.
abbrev pub dial_for : IdeNetwork → Bool → Bytes → Option Conn
dial_for net ssl address = if ssl then net.tls_dial address else net.net_dial address

connect_to_ide-fresh :
    (net : IdeNetwork) (key ip port sid : Bytes) (ssl : Bool)
    → net.keys_missing ≡ false
    → connect_to_ide net (fresh key ip port ssl none sid)
      ≡ dial_for net ssl (join_host_port ip port)
unfolding connect_to_ide full_address
connect_to_ide-fresh net key ip port sid true loaded = rw loaded refl
connect_to_ide-fresh net key ip port sid false loaded = refl

module _ (c : DbgpClient) (key host sid : Bytes) (n : ℕ) (ssl : Bool) (r : Registry)
    (there : List Event) (ok_input : IsRegistrable c key n ssl) (valid : IsWellFormed r)
    (absent : view r key ≡ none) (calm : OnlyChunks there)
    (written : bytes_of there ≡ line c key n ssl ++ 0 ∷ []) (calls : List Call)
    (others : All (λ x. subject x ≢ key) calls) where
  -- The list when the script comes.
  abbrev pub by_then : Registry
  by_then = (run (serve host sid r (arriving there)).registry calls).0

  -- An IDE that has registered gets the sessions of the scripts that name its key. Let the client write
  -- the line of registerWithProxy for a key that is not empty, is not "-i" and has no space and no byte
  -- 0, with a port in the range of `int`; let the proxy's list be well-formed and not know the key; let
  -- the line arrive, however the network cut it; and let the list's methods be called after that in any
  -- order for other keys. Then a connection from Xdebug whose first packet names the key leads the proxy
  -- to dial the host that the IDE registered from and the port that it asked for, with TLS if it asked
  -- for it, where the proxy's certificate can be loaded. Let that connection be made and no write to it
  -- fail, and let the packets behind the first, up to the first one that closes the session, be framed,
  -- with no byte 0, not interrupted, and all of them still unread on the connection when the proxy has
  -- read the first (what is read together with the first packet is not forwarded). With fuel for each of
  -- them, the IDE gets the first packet and all before the closing one, framed and in order, and nothing
  -- else, and the proxy goes on with the list as it then stands.
  pub registered_forwards :
      (w : World) (xdebug : DbgpClient) (conn ide : Conn) (first last rest : Bytes)
      (ms : List Bytes)
      → w.network.keys_missing ≡ false
      → dial_for w.network ssl (join_host_port host (itoa (pos n))) ≡ some ide
      → ide.faults ≡ []
      → (read_response xdebug conn).response ≡ packet (first ++ 0 ∷ [])
      → key_of (w.decoder.init (first ++ 0 ∷ [])).value ≡ some key
      → length ms < w.fuel
      → OnlyChunks (read_response xdebug conn).conn.events
      → All (Continues w.decoder) ms
      → Closes w.decoder last
      → bytes_of (read_response xdebug conn).conn.events ≡ frames ms ++ (frame last ++ rest)
      → let t = turn w false xdebug conn by_then in
        (t.next ≡ again)
        × (t.registry ≡ w.meanwhile by_then)
        × ((i : Conn) × (t.ide ≡ some i)
            × (i.sent ≡ ide.sent ++ frame first ++ frames ms)
            × (i.closed ≡ true))
  registered_forwards w xdebug conn ide first last rest ms loaded reached quiet read named enough
        calm' going closing e =
      let out = serve host sid r (arriving there) in
      let (_, views, _) =
        serve_registers c key n ssl ok_input host sid r there valid absent calm written in
      let held = Called-IsWellFormed (serve-Called host sid r (arriving there)) valid in
      let here : view by_then key ≡ some (fresh key host (itoa (pos n)) ssl none sid) =
        run-other key out.registry calls held others ∙ views key ∙ rw (eq_refl key) refl in
      let (p, found, is) = view-find_by_key key by_then _ here in
      let dialled =
        ap (connect_to_ide w.network) is
        ∙ connect_to_ide-fresh w.network key host (itoa (pos n)) sid ssl loaded
        ∙ reached in
      let (goes, kept, _, got) =
        turn-forwards w xdebug conn ide by_then p key first ms last rest read named found dialled
          enough calm' going closing quiet e in
      (goes, kept, got)
