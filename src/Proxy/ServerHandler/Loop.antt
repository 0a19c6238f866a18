-- ===== src/Proxy/ServerHandler/Loop.antt =====
-- lib/proxy/client.go: the loop of ServerHandler.Handle.
pub mod Termination
use dbgp_tools.Base.{Bool, List, [], ◌∷◌, ◌++◌}
use dbgp_tools.Go.Net.{Conn}
use dbgp_tools.Connections.{Registry, Pointer, ConnectionControl}
use dbgp_tools.Protocol.Client.{DbgpClient, new_dbgp_client}
use dbgp_tools.Proxy.ServerHandler.{
  Turn, turn, World, Next, again, returned, no_key, crashed, blocked, out_of_fuel, unreadable,
}

-- What a round meets: its world, and whether a signal has come.
abbrev pub Round : Type 0
Round = World × Bool

-- `ended` is how the loop ended, or `again` if no rounds were left.
pub record Handled : Type 0 where
  pub ended : Next
  pub registry : Registry
  pub sends : List (Pointer × ConnectionControl)
  pub reader : DbgpClient
  pub conn : Conn

ends : Next → Turn → Handled
ends e t = record {
  ended = e;
  registry = t.registry;
  sends = t.sends;
  reader = t.reader;
  conn = t.conn;
}

-- The loop, over as many rounds as are given.
unfoldable pub rounds : List Round → DbgpClient → Conn → Registry → Handled
unfolding turn ends
rounds [] c conn r = record { ended = again; registry = r; sends = []; reader = c; conn = conn }
rounds ((w, interrupted) ∷ later) c conn r =
    let t = turn w interrupted c conn r in
    let rest = rounds later t.reader t.conn t.registry in
    elim t.next [
      | again ↦ record rest { sends = t.sends ++ rest.sends }
      | returned ↦ ends returned t
      | no_key ↦ ends no_key t
      | crashed ↦ ends crashed t
      | blocked ↦ ends blocked t
      | out_of_fuel ↦ ends out_of_fuel t
      | unreadable e ↦ ends (unreadable e) t
    ]

-- handler.Handle(conn)
unfoldable pub handle : List Round → Conn → Registry → Handled
unfolding rounds
handle rs conn r = rounds rs new_dbgp_client conn r
