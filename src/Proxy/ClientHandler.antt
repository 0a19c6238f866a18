-- ===== src/Proxy/ClientHandler.antt =====
-- lib/proxy/server.go: a connection from an IDE carries one command.
pub mod Laws
pub mod Called
pub mod Delivery
use dbgp_tools.Base.{Bytes, if◌then◌else◌, List, []}
use dbgp_tools.Go.Net.{Conn, Written}
use dbgp_tools.Connections.{Registry, Pointer, ConnectionControl}
use dbgp_tools.Command.{Handled}
use dbgp_tools.Protocol.Server.{
  DbgpCommand, handle, Failure, Received, command, failure, read_command, send_response,
}

-- What Handle returns: nil, an error of reading the command, or an error of writing the answer.
pub data Outcome : Type 0 where
  done : Outcome
  no_command : Failure → Outcome
  not_answered : Outcome

pub record Served : Type 0 where
  pub outcome : Outcome
  pub registry : Registry
  pub sends : List (Pointer × ConnectionControl)
  pub conn : Conn

answered : Handled → Written → Served
answered h w = record {
  outcome = if w.failed then not_answered else done;
  registry = h.registry;
  sends = h.sends;
  conn = w.conn;
}

serve_received : Bytes → Registry → Received DbgpCommand → Conn → Served
unfolding answered
serve_received sid r (command cmd) conn =
    let h = handle sid cmd r in answered h (send_response h.answer conn)
serve_received sid r (failure f) conn = record {
  outcome = no_command f;
  registry = r;
  sends = [];
  conn = conn;
}

-- handler.Handle(conn); `host` is the host of the other end, `sid` the random UUID
unfoldable pub serve : Bytes → Bytes → Registry → Conn → Served
unfolding serve_received
serve host sid r conn =
    let reading = read_command host [] conn in serve_received sid r reading.received reading.conn
