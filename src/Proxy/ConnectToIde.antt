-- ===== src/Proxy/ConnectToIde.antt =====
-- lib/proxy/client.go: connectToIDE, with the address of a connection.
use dbgp_tools.Base.{Bytes, Bool, if◌then◌else◌, Option, none}
use dbgp_tools.Go.HostPort.{join_host_port}
use dbgp_tools.Go.Net.{Conn}
use dbgp_tools.Connections.{Connection, is_ssl}

-- Whether the certificate's files cannot be loaded, and what tls.Dial with that certificate and
-- net.Dial return for an address, with `none` for an error.
pub record IdeNetwork : Type 0 where
  pub keys_missing : Bool
  pub tls_dial : Bytes → Option Conn
  pub net_dial : Bytes → Option Conn

-- connection.FullAddress()
unfoldable pub full_address : Connection → Bytes
unfolding join_host_port
full_address c = join_host_port c.ip_address c.port

-- connectToIDE(clientConnection)
unfoldable pub connect_to_ide : IdeNetwork → Connection → Option Conn
unfolding full_address
connect_to_ide n c =
    if is_ssl c
    then (if n.keys_missing then none else n.tls_dial (full_address c))
    else n.net_dial (full_address c)
