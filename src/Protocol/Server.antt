-- ===== src/Protocol/Server.antt =====
-- lib/protocol/dbgp-server.go: the proxy's end of a connection from an IDE.
pub mod Laws
use dbgp_tools.Base.{Bytes, codes, ◌==◌, length, if◌then◌else◌, ℕ, List, [], ◌∷◌, ◌++◌}
use dbgp_tools.Base.Int.{pos}
use dbgp_tools.Go.Decimal.{itoa}
use dbgp_tools.Go.Text.{split, trim_right}
use dbgp_tools.Go.Stream.{ReadError, Read}
use dbgp_tools.Go.Net.{Conn, write, Written, read_from}
use dbgp_tools.Connections.{Registry}
use dbgp_tools.Command.{Error, not_understood, Result, ok, err, ◌>>=◌, Handled}
use dbgp_tools.Command.ProxyInit.{ProxyInitCommand, create_proxy_init}
use dbgp_tools.Command.ProxyInit
use dbgp_tools.Command.ProxyStop
use dbgp_tools.Command.CloudInit
use dbgp_tools.Command.CloudStop
use dbgp_tools.Command.ProxyStop.{ProxyStopCommand, create_proxy_stop}
use dbgp_tools.Command.CloudInit.{CloudInitCommand, create_cloud_init}
use dbgp_tools.Command.CloudStop.{CloudStopCommand, create_cloud_stop}

-- command.DbgpCommand
pub data DbgpCommand : Type 0 where
  proxy_init : ProxyInitCommand → DbgpCommand
  proxy_stop : ProxyStopCommand → DbgpCommand

-- command.DbgpCloudCommand
pub data DbgpCloudCommand : Type 0 where
  cloud_init : CloudInitCommand → DbgpCloudCommand
  cloud_stop : CloudStopCommand → DbgpCloudCommand

-- cmd.Handle(), by the type of the command
unfoldable pub handle : Bytes → DbgpCommand → Registry → Handled
unfolding ProxyInit.handle ProxyStop.handle
handle sid (proxy_init c) r = ProxyInit.handle sid c r
handle sid (proxy_stop c) r = ProxyStop.handle c r

-- The switch on parts[0]; `host` is the host part of the address of the other end.
parse_parts : Bytes → List Bytes → Result DbgpCommand
parse_parts host [] = err (not_understood [])
parse_parts host (name ∷ args) =
    if name == codes "proxyinit"
    then (do c ← create_proxy_init host args; ok (proxy_init c))
    else if name == codes "proxystop"
    then (do c ← create_proxy_stop args; ok (proxy_stop c))
    else err (not_understood (name ∷ args))

-- dbgp.parseLine(data)
unfoldable pub parse_line : Bytes → Bytes → Result DbgpCommand
unfolding parse_parts
parse_line host line = parse_parts host (split b' ' line)

parse_cloud_parts : ℕ → List Bytes → Result DbgpCloudCommand
parse_cloud_parts conn [] = err (not_understood [])
parse_cloud_parts conn (name ∷ args) =
    if name == codes "cloudinit"
    then (do c ← create_cloud_init conn args; ok (cloud_init c))
    else if name == codes "cloudstop"
    then (do c ← create_cloud_stop conn args; ok (cloud_stop c))
    else err (not_understood (name ∷ args))

-- dbgp.parseCloudLine(data); `conn` names the network connection
unfoldable pub parse_cloud_line : ℕ → Bytes → Result DbgpCloudCommand
unfolding parse_cloud_parts
parse_cloud_line conn line = parse_cloud_parts conn (split b' ' line)

-- Why there is no command.
pub data Failure : Type 0 where
  unread : ReadError → Failure
  refused : Error → Failure

pub data Received (C : Type 0) : Type 0 where
  command : C → Received C
  failure : Failure → Received C

pub record Reading (C : Type 0) : Type 0 where
  pub received : Received C
  pub buffer : Bytes
  pub conn : Conn

module _ {C : Type 0} where
  abbrev parsed : Result C → Received C
  parsed (ok c) = command c
  parsed (err e) = failure (refused e)

  -- The line without the byte 0 behind it.
  abbrev understood : (Bytes → Result C) → Read Bytes → Received C
  understood parse (Read.ok line) = parsed (parse (trim_right 0 line))
  understood parse (Read.err e) = failure (unread e)

  -- Reading a command up to a byte 0, with the parser of lines that is meant.
  read_with : (Bytes → Result C) → Bytes → Conn → Reading C
  read_with parse buffer conn =
      let out = read_from 0 buffer conn in
      record { received = understood parse out.result; buffer = out.buffer; conn = out.conn }

-- dbgp.ReadCommand(); the buffer is that of dbgp.reader
unfoldable pub read_command : Bytes → Bytes → Conn → Reading DbgpCommand
unfolding read_with
read_command host buffer conn = read_with (parse_line host) buffer conn

-- dbgp.ReadCloudCommand()
unfoldable pub read_cloud_command : ℕ → Bytes → Conn → Reading DbgpCloudCommand
unfolding read_with
read_cloud_command id buffer conn = read_with (parse_cloud_line id) buffer conn

-- The length, a byte 0, the text, a byte 0.
unfoldable pub frame : Bytes → Bytes
frame xml = itoa (pos (length xml)) ++ (0 ∷ (xml ++ 0 ∷ []))

-- dbgp.SendResponse(xml)
unfoldable pub send_response : Bytes → Conn → Written
unfolding write frame
send_response xml conn = write (frame xml) conn
