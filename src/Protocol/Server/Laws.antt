-- ===== src/Protocol/Server/Laws.antt =====
-- What the proxy's end reads and writes.
use dbgp_tools.Base.{Bytes, codes, ◌==◌, Lacks, ◌≡◌, refl, List, [], ◌∷◌, ◌++◌, false}
use dbgp_tools.Go.Text.{split}
use dbgp_tools.Go.Text.Laws.{trim_right-append}
use dbgp_tools.Go.Stream.Laws.{bytes_of, OnlyChunks}
use dbgp_tools.Go.Net.{Conn, read_from}
use dbgp_tools.Go.Net.Laws.{read_from-pending, write_unfailing}
use dbgp_tools.Command.{ok}
use dbgp_tools.Command.ProxyInit.{ProxyInitCommand, create_proxy_init}
use dbgp_tools.Command.ProxyStop.{ProxyStopCommand, create_proxy_stop}
use dbgp_tools.Connections.{Registry}
use dbgp_tools.Command.ProxyInit
use dbgp_tools.Command.ProxyStop
use dbgp_tools.Protocol.Server.{
  handle, DbgpCommand, proxy_init, proxy_stop, parse_parts, parse_line, command, read_command,
  send_response, frame,
}

pub parse_line-proxy_init :
    (host line : Bytes) (args : List Bytes) (c : ProxyInitCommand)
    → split b' ' line ≡ codes "proxyinit" ∷ args
    → create_proxy_init host args ≡ ok c
    → parse_line host line ≡ ok (proxy_init c)
unfolding parse_line ◌==◌
parse_line-proxy_init host line args c parts created = rw (parts, parse_parts, created)

pub parse_line-proxy_stop :
    (host line : Bytes) (args : List Bytes) (c : ProxyStopCommand)
    → split b' ' line ≡ codes "proxystop" ∷ args
    → create_proxy_stop args ≡ ok c
    → parse_line host line ≡ ok (proxy_stop c)
unfolding parse_line ◌==◌
parse_line-proxy_stop host line args c parts created = rw (parts, parse_parts, created)

-- A line with a byte 0 behind it, however the network cut it, is read as the command that it means.
pub read_command-line :
    (host line : Bytes) (cmd : DbgpCommand) (conn : Conn)
    → OnlyChunks conn.events
    → Lacks 0 line
    → bytes_of conn.events ≡ line ++ 0 ∷ []
    → parse_line host line ≡ ok cmd
    → (read_command host [] conn).received ≡ command cmd
unfolding read_command
read_command-line host line cmd conn calm h e meant =
    let r = read_from-pending 0 [] conn line [] calm h e in
    rw (r.line_read, trim_right-append 0 line h, meant)

-- Reading writes nothing.
pub sent-read_command :
    (host buffer : Bytes) (conn : Conn)
    → ((read_command host buffer conn).conn.sent ≡ conn.sent)
      × ((read_command host buffer conn).conn.faults ≡ conn.faults)
unfolding read_command read_from
sent-read_command host buffer conn = (refl, refl)

pub send_response_unfailing :
    (xml : Bytes) (conn : Conn)
    → conn.faults ≡ []
    → send_response xml conn
      ≡ record { conn = record conn { sent = conn.sent ++ frame xml }; failed = false }
unfolding send_response
send_response_unfailing xml conn e = write_unfailing (frame xml) conn e

pub handle-proxy_init :
    (sid : Bytes) (c : ProxyInitCommand) (r : Registry)
    → handle sid (proxy_init c) r ≡ ProxyInit.handle sid c r
unfolding handle
handle-proxy_init sid c r = refl

pub handle-proxy_stop :
    (sid : Bytes) (c : ProxyStopCommand) (r : Registry)
    → handle sid (proxy_stop c) r ≡ ProxyStop.handle c r
unfolding handle
handle-proxy_stop sid c r = refl
