-- ===== src/Proxy/Tests.antt =====
-- The theorems of the proxy's end at concrete lines.
use dbgp_tools.Base.{codes, Bytes, ◌==◌, ◌≡◌, refl, true, false, [], ◌∷◌, ◌++◌, List, append-nil}
use dbgp_tools.Go.Text.{split, trim_right}
use dbgp_tools.Go.Net.{Conn, arriving, read_from}
use dbgp_tools.Go.Stream.{Event, chunk, read_bytes}
use dbgp_tools.Go.Stream.Laws.{bytes_of}
use dbgp_tools.Connections.Tests.{key, host, one_client, one_client-Unclaimed}
use dbgp_tools.Dbgpxml.Common.{is_valid_xml}
use dbgp_tools.Protocol.Server.{DbgpCommand, proxy_stop, handle, command, read_command, parse_line}
use dbgp_tools.Protocol.Client.{new_dbgp_client, read_response}
use dbgp_tools.Protocol.Client.Packets.{Gets}
use dbgp_tools.Proxy.ClientHandler.{serve}
use dbgp_tools.Proxy.ClientHandler.Delivery.{serve-read_response}
use dbgp_tools.Command.Arguments.{parse_arguments, walk}
use dbgp_tools.Command.ProxyStop.{create_proxy_stop, new_proxy_stop_command}

abbrev line : Bytes
line = codes "proxystop -k phpstorm"

abbrev stopping : DbgpCommand
stopping = proxy_stop (record { ide_key = key })

abbrev conn : Conn
conn = arriving (chunk (line ++ 0 ∷ []) ∷ [])

conn-read : (read_command host [] conn).received ≡ command stopping
unfolding read_command read_from read_bytes parse_line split trim_right create_proxy_stop
    new_proxy_stop_command parse_arguments walk ◌==◌
conn-read = refl

abbrev answered : List Event
answered = chunk ((serve host [] (one_client false) conn).conn.sent) ∷ []

answered_bytes : bytes_of answered ≡ (serve host [] (one_client false) conn).conn.sent
answered_bytes = append-nil _

serve-read_response_example :
    Gets
      (read_response new_dbgp_client (arriving answered))
      ((handle [] stopping (one_client false)).answer ++ 0 ∷ [])
      []
    × (is_valid_xml ((handle [] stopping (one_client false)).answer ++ 0 ∷ []) ≡ true)
    × ((serve host [] (one_client false) conn).sends ≡ [])
serve-read_response_example =
    serve-read_response host [] (one_client false) conn stopping new_dbgp_client answered
      (one_client-Unclaimed false) conn-read refl refl refl (tt, tt) answered_bytes
