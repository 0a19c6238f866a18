-- ===== src/Proxy/Forwarder.antt =====
-- lib/proxy/client.go: setupForwarder, from the connection to the IDE to the end of the session. The
-- goroutine that copies from the IDE to Xdebug is in Channel; what the loop sees of it is whether it
-- has ended, each time that a read times out.
pub mod Transparency
pub mod Absence
pub mod Termination
pub mod Channel
use dbgp_tools.Base.{
  Bytes, ℕ, zero, suc, Bool, true, false, if◌then◌else◌, Option, none, some, List, [], ◌∷◌, ◌++◌,
  length,
}
use dbgp_tools.Base.Int.{ℤ, pos, negsuc}
use dbgp_tools.Go.Decimal.{itoa}
use dbgp_tools.Go.Net.{Conn, write, Written, close}
use dbgp_tools.Dbgpxml.Message.{Message, should_close_connection}
use dbgp_tools.Protocol.Client.{
  DbgpClient, new_dbgp_client, read_response, packet, timed_out, length_failed, data_failed,
}
use dbgp_tools.Protocol.Formatting.{Decoder, format_xml}

-- len(response)-1
abbrev minus_one : ℕ → ℤ
minus_one zero = negsuc 0
minus_one (suc n) = pos n

-- The packet with its length in front; a packet that was read ends in a byte 0.
unfoldable pub reassembled : Bytes → Bytes
reassembled response = itoa (minus_one (length response)) ++ 0 ∷ response

-- packet != nil && packet.ShouldCloseConnection()
unfoldable pub closes : Decoder → DbgpClient → Bytes → Bool
unfolding format_xml should_close_connection
closes d c text = elim (format_xml d c text) [ none ↦ false | some m ↦ should_close_connection m ]

-- How the session ends: after a packet that closes it, with an error of reading from Xdebug, or with
-- an error that is returned: the IDE has closed, or the first packet could not be sent. `unfinished` is the end of the fuel.
pub data Outcome : Type 0 where
  finished lost ide_closed init_not_sent unfinished : Outcome

pub record Forwarded : Type 0 where
  pub outcome : Outcome
  pub reader : DbgpClient
  pub conn : Conn
  pub ide : Conn

abbrev stop : Outcome → DbgpClient → Conn → Conn → Forwarded
stop o c conn ide = record { outcome = o; reader = c; conn = conn; ide = ide }

-- The server read loop; `ended` is what the channel of the other goroutine shows at each timeout.
unfoldable pub forward : Decoder → ℕ → List Bool → DbgpClient → Conn → Conn → Forwarded
unfolding read_response closes reassembled write close
forward d zero ended c conn ide = stop unfinished c conn ide
forward d (suc f) ended c conn ide =
    let out = read_response c conn in
    elim out.response [
      | timed_out ↦ elim ended [
        | [] ↦ forward d f [] out.client out.conn ide
        | true ∷ later ↦ stop ide_closed out.client out.conn ide
        | false ∷ later ↦ forward d f later out.client out.conn ide
      ]
      | length_failed e ↦ stop lost out.client (close out.conn) ide
      | data_failed e ↦ stop lost out.client (close out.conn) ide
      | packet text ↦ elim (closes d out.client text) [
        | true ↦ stop finished out.client out.conn ide
        | false ↦ forward d f ended out.client out.conn (write (reassembled text) ide).conn
      ]
    ]

-- The deferred Close.
hang_up : Forwarded → Forwarded
hang_up out = record out { ide = close out.ide }

-- handler.setupForwarder(conn, initialPacket, clientConnection); `dialled` is the connection that
-- connectToIDE returns, if it does
unfoldable pub setup_forwarder :
    Decoder → ℕ → List Bool → Option Conn → Bytes → Conn → Option Forwarded
unfolding forward hang_up
setup_forwarder d fuel ended none initial conn = none
setup_forwarder d fuel ended (some ide) initial conn =
    let w = write (reassembled initial) ide in
    if w.failed
    then some (stop init_not_sent new_dbgp_client conn (close w.conn))
    else some (hang_up (forward d fuel ended new_dbgp_client conn w.conn))
