-- ===== src/Xdebugctl/SendCmd.antt =====
-- xdebugctl/main.go: sendCmd. What package fmt makes of a coloured number is an argument.
use dbgp_tools.Base.{Bytes, codes, Bool, false, if◌then◌else◌, Option, none, some, List, [], ◌++◌}
use dbgp_tools.Base.Int.{ℤ}
use dbgp_tools.Go.Net.{Conn, close, write, read_from}
use dbgp_tools.Go.Stream.{Read, ok, err}
use dbgp_tools.Dbgpxml.Common.{is_valid_xml, bright_red, faint}
use dbgp_tools.Dbgpxml.Message.{Message, Printer, to_string}
use dbgp_tools.Protocol.Client.{new_dbgp_client}
use dbgp_tools.Protocol.Formatting.{Decoder, format_xml}

-- What the tool finds around it: sockets, the decoder, the printer, the verbs %10d and %s of package fmt
-- for a number in faint colour, the headings of "ps", the usage text of package getopt, the text of an
-- error of findFiles, and the order in which the results of goroutines arrive.
pub record World : Type 0 where
  pub dial : Bytes → Option Conn
  pub decoder : Decoder
  pub printer : Printer
  pub pid_column : ℤ → Bytes
  pub headings : Bytes
  pub usage : Bytes
  pub find_error : Bytes
  pub arrive : List Bytes → List Bytes

-- The text that sendCmd returns, or its log.Fatal; and the connection, if there was one.
pub record Answer : Type 0 where
  pub text : Option Bytes
  pub conn : Option Conn

unfoldable pub error_text : World → Bytes
error_text w = w.printer.paint false bright_red (codes "Error")

-- `unknownResponseStr`
unfoldable pub unknown_response : World → Bytes → ℤ → Bytes
unfolding error_text
unknown_response w socket script =
    w.pid_column script
    ++ codes " "
    ++ error_text w
    ++ codes ": No response on: "
    ++ w.printer.paint false faint socket
    ++ codes "\n"

-- The verb %s for a message. Package fmt catches the panic of a method String and prints this.
message_text : Printer → Message → Bytes
unfolding to_string
message_text p m = elim (to_string p m) [
  | some text ↦ text
  | none ↦
      codes
        "%!s(PANIC=String method: runtime error: invalid memory address or nil pointer dereference)"
]

-- The tests behind the reading of the answer.
judge : World → Bool → Bytes → ℤ → Bytes → Bytes
unfolding is_valid_xml format_xml message_text unknown_response
judge w show_xml socket script response =
    let xml : Bytes = if show_xml then w.printer.paint false faint response ++ codes "\n" else [] in
    if is_valid_xml response
    then elim (format_xml w.decoder new_dbgp_client response) [
      | none ↦ unknown_response w socket script
      | some m ↦ xml ++ message_text w.printer m ++ codes "\n"
    ]
    else []

read_answer : World → Bool → Bytes → ℤ → Read Bytes → Bytes
unfolding judge unknown_response
read_answer w show_xml socket script (ok response) = judge w show_xml socket script response
read_answer w show_xml socket script (err e) = unknown_response w socket script

-- sendCmd(ctrl_socket, scriptPid, command), with the deferred Close
unfoldable pub send_cmd : World → Bool → Bytes → ℤ → Bytes → Answer
unfolding read_answer unknown_response write read_from close
send_cmd w show_xml socket script command = elim (w.dial socket) [
  | none ↦ record { text = some (unknown_response w socket script); conn = none }
  | some conn ↦
      let sent = write command conn in
      let out = read_from 0 [] sent.conn in
      if sent.failed then record { text = none; conn = some sent.conn } else record {
        text = some (read_answer w show_xml socket script out.result);
        conn = some (close out.conn);
      }
]
