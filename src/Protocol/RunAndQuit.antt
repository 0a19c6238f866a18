-- ===== src/Protocol/RunAndQuit.antt =====
-- lib/protocol/dbgp-client.go: RunAndQuit.
pub mod Outcome
use dbgp_tools.Base.{Bytes, codes, Bool, false, if◌then◌else◌, none, some, [], ◌++◌}
use dbgp_tools.Go.Net.{Conn}
use dbgp_tools.Go.Stream.{ReadError}
use dbgp_tools.Dbgpxml.Common.{is_valid_xml, faint}
use dbgp_tools.Dbgpxml.Message
use dbgp_tools.Dbgpxml.Message.{Printer}
use dbgp_tools.Protocol.Client.{
  DbgpClient, Response, Sent, new_dbgp_client, read_response, send_command, packet, timed_out,
  length_failed, data_failed,
}
use dbgp_tools.Protocol.Formatting.{Decoder, format_xml}

-- nil, or which error is returned.
pub data QuitResult : Type 0 where
  succeeded sending_failed failed : QuitResult
  reading_failed : ReadError → QuitResult

-- `output` is what is written to the terminal.
pub record Quit : Type 0 where
  pub result : QuitResult
  pub output : Bytes
  pub client : DbgpClient
  pub conn : Conn

-- fmt.Fprintln of a message. Package fmt catches the panic of a method String and prints this.
unfoldable pub println : Printer → Message.Message → Bytes
unfolding Message.to_string
println p m = elim (Message.to_string p m) [
  | some text ↦ text ++ codes "\n"
  | none ↦
      codes
        "%!v(PANIC=String method: runtime error: invalid memory address or nil pointer dereference)\n"
]

-- fmt.Fprintf(output, "%s\n", Faint(response)), if it is asked for
abbrev pub echo : Printer → Bool → Bytes → Bytes
echo p show_xml text = if show_xml then p.paint false faint text ++ codes "\n" else []

-- The tests behind ReadResponse.
judge_text : Decoder → Printer → Bool → DbgpClient → Bytes → QuitResult × Bytes
unfolding is_valid_xml format_xml Message.is_success println
judge_text d p show_xml c text =
    if is_valid_xml text
    then elim (format_xml d c text) [
      | none ↦ (succeeded, echo p show_xml text ++ codes "Could not interpret XML")
      | some m ↦ (
        (if Message.is_success m then succeeded else failed),
        echo p show_xml text ++ println p m,
      )
    ]
    else (succeeded, codes "The received XML is not valid: " ++ text)

judge_response : Decoder → Printer → Bool → DbgpClient → Response → QuitResult × Bytes
unfolding judge_text
judge_response d p show_xml c (packet text) = judge_text d p show_xml c text
judge_response d p show_xml c timed_out = (reading_failed ReadError.timeout, [])
judge_response d p show_xml c (length_failed e) = (reading_failed e, [])
judge_response d p show_xml c (data_failed e) = (reading_failed e, [])

quit_sent : Decoder → Printer → Bool → Sent → Quit
unfolding judge_response read_response
quit_sent d p show_xml sent =
    let out = read_response sent.client sent.written.conn in
    let judged = judge_response d p show_xml out.client out.response in
    if sent.written.failed
    then record {
      result = sending_failed;
      output = [];
      client = sent.client;
      conn = sent.written.conn;
    }
    else record { result = judged.0; output = judged.1; client = out.client; conn = out.conn }

-- RunAndQuit(conn, command, output, logOutput, showXML)
unfoldable pub run_and_quit : Decoder → Printer → Conn → Bytes → Bool → Quit
unfolding quit_sent send_command
run_and_quit d p conn line show_xml =
    quit_sent d p show_xml (send_command line new_dbgp_client conn)
