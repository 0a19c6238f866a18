-- ===== src/ClientTool/Session.antt =====
-- dbgpClient/main.go: handleConnection, the session of a user with a debugger engine.
pub mod Writing
pub mod Numbering
pub mod Termination
use dbgp_tools.Base.{
  Bytes, codes, ◌==◌, ℕ, zero, suc, Bool, true, false, if◌then◌else◌, none, some, List, [], ◌∷◌,
  ◌++◌,
}
use dbgp_tools.Go.Net.{Conn}
use dbgp_tools.Go.Stream.{ReadError}
use dbgp_tools.Dbgpxml.Common.{is_valid_xml, bright_red}
use dbgp_tools.Dbgpxml.Message
use dbgp_tools.Dbgpxml.Message.{Message, Printer}
use dbgp_tools.Protocol.Client.{
  DbgpClient, new_dbgp_client, Response, packet, timed_out, length_failed, data_failed,
  read_response, send_command, signal_abort,
}
use dbgp_tools.Protocol.Formatting.{Decoder, format_xml}
use dbgp_tools.Protocol.RunAndQuit.{println, echo}

-- What rl.Readline returns: a line, readline.ErrInterrupt, or another error, as at the end of the input.
pub data Input : Type 0 where
  line : Bytes → Input
  interrupt end_of_input : Input

-- Why the session ends. The first three are results with a nil error, the first of them with the
-- abort flag; `unfinished` is the end of the fuel.
pub data Ended : Type 0 where
  aborted closed : Ended
  read_failed : ReadError → Ended
  not_xml : Bytes → Ended
  not_understood unsuccessful interrupted input_ended write_failed unfinished : Ended

-- The variables of the loop, what the terminal shows, what the user will type, and whether an
-- interrupt has come since the last timeout, at each timeout to come.
pub record Session : Type 0 where
  pub client : DbgpClient
  pub conn : Conn
  pub last_command : Bytes
  pub inputs : List Input
  pub interrupts : List Bool
  pub screen : Bytes

-- What stays the same.
pub record Setting : Type 0 where
  pub decoder : Decoder
  pub printer : Printer
  pub show_xml : Bool

-- A round ends the session or leaves it to go on.
pub data Round : Type 0 where
  over : Ended → Session → Round
  going : Session → Round

-- displayHelp()
unfoldable pub help_text : Bytes
help_text =
    codes "\n"
    ++ codes "This is a DBGp client. DBGp is a common debugging protocol described at\n"
    ++ codes "https://xdebug.org/docs/dbgp\n"
    ++ codes "\n"
    ++ codes "The client reads DBGp commands on the command line, sends them to the\n"
    ++ codes "DBGp debugging engine, reads the XML response, and formats that response\n"
    ++ codes "by interpreting the XML.\n"
    ++ codes "\n"
    ++ codes "A short overview of commands is also available in the online\n"
    ++ codes "documentation at https://xdebug.org/docs/dbgpClient\n"
    ++ codes "\n"
    ++ codes "You can use <tab> for auto completing commands, and find out which one\n"
    ++ codes "exist.\n"

-- The interrupt's goroutine calls SignalAbort, before the timeout is handled.
abbrev noticed : List Bool → DbgpClient → DbgpClient
noticed [] c = c
noticed (true ∷ later) c = signal_abort c
noticed (false ∷ later) c = c

abbrev rest_of : List Bool → List Bool
rest_of [] = []
rest_of (b ∷ later) = later

on_timeout : Session → Round
on_timeout s =
    let c = noticed s.interrupts s.client in
    let s' : Session = record s { client = c; interrupts = rest_of s.interrupts } in
    if c.abort_requested then over aborted s' else going s'

-- An empty line repeats the last command.
abbrev pub typed : Bytes → Bytes → Bytes
typed last text = if text == [] then last else text

-- reader.SendCommand(line)
send_line : Bytes → Session → Round
unfolding send_command
send_line text s =
    let sent = send_command text s.client s.conn in
    let s' : Session = record s { client = sent.client; conn = sent.written.conn } in
    if sent.written.failed then over write_failed s' else going (record s' { last_command = text })

-- From the label ReadInput on: "help" shows the help and asks again.
read_input : Setting → List Input → Session → Round
unfolding send_line
read_input w [] s = over input_ended (record s { inputs = [] })
read_input w (interrupt ∷ later) s = over interrupted (record s { inputs = later })
read_input w (end_of_input ∷ later) s = over input_ended (record s { inputs = later })
read_input w (line text ∷ later) s =
    let asked = read_input w later (record s { screen = s.screen ++ help_text }) in
    if text == codes "help"
    then asked
    else send_line (typed s.last_command text) (record s { inputs = later })

abbrev closing_text : Printer → Bytes
closing_text p = p.paint false bright_red (codes "The connection should be closed.") ++ codes "\n"

-- The tests behind the printing of a message.
after_message : Setting → Message → Session → Round
unfolding read_input Message.expect_more_responses Message.is_success
    Message.should_close_connection
after_message w m s =
    if Message.expect_more_responses m
    then (if Message.is_success m then going s else over unsuccessful s)
    else if Message.should_close_connection m
    then over closed (record s { screen = s.screen ++ closing_text w.printer })
    else read_input w s.inputs s

-- The tests behind the reading of a packet.
on_packet : Setting → Bytes → Session → Round
unfolding after_message is_valid_xml format_xml println
on_packet w text s =
    let s' : Session = record s { screen = s.screen ++ echo w.printer w.show_xml text } in
    if is_valid_xml text
    then elim (format_xml w.decoder s.client text) [
      | none ↦ over not_understood s'
      | some m ↦ after_message w m (record s' { screen = s'.screen ++ println w.printer m })
    ]
    else over (not_xml text) s'

-- The switch on what was read.
on_response : Setting → Response → Session → Round
unfolding on_timeout on_packet
on_response w timed_out s = on_timeout s
on_response w (length_failed e) s = over (read_failed e) s
on_response w (data_failed e) s = over (read_failed e) s
on_response w (packet text) s = on_packet w text s

-- One round of the loop.
unfoldable pub round : Setting → Session → Round
unfolding on_response read_response
round w s =
    let out = read_response s.client s.conn in
    on_response w out.response (record s { client = out.client; conn = out.conn })

pub record Result : Type 0 where
  pub ended : Ended
  pub session : Session

abbrev done : Ended → Session → Result
done e s = record { ended = e; session = s }

-- The loop.
unfoldable pub run : ℕ → Setting → Session → Result
unfolding round
run zero w s = done unfinished s
run (suc f) w s = elim (round w s) [ over e s' ↦ done e s' | going s' ↦ run f w s' ]

-- The variables before the loop.
abbrev pub new_session : Conn → List Input → List Bool → Session
new_session conn inputs interrupts = record {
  client = new_dbgp_client;
  conn = conn;
  last_command = [];
  inputs = inputs;
  interrupts = interrupts;
  screen = [];
}

-- handleConnection(c, rl)
unfoldable pub handle_connection : ℕ → Setting → Conn → List Input → List Bool → Result
unfolding run
handle_connection fuel w conn inputs interrupts = run fuel w (new_session conn inputs interrupts)
