-- ===== src/ClientTool/Clients.antt =====
-- dbgpClient/main.go: the client that waits for connections, and the client that is connected to the
-- cloud.
pub mod Termination
use dbgp_tools.Base.{
  Bytes, codes, ℕ, zero, suc, Bool, true, false, if◌then◌else◌, Option, none, some, List, [], ◌∷◌,
  ◌++◌,
}
use dbgp_tools.Go.Decimal.{itoa}
use dbgp_tools.Go.Net.{Conn, close}
use dbgp_tools.Dbgpxml.Common.{Paint, bright_red, bright_yellow, bright_green}
use dbgp_tools.Protocol.Client.{DbgpClient, new_dbgp_client, read_response, send_command}
use dbgp_tools.ClientTool.Proxy.{Flags, cloudstop_command}
use dbgp_tools.ClientTool.Session.{
  Input, Ended, aborted, closed, interrupted, write_failed, Setting, handle_connection,
}

-- What a listener or the cloud client needs beside the setting of a session: the fuel of each session,
-- the texts of errors, and what is typed and interrupted.
pub record Terminal : Type 0 where
  pub inputs : List Input
  pub interrupts : List Bool
  pub screen : Bytes

-- An error of handleConnection, where there is one.
abbrev pub is_error : Ended → Bool
is_error aborted = false
is_error closed = false
is_error e = true

abbrev pub error_line : Paint → (Ended → Bytes) → Ended → Bytes
error_line paint error_text e =
    paint false bright_red (codes "Error while handling connection")
    ++ codes ": "
    ++ paint false bright_red (error_text e)
    ++ codes "\n"

-- A connection that is accepted, with the address of the other end, or the text of an error.
pub data Accepted : Type 0 where
  accepted : Conn → Bytes → Accepted
  accept_error : Bytes → Accepted

pub record Waited : Type 0 where
  pub terminal : Terminal
  pub conns : List Conn

-- doNormalConnectionLoop(l, rl)
unfoldable pub do_normal_connection_loop :
    ℕ → Setting → (Ended → Bytes) → Accepted → Terminal → Waited
unfolding handle_connection close
do_normal_connection_loop fuel w error_text (accept_error e) t = record {
  terminal = record t { screen = t.screen ++ e ++ codes "\n" };
  conns = [];
}
do_normal_connection_loop fuel w error_text (accepted conn remote) t =
    let out = handle_connection fuel w conn t.inputs t.interrupts in
    record {
      terminal = record {
        inputs = out.session.inputs;
        interrupts = out.session.interrupts;
        screen =
            t.screen
            ++ codes "Connect from "
            ++ remote
            ++ codes "\n"
            ++ out.session.screen
            ++ (if is_error out.ended then error_line w.printer.paint error_text out.ended else [])
            ++ codes "Disconnect\n";
      };
      conns = close out.session.conn ∷ [];
    }

-- The loop of runAsNormalClient, over the connections that come.
unfoldable pub normal_loop :
    ℕ → Setting → (Ended → Bytes) → Bool → List Accepted → Terminal → Waited
unfolding do_normal_connection_loop
normal_loop fuel w error_text once [] t = record { terminal = t; conns = [] }
normal_loop fuel w error_text once (a ∷ later) t =
    let out = do_normal_connection_loop fuel w error_text a t in
    let rest = normal_loop fuel w error_text once later out.terminal in
    if once then out else record rest { conns = out.conns ++ rest.conns }

-- runAsNormalClient(); `listening` is whether net.Listen succeeds, and its error otherwise
unfoldable pub run_as_normal_client :
    ℕ → Setting → (Ended → Bytes) → Flags → Option Bytes → List Accepted → Terminal → Waited
unfolding normal_loop
run_as_normal_client fuel w error_text f (some e) later t = record {
  terminal = record t { screen = t.screen ++ e };
  conns = [];
}
run_as_normal_client fuel w error_text f none later t =
    normal_loop fuel w error_text f.once later (record t {
      screen =
          t.screen
          ++ codes "Waiting for debug server to connect on port "
          ++ itoa f.port
          ++ codes ".\n";
    })

-- The variables of runAsCloudClient: its own reader, the connection, and the terminal.
pub record Cloud : Type 0 where
  pub proto : DbgpClient
  pub conn : Conn
  pub terminal : Terminal

-- Why the client ends; `running` is the end of the fuel.
pub data CloudEnded : Type 0 where
  not_connected init_not_sent shut_down failed detach_not_sent running : CloudEnded

pub record CloudResult : Type 0 where
  pub ended : CloudEnded
  pub conn : Option Conn
  pub terminal : Terminal

abbrev say : Bytes → Cloud → Cloud
say text s = record s { terminal = record s.terminal { screen = s.terminal.screen ++ text } }

-- The deferred calls: the text, and Close.
cloud_done : Paint → CloudEnded → Cloud → CloudResult
unfolding close
cloud_done paint e s = record {
  ended = e;
  conn = some (close s.conn);
  terminal =
      (say (codes "\n" ++ paint true bright_yellow (codes "Shutting down client") ++ codes "\n")
        s).terminal;
}

-- proto.SendCommand(line)
send : Bytes → Cloud → Cloud × Bool
unfolding send_command
send text s =
    let out = send_command text s.proto s.conn in
    (record s { proto = out.client; conn = out.written.conn }, out.written.failed)

-- The end of an aborted session: "cloudstop", and its answer is read.
disconnect : Bytes → Cloud → Cloud
unfolding send read_response
disconnect user s =
    let (s', lost) = send (cloudstop_command user) s in
    let out = read_response s'.proto s'.conn in record s' { proto = out.client; conn = out.conn }

abbrev waiting_text : Paint → Bytes
waiting_text paint =
    codes "\n" ++ paint true bright_green (codes "Waiting for incoming connection...") ++ codes "\n"

-- The line for a command that could not be sent.
abbrev not_sent_line : Paint → (Ended → Bytes) → Bytes → Bytes
not_sent_line paint error_text command =
    paint false bright_red (codes "Could not send '" ++ command ++ codes "' command")
    ++ codes ": "
    ++ paint false bright_red (error_text write_failed)
    ++ codes "\n"

-- What follows a session: the loop goes on (`none`) or the client ends.
after_cloud_session : Setting → (Ended → Bytes) → Bytes → Ended → Cloud → Cloud × Option CloudEnded
unfolding send disconnect
after_cloud_session w error_text user interrupted s =
    let told =
      say
        (w.printer.paint false bright_yellow (codes "Interrupt, sending detach")
          ++ codes ": "
          ++ w.printer.paint false bright_red (error_text interrupted)
          ++ codes "\n")
        s in
    let (s', lost) = send (codes "detach") told in
    if lost
    then (say (not_sent_line w.printer.paint error_text (codes "detach")) s', some detach_not_sent)
    else (say (waiting_text w.printer.paint) s', none)
after_cloud_session w error_text user aborted s = (disconnect user s, some shut_down)
after_cloud_session w error_text user closed s = (say (waiting_text w.printer.paint) s, none)
after_cloud_session w error_text user e s =
    (say (error_line w.printer.paint error_text e) s, some failed)

cloud_loop : ℕ → ℕ → Setting → (Ended → Bytes) → Bytes → Cloud → CloudResult
unfolding handle_connection after_cloud_session cloud_done
cloud_loop zero fuel w error_text user s = record {
  ended = running;
  conn = some s.conn;
  terminal = s.terminal;
}
cloud_loop (suc f) fuel w error_text user s =
    let out = handle_connection fuel w s.conn s.terminal.inputs s.terminal.interrupts in
    let t : Terminal = record {
      inputs = out.session.inputs;
      interrupts = out.session.interrupts;
      screen = s.terminal.screen ++ out.session.screen;
    } in
    let next =
      after_cloud_session w error_text user out.ended
        (record s { conn = out.session.conn; terminal = t }) in
    elim next.1 [
      | none ↦ cloud_loop f fuel w error_text user next.0
      | some e ↦ cloud_done w.printer.paint e next.0
    ]

-- The line for a cloud that cannot be reached; `dial_error` is the text of the error.
abbrev not_connected_line : Paint → Bytes → Bytes → Bytes
not_connected_line paint domain dial_error =
    paint false bright_red (codes "Can not connect to Xdebug Cloud at")
    ++ codes " '"
    ++ paint false bright_yellow domain
    ++ codes "': "
    ++ paint false bright_red dial_error
    ++ codes "\n"

-- runAsCloudClient(logger), with what dialling the cloud returned
unfoldable pub run_as_cloud_client :
    ℕ → ℕ → Setting → (Ended → Bytes) → Bytes → Bytes → Bytes → Option Conn → Terminal → CloudResult
unfolding cloud_loop send cloud_done
run_as_cloud_client rounds fuel w error_text domain dial_error user none t = record {
  ended = not_connected;
  conn = none;
  terminal = record t { screen = t.screen ++ not_connected_line w.printer.paint domain dial_error };
}
run_as_cloud_client rounds fuel w error_text domain dial_error user (some conn) t =
    let (s, lost) =
      send (codes "cloudinit -u " ++ user)
        (record { proto = new_dbgp_client; conn = conn; terminal = t }) in
    if lost
    then cloud_done w.printer.paint init_not_sent
        (say (not_sent_line w.printer.paint error_text (codes "cloudinit")) s)
    else cloud_loop rounds fuel w error_text user s
