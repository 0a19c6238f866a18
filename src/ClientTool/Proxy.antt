-- ===== src/ClientTool/Proxy.antt =====
-- dbgpClient/proxy.go and lib/protocol/cloud.go: the commands that run once, and the flags that ask for
-- them.
pub mod Success
use dbgp_tools.Base.{
  Bytes, codes, ◌==◌, Bool, true, false, if◌then◌else◌, Option, none, some, List, [], ◌∷◌, ◌++◌, ℕ,
}
use dbgp_tools.Base.Int.{ℤ}
use dbgp_tools.Go.Net.{Conn, close}
use dbgp_tools.Connecting.{Dialler, connect_to, connect_to_cloud}
use dbgp_tools.Dbgpxml.Common.{bright_red, bright_yellow}
use dbgp_tools.Dbgpxml.Message.{Printer}
use dbgp_tools.Protocol.Formatting.{Decoder}
use dbgp_tools.Protocol.RunAndQuit.{QuitResult, run_and_quit}
use dbgp_tools.ClientTool.Register.{register_command, unregister_command}

-- The flags of the client, with those of proxy.go and cloud.go.
pub record Flags : Type 0 where
  pub help : Bool
  pub version : Bool
  pub once : Bool
  pub show_xml : Bool
  pub port : ℤ
  pub proxy : Bytes
  pub register : Bytes
  pub unregister : Bytes
  pub ssl : Bool
  pub cloud_user : Bytes
  pub discloud_user : Bytes

-- What the client's code uses: the network, the decoder and the printer.
pub record Env : Type 0 where
  pub dial : Dialler
  pub decoder : Decoder
  pub printer : Printer

-- The error of a command, nil (`finished`), an error of dialling, or one of RunAndQuit.
pub data Result : Type 0 where
  finished not_connected : Result
  quit_failed : QuitResult → Result

-- A command that has run; the connection, if there was one, is closed.
pub record Once : Type 0 where
  pub result : Result
  pub output : Bytes
  pub conns : List Conn

abbrev result_of : QuitResult → Result
result_of QuitResult.succeeded = finished
result_of QuitResult.sending_failed = quit_failed QuitResult.sending_failed
result_of QuitResult.failed = quit_failed QuitResult.failed
result_of (QuitResult.reading_failed e) = quit_failed (QuitResult.reading_failed e)

-- RunAndQuit on a connection, with the deferred Close.
run_once : Env → Option Conn → Bytes → Bool → Once
unfolding run_and_quit close
run_once env none line show_xml = record { result = not_connected; output = []; conns = [] }
run_once env (some conn) line show_xml =
    let q = run_and_quit env.decoder env.printer conn line show_xml in
    record { result = result_of q.result; output = q.output; conns = close q.conn ∷ [] }

-- registerWithProxy(address, idekey)
unfoldable pub register_with_proxy : Env → Flags → Bytes → Bytes → Once
unfolding register_command run_once
register_with_proxy env f address key =
    run_once env (connect_to env.dial address f.ssl) (register_command key f.port f.ssl) f.show_xml

-- unregisterWithProxy(address, idekey)
unfoldable pub unregister_with_proxy : Env → Flags → Bytes → Bytes → Once
unfolding unregister_command run_once
unregister_with_proxy env f address key =
    run_once env (connect_to env.dial address f.ssl) (unregister_command key) f.show_xml

-- The command of UnregisterCloudClient.
abbrev pub cloudstop_command : Bytes → Bytes
cloudstop_command user = codes "cloudstop -u " ++ user

-- UnregisterCloudClient; the error of RunAndQuit is dropped. `dial_error` is the text of the error.
unfoldable pub unregister_cloud_client : Env → Bytes → Bytes → Bytes → Bytes → Once
unfolding run_once connect_to_cloud
unregister_cloud_client env domain port user dial_error =
    let dialled = connect_to_cloud env.dial domain port user in
    let out = run_once env dialled (cloudstop_command user) false in
    elim dialled [
      | some conn ↦ record { result = finished; output = out.output; conns = out.conns }
      | none ↦ record {
        result = finished;
        output =
            env.printer.paint false bright_red (codes "Can not connect to Xdebug cloud at")
            ++ codes " '"
            ++ env.printer.paint false bright_yellow domain
            ++ codes "': "
            ++ env.printer.paint false bright_red dial_error
            ++ codes "\n";
        conns = [];
      }
    ]

-- What the handling of flags leads to: the exit code, if the program exits, and what ran until then.
pub record Handled : Type 0 where
  pub exit : Option ℕ
  pub ran : List Once
  pub output : Bytes

abbrev pub goes_on : List Once → Handled
goes_on ran = record { exit = none; ran = ran; output = [] }

-- An error message, and os.Exit(2).
abbrev exits : List Once → Bytes → Handled
exits ran message = record { exit = some 2; ran = ran; output = message }

-- One of the two blocks: refuses with a cloud user; else the command runs, and `after` says what
-- follows a success. The text of the error is a parameter.
proxy_block : Env → Flags → (Result → Bytes) → Bytes → Bytes → Once → Handled → Handled
proxy_block env f error_text refusal failure once after =
    if f.cloud_user == []
    then elim once.result [
      | finished ↦ record after { ran = once ∷ after.ran }
      | not_connected ↦ exits (once ∷ []) (
          env.printer.paint true bright_red failure
          ++ codes ": "
          ++ env.printer.paint false bright_red (error_text not_connected)
          ++ codes "\n")
      | quit_failed q ↦ exits (once ∷ []) (
          env.printer.paint true bright_red failure
          ++ codes ": "
          ++ env.printer.paint false bright_red (error_text (quit_failed q))
          ++ codes "\n")
    ]
    else exits [] (env.printer.paint true bright_red refusal ++ codes "\n")

unregister_block : Env → Flags → (Result → Bytes) → Handled
unfolding proxy_block unregister_with_proxy
unregister_block env f error_text =
    if f.unregister == []
    then goes_on []
    else proxy_block env f error_text
        (codes "Refusing to unregister to proxy because we're connecting to Xdebug Cloud")
        (codes "Error unregistering with proxy") (unregister_with_proxy env f f.proxy f.unregister)
        (record { exit = some 0; ran = []; output = [] })

-- handleProxyArguments(); `later` is what the second command finds, after the first
unfoldable pub handle_proxy_arguments : Env → Env → Flags → (Result → Bytes) → Handled
unfolding proxy_block unregister_block register_with_proxy
handle_proxy_arguments env later f error_text =
    if f.register == []
    then unregister_block later f error_text
    else proxy_block env f error_text
        (codes "Refusing to register to proxy because we're connecting to Xdebug Cloud")
        (codes "Error registering with proxy") (register_with_proxy env f f.proxy f.register)
        (unregister_block later f error_text)
