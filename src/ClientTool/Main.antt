-- ===== src/ClientTool/Main.antt =====
-- dbgpClient/main.go and cloud.go: the flags, and main. Package getopt's work is done: the flags are given.
pub mod Variants
use dbgp_tools.Base.{
  Bytes, codes, ◌==◌, ℕ, true, ◌||◌, ◌&&◌, not, if◌then◌else◌, Option, none, some, List, [], ◌∷◌,
  ◌++◌,
}
use dbgp_tools.Connecting.{connect_to_cloud}
use dbgp_tools.Dbgpxml.Common.{Paint, plain}
use dbgp_tools.ClientTool.Proxy.{
  unregister_cloud_client, Flags, Env, Handled, Once, Result, handle_proxy_arguments, goes_on,
}
use dbgp_tools.ClientTool.Session.{Ended, Setting, Session}
use dbgp_tools.ClientTool.Clients.{
  Terminal, Waited, CloudResult, Accepted, run_as_normal_client, run_as_cloud_client,
}

abbrev client_version : Bytes
client_version = codes "0.6.2"

abbrev client_year : Bytes
client_year = codes "2025"

-- printVersion()
abbrev print_version : Paint → Bytes
print_version paint =
    codes "Xdebug Simple DBGp client ("
    ++ paint true plain client_version
    ++ codes ")\nCopyright 2019-"
    ++ client_year
    ++ codes " by Derick Rethans\n"

abbrev print_start_up : Bytes
print_start_up = codes "\n"

-- handleCloudArguments()
unfoldable pub handle_cloud_arguments : Flags → Flags
handle_cloud_arguments f =
    if not (f.cloud_user == []) || not (f.discloud_user == []) then record f { ssl = true } else f

-- os.Exit in the first two tests
abbrev exit_now : ℕ → Handled
exit_now code = record { exit = some code; ran = []; output = [] }

-- handleArguments() behind getopt.Parse, with the flags as they are left; the usage text is not modelled
unfoldable pub handle_arguments : Env → Env → Flags → (Result → Bytes) → Handled × Flags
unfolding handle_proxy_arguments handle_cloud_arguments
handle_arguments env later f error_text =
    if f.help then (exit_now 1, f) else if f.version then (exit_now 0, f) else (
      (if f.cloud_user == [] && f.discloud_user == []
          then handle_proxy_arguments env later f error_text
          else goes_on []),
      handle_cloud_arguments f,
    )

-- How the program ends: the code of os.Exit in handleArguments, a run that only disconnects from the
-- cloud, or one of the clients.
pub data Program : Type 0 where
  exited : ℕ → Program
  disconnected : Program
  ran_as_cloud : CloudResult → Program
  ran_as_normal : Waited → Program

-- What the commands that run once have done is in `ran`, and `output` has what else is printed before a
-- client runs: the version, and the refusals and errors of the flags.
pub record Run : Type 0 where
  pub program : Program
  pub ran : List Once
  pub output : Bytes

-- What the program finds around it: the network for the first command and for what comes later, the
-- texts of errors, whether net.Listen fails, and the connections that are accepted.
pub record World : Type 0 where
  pub env : Env
  pub later : Env
  pub error_text : Result → Bytes
  pub ended_text : Ended → Bytes
  pub dial_error : Bytes
  pub listen_error : Option Bytes
  pub accepts : List Accepted
  pub terminal : Terminal

abbrev pub cloud_domain : Bytes
cloud_domain = codes "cloud.xdebug.com"

abbrev pub cloud_port : Bytes
cloud_port = codes "9021"

abbrev setting : World → Flags → Setting
setting w f = record { decoder = w.env.decoder; printer = w.env.printer; show_xml = f.show_xml }

-- The last part of main: one of the two clients.
run_client : ℕ → ℕ → World → Flags → Program
unfolding run_as_cloud_client run_as_normal_client connect_to_cloud
run_client rounds fuel w f =
    if f.cloud_user == []
    then ran_as_normal
        (run_as_normal_client fuel (setting w f) w.ended_text f w.listen_error w.accepts w.terminal)
    else ran_as_cloud (
        run_as_cloud_client rounds fuel (setting w f) w.ended_text cloud_domain w.dial_error
          f.cloud_user (connect_to_cloud w.later.dial cloud_domain cloud_port f.cloud_user)
          w.terminal)

-- main() behind handleArguments
unfoldable pub start : ℕ → ℕ → World → Flags → Run
unfolding run_client unregister_cloud_client
start rounds fuel w f =
    let once = unregister_cloud_client w.env cloud_domain cloud_port f.discloud_user w.dial_error in
    if f.discloud_user == []
    then record { program = run_client rounds fuel w f; ran = []; output = [] }
    else if f.cloud_user == []
    then record { program = disconnected; ran = once ∷ []; output = [] }
    else record { program = run_client rounds fuel w f; ran = once ∷ []; output = [] }

behind_arguments : ℕ → ℕ → World → Handled → Flags → Run
unfolding start
behind_arguments rounds fuel w h f = elim h.exit [
  | some code ↦ record { program = exited code; ran = h.ran; output = h.output }
  | none ↦
      let rest = start rounds fuel w f in
      record rest { ran = h.ran ++ rest.ran; output = h.output ++ print_start_up }
]

-- main(), with the fuel of the loop over sessions with the cloud and that of each session
unfoldable pub main : ℕ → ℕ → World → Flags → Run
unfolding handle_arguments behind_arguments
main rounds fuel w f =
    let (h, left) = handle_arguments w.env w.later f w.error_text in
    let run = behind_arguments rounds fuel w h left in
    record run { output = print_version w.env.printer.paint ++ run.output }
