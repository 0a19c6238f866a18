-- ===== src/Listener.antt =====
-- lib/server/server.go: a listener and its connections, each of which is served by a goroutine of its own.
-- The network is an argument: what each Accept returns, and what a Close fails with. The lines of the
-- logger are left out.
pub mod Laws
pub mod Shutdown
pub mod Tests
use dbgp_tools.Base.{
  Bytes, codes, ◌++◌, Bool, true, false, if◌then◌else◌, none, some, List, [], ◌∷◌, ℕ,
}
use dbgp_tools.Go.Net.{Conn, close}
use dbgp_tools.Connecting.{Dialler, connect_to}
use dbgp_tools.Protocol.Client.{new_dbgp_client}
use dbgp_tools.Protocol.Formatting.{Decoder, RunResult, run_command}

-- The handler's Handle, as far as its caller sees it: whether it returns an error, and the connection.
abbrev pub Handler : Type 0
Handler = Conn → Bool × Conn

-- What handleConnection leaves: `signals` counts the sends on the shutdown channel.
pub record Handled : Type 0 where
  pub conn : Conn
  pub signals : ℕ

-- server.handleConnection(conn, handler, shutdownSignal); the Boolean is whether there is a channel
unfoldable pub handle_connection : Handler → Bool → Conn → Handled
unfolding close
handle_connection handler channel conn =
    let (failed, left) = handler conn in
    record { conn = close left; signals = if failed then (if channel then 1 else 0) else 0 }

-- What one AcceptTCP returns: a connection, an error that is a timeout, or another error with its text.
pub data Accept : Type 0 where
  accepted : Conn → Accept
  timed_out : Accept
  accept_error : Bytes → Accept

-- One round of the loop finds `stop` set or not, and then what Accept returns.
pub record Round : Type 0 where
  pub stop : Bool
  pub accept : Accept

-- What a listener has done: the connections for which a goroutine was started, in order, what it
-- printed, and whether it has returned, which closes its socket.
pub record Listened : Type 0 where
  pub started : List Conn
  pub output : Bytes
  pub returned : Bool

-- After one Accept the loop goes on.
after_accept : Accept → Listened → Listened
after_accept (accepted conn) rest = record rest { started = conn ∷ rest.started }
after_accept timed_out rest = rest
after_accept (accept_error text) rest = record rest { output = text ++ rest.output }

-- The loop of Listen and ListenSSL, over as many rounds as are given.
unfoldable pub accept_loop : List Round → Listened
unfolding after_accept
accept_loop [] = record { started = []; output = []; returned = false }
accept_loop (r ∷ rs) =
    let rest = accept_loop rs in
    if r.stop
    then record { started = []; output = []; returned = true }
    else after_accept r.accept rest

-- A listener that could not start: the panic ends the program.
pub data Start : Type 0 where
  panicked : Start
  listening : Listened → Start

-- server.Listen(handler); the first argument is whether net.ListenTCP fails
unfoldable pub listen : Bool → List Round → Start
unfolding accept_loop
listen true rounds = panicked
listen false rounds = listening (accept_loop rounds)

-- server.ListenSSL(handler); the first argument is whether the keys cannot be loaded
unfoldable pub listen_ssl : Bool → Bool → List Round → Start
unfolding listen
listen_ssl true fails rounds = panicked
listen_ssl false fails rounds = listen fails rounds

-- The result of CloudConnect: nil, with a goroutine for handleConnection on the connection that is
-- left, or an error; `crashed` is a panic of RunCommand.
pub data CloudConnected : Type 0 where
  serving : Conn → CloudConnected
  not_connected : CloudConnected
  crashed : CloudConnected
  refused : RunResult → CloudConnected

-- After RunCommand
connected : Conn → RunResult → CloudConnected
connected conn RunResult.succeeded = serving conn
connected conn RunResult.panicked = crashed
connected conn RunResult.write_failed = refused RunResult.write_failed
connected conn (RunResult.read_failed e) = refused (RunResult.read_failed e)
connected conn (RunResult.not_xml text) = refused (RunResult.not_xml text)
connected conn (RunResult.refused text) = refused (RunResult.refused text)

-- server.CloudConnect(handler, cloudUser, shutdownSignal), up to the start of the goroutine
unfoldable pub cloud_connect : Decoder → Dialler → Bytes → Bytes → CloudConnected
unfolding connected run_command
cloud_connect d dial address user = elim (connect_to dial address true) [
  | none ↦ not_connected
  | some conn ↦
      let ran = run_command d (codes "cloudinit -u " ++ user) new_dbgp_client conn in
      connected ran.conn ran.result
]
