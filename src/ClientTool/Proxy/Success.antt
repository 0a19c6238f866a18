-- ===== src/ClientTool/Proxy/Success.antt =====
-- A command that runs once, on a connection that could be made.
use dbgp_tools.Base.{Bytes, ◌≡◌, refl, some, [], ◌∷◌}
use dbgp_tools.Go.Net.{Conn, close}
use dbgp_tools.Protocol.RunAndQuit.{QuitResult, run_and_quit}
use dbgp_tools.ClientTool.Register.{register_command, unregister_command}
use dbgp_tools.ClientTool.Proxy.{
  Env, Flags, finished, register_with_proxy, unregister_with_proxy, run_once,
}

pub register_with_proxy_succeeds :
    (env : Env) (f : Flags) (address key : Bytes) (conn : Conn)
    → env.dial f.ssl address ≡ some conn
    → let q =
        run_and_quit env.decoder env.printer conn (register_command key f.port f.ssl) f.show_xml in
      q.result ≡ QuitResult.succeeded
      → register_with_proxy env f address key
        ≡ record { result = finished; output = q.output; conns = close q.conn ∷ [] }
unfolding register_with_proxy run_once
register_with_proxy_succeeds env f address key conn dialled won =
    rw (dialled, won, register_with_proxy, run_once) refl

pub unregister_with_proxy_succeeds :
    (env : Env) (f : Flags) (address key : Bytes) (conn : Conn)
    → env.dial f.ssl address ≡ some conn
    → let q = run_and_quit env.decoder env.printer conn (unregister_command key) f.show_xml in
      q.result ≡ QuitResult.succeeded
      → unregister_with_proxy env f address key
        ≡ record { result = finished; output = q.output; conns = close q.conn ∷ [] }
unfolding unregister_with_proxy run_once
unregister_with_proxy_succeeds env f address key conn dialled won =
    rw (dialled, won, unregister_with_proxy, run_once) refl
