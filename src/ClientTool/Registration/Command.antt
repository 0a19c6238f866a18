-- ===== src/ClientTool/Registration/Command.antt =====
-- The flag that registers with a proxy, from dialling to the proxy's list.
use dbgp_tools.Base.{
  Bytes, ◌==◌, ◌≡◌, refl, sym, ap, ◌∙◌, ℕ, Bool, true, none, some, List, [], ◌∷◌, ◌++◌, append-nil,
  if◌then◌else◌,
}
use dbgp_tools.Base.Int.{pos}
use dbgp_tools.Go.Decimal.{itoa}
use dbgp_tools.Go.Net.{Conn, arriving, close}
use dbgp_tools.Go.Stream.{Event}
use dbgp_tools.Go.Stream.Laws.{OnlyChunks, bytes_of}
use dbgp_tools.Connections.{Registry}
use dbgp_tools.Connections.Refinement.{view, fresh}
use dbgp_tools.Connections.WellFormed.{IsWellFormed}
use dbgp_tools.Dbgpxml.Message
use dbgp_tools.Dbgpxml.ProxyInit.{as_xml, as_xml-NoZero, is_valid_xml-as_xml, is_success, ProxyInit}
use dbgp_tools.Protocol.Client.{DbgpClient, new_dbgp_client}
use dbgp_tools.Protocol.Formatting.{Decoder, format_xml}
use dbgp_tools.Protocol.RunAndQuit.{run_and_quit, QuitResult}
use dbgp_tools.Protocol.RunAndQuit.Outcome.{run_and_quit-frame, expected}
use dbgp_tools.Protocol.Server.{frame}
use dbgp_tools.Proxy.ClientHandler.{serve, done}
use dbgp_tools.ClientTool.Register.{register_command}
use dbgp_tools.ClientTool.Proxy.{Env, Flags, finished, register_with_proxy}
use dbgp_tools.ClientTool.Proxy.Success.{register_with_proxy_succeeds}
use dbgp_tools.Dbgpxml.Message.{Printer}
use dbgp_tools.ClientTool.Registration.{IsRegistrable, line, success, serve_registers}

-- An answer that is decoded as a message that says success is no error.
expected_succeeds :
    (d : Decoder) (p : Printer) (show_xml : Bool) (c : DbgpClient) (m read : ProxyInit)
    → format_xml d c (as_xml m ++ 0 ∷ []) ≡ some (Message.proxy_init read)
    → is_success read ≡ true
    → (expected d p show_xml c (as_xml m ++ 0 ∷ [])).0 ≡ QuitResult.succeeded
unfolding Message.is_success
expected_succeeds d p show_xml c m read understood success =
    rw (is_valid_xml-as_xml m (0 ∷ []), understood, success) refl

says_success : (m : ProxyInit) → m.success ≡ pos 1 → is_success m ≡ true
unfolding is_success
says_success m e = rw e refl

module _ (env : Env) (f : Flags) (address key host sid : Bytes) (n : ℕ) (r : Registry)
    (there : List Event) (conn : Conn) (ok_input : IsRegistrable new_dbgp_client key n f.ssl)
    (port_given : f.port ≡ pos n) (w : IsWellFormed r) (absent : view r key ≡ none)
    (dialled : env.dial f.ssl address ≡ some conn) (unused : conn.sent ≡ [])
    (quiet : conn.faults ≡ []) (calm : OnlyChunks conn.events) (calm' : OnlyChunks there)
    (read : ProxyInit) (kept : read.success ≡ pos 1)
    (understood : (c : DbgpClient)
      → format_xml env.decoder c (as_xml (success new_dbgp_client key n f.ssl host) ++ 0 ∷ [])
        ≡ some (Message.proxy_init read)) where
  -- The flag that registers with a proxy works from end to end. Let the key be not empty, not "-i" and
  -- without a space and a byte 0, let the port be in the range of `int`, and let the proxy's list be
  -- well-formed and not know the key; let the address lead to a connection on which nothing was written,
  -- no write fails and nothing interrupts the reading, and let the XML parsers make of the answer of
  -- success a message of the same kind, in which the attribute "success" is 1. If the proxy reads what this client writes, however the network cuts it, and this client
  -- reads what the proxy answers, then the command ends without an error, having written its line and
  -- closed its one connection, and the proxy's list leads from the key to the client's host, port and
  -- SSL flag, and from every other key to what it led to before.
  pub register_with_proxy_registers :
      bytes_of there ≡ line new_dbgp_client key n f.ssl ++ 0 ∷ []
      → bytes_of conn.events ≡ (serve host sid r (arriving there)).conn.sent
      → let ran = register_with_proxy env f address key in
        let out = serve host sid r (arriving there) in
        (ran.result ≡ finished)
        × ((last : Conn) × (ran.conns ≡ last ∷ [])
            × (last.closed ≡ true)
            × (last.sent ≡ bytes_of there))
        × (out.outcome ≡ done)
        × ((j : Bytes)
            → view out.registry j ≡ (
                if key == j then some (fresh key host (itoa (pos n)) f.ssl none sid) else view r j))
  unfolding close
  register_with_proxy_registers written returned =
      let answer = success new_dbgp_client key n f.ssl host in
      let (served, views, sent) =
        serve_registers new_dbgp_client key n f.ssl ok_input host sid r there w absent calm'
          written in
      let arrived : bytes_of conn.events ≡ frame (as_xml answer) ++ [] =
        returned ∙ sent ∙ sym (append-nil (frame (as_xml answer))) in
      let (judged, wrote, _) =
        run_and_quit-frame env.decoder env.printer f.show_xml (register_command key (pos n) f.ssl)
          conn (as_xml answer) [] quiet calm (as_xml-NoZero answer) arrived in
      let q =
        run_and_quit env.decoder env.printer conn (register_command key (pos n) f.ssl) f.show_xml in
      let won : q.result ≡ QuitResult.succeeded =
        ap (λ x. x.0) judged
        ∙ expected_succeeds env.decoder env.printer f.show_xml q.client answer read
            (understood q.client) (says_success read kept) in
      let ran = register_with_proxy_succeeds env f address key conn dialled (rw port_given won) in
      (
        ap (λ x. x.result) ran,
        (
          _,
          ap (λ x. x.conns) ran,
          refl,
          rw port_given (
              wrote
              ∙ ap (λ x. x ++ (line new_dbgp_client key n f.ssl ++ 0 ∷ [])) unused
              ∙ sym written),
        ),
        served,
        views,
      )
