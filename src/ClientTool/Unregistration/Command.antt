-- ===== src/ClientTool/Unregistration/Command.antt =====
-- The flag that unregisters from a proxy, from dialling to the proxy's list.
use dbgp_tools.Base.{
  Bytes, ◌==◌, ◌≡◌, refl, sym, ap, ◌∙◌, Bool, true, false, none, some, List, [], ◌∷◌, ◌++◌,
  append-nil, if◌then◌else◌,
}
use dbgp_tools.Base.Int.{pos}
use dbgp_tools.Go.Net.{Conn, arriving, close}
use dbgp_tools.Go.Stream.{Event}
use dbgp_tools.Go.Stream.Laws.{OnlyChunks, bytes_of}
use dbgp_tools.Connections.{Registry, Connection, Pointer, ConnectionControl}
use dbgp_tools.Connections.Calls.{targets}
use dbgp_tools.Connections.Refinement.{view}
use dbgp_tools.Connections.WellFormed.{IsWellFormed}
use dbgp_tools.Dbgpxml.Message
use dbgp_tools.Dbgpxml.Message.{Printer}
use dbgp_tools.Dbgpxml.ProxyStop.{
  as_xml, as_xml-NoZero, is_valid_xml-as_xml, is_success, ProxyStop, new_proxy_stop,
}
use dbgp_tools.Protocol.Client.{DbgpClient, new_dbgp_client}
use dbgp_tools.Protocol.Formatting.{Decoder, format_xml}
use dbgp_tools.Protocol.RunAndQuit.{run_and_quit, QuitResult}
use dbgp_tools.Protocol.RunAndQuit.Outcome.{run_and_quit-frame, expected}
use dbgp_tools.Protocol.Server.{frame}
use dbgp_tools.Proxy.ClientHandler.{serve, done}
use dbgp_tools.ClientTool.Register.{unregister_command}
use dbgp_tools.ClientTool.Proxy.{Env, Flags, finished, unregister_with_proxy}
use dbgp_tools.ClientTool.Proxy.Success.{unregister_with_proxy_succeeds}
use dbgp_tools.ClientTool.Unregistration.{IsStoppable, line, serve_unregisters}

-- The answer of success.
abbrev pub success : Bytes → ProxyStop
success key = new_proxy_stop true key none

-- An answer that is decoded as a message that says success is no error.
expected_succeeds :
    (d : Decoder) (p : Printer) (show_xml : Bool) (c : DbgpClient) (key : Bytes) (read : ProxyStop)
    → format_xml d c (as_xml (success key) ++ 0 ∷ []) ≡ some (Message.proxy_stop read)
    → read.success ≡ pos 1
    → (expected d p show_xml c (as_xml (success key) ++ 0 ∷ [])).0 ≡ QuitResult.succeeded
unfolding Message.is_success is_success
expected_succeeds d p show_xml c key read understood kept =
    rw (is_valid_xml-as_xml (success key) (0 ∷ []), understood, kept) refl

no_targets :
    (heap : Pointer → Connection) (sends : List (Pointer × ConnectionControl))
    → targets heap sends ≡ []
    → sends ≡ []
no_targets heap [] e = refl
no_targets heap (send ∷ sends) e = cc

module _ (env : Env) (f : Flags) (address key host sid : Bytes) (r : Registry) (old : Connection)
    (there : List Event) (conn : Conn) (ok_input : IsStoppable new_dbgp_client key)
    (w : IsWellFormed r) (here : view r key ≡ some old)
    (dialled : env.dial f.ssl address ≡ some conn) (unused : conn.sent ≡ [])
    (quiet : conn.faults ≡ []) (calm : OnlyChunks conn.events) (calm' : OnlyChunks there)
    (unclaimed : old.claimed ≡ false) (read : ProxyStop) (kept : read.success ≡ pos 1)
    (understood : (c : DbgpClient)
      → format_xml env.decoder c (as_xml (success key) ++ 0 ∷ [])
        ≡ some (Message.proxy_stop read)) where
  -- The flag that unregisters from a proxy works from end to end. Let the key have no space and no byte
  -- 0, end in a printable ASCII character and not be "-i", and let the proxy's list be well-formed and
  -- lead from it to a connection that is not claimed, so that RemoveByKey has nothing to send; let the address lead to a connection on which nothing was written, no
  -- write fails and nothing interrupts the reading, and let the XML parsers make of the answer of
  -- success a message of the same kind, in which the attribute "success" is 1. If the proxy reads what this client writes, however the network cuts it, and this client
  -- reads what the proxy answers, then the command ends without an error, having written its line and
  -- closed its one connection, the proxy's list leads from the key to nothing and from every other key
  -- to what it led to before, and no control message is sent.
  pub unregister_with_proxy_unregisters :
      bytes_of there ≡ line new_dbgp_client key ++ 0 ∷ []
      → bytes_of conn.events ≡ (serve host sid r (arriving there)).conn.sent
      → let ran = unregister_with_proxy env f address key in
        let out = serve host sid r (arriving there) in
        (ran.result ≡ finished)
        × ((last : Conn) × (ran.conns ≡ last ∷ [])
            × (last.closed ≡ true)
            × (last.sent ≡ bytes_of there))
        × (out.outcome ≡ done)
        × ((j : Bytes) → view out.registry j ≡ (if key == j then none else view r j))
        × (out.sends ≡ [])
  unfolding close
  unregister_with_proxy_unregisters written returned =
      let (served, views, closes, sent) =
        serve_unregisters new_dbgp_client key ok_input host sid r old there w here calm' written in
      let arrived : bytes_of conn.events ≡ frame (as_xml (success key)) ++ [] =
        returned ∙ sent ∙ sym (append-nil (frame (as_xml (success key)))) in
      let (judged, wrote, _) =
        run_and_quit-frame env.decoder env.printer f.show_xml (unregister_command key) conn
          (as_xml (success key)) [] quiet calm (as_xml-NoZero (success key)) arrived in
      let q = run_and_quit env.decoder env.printer conn (unregister_command key) f.show_xml in
      let won : q.result ≡ QuitResult.succeeded =
        ap (λ x. x.0) judged
        ∙ expected_succeeds env.decoder env.printer f.show_xml q.client key read
            (understood q.client) kept in
      let ran = unregister_with_proxy_succeeds env f address key conn dialled won in
      (
        ap (λ x. x.result) ran,
        (
          _,
          ap (λ x. x.conns) ran,
          refl,
          wrote ∙ ap (λ x. x ++ (line new_dbgp_client key ++ 0 ∷ [])) unused ∙ sym written,
        ),
        served,
        views,
        no_targets r.heap _ (closes ∙ rw unclaimed refl),
      )
