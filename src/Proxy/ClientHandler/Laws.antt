-- ===== src/Proxy/ClientHandler/Laws.antt =====
-- A command that is understood is carried out once, and its answer is the one packet that is sent.
use dbgp_tools.Base.{Bytes, ◌≡◌, ap, ◌∙◌, [], ◌++◌}
use dbgp_tools.Go.Net.{Conn}
use dbgp_tools.Connections.{Registry}
use dbgp_tools.Protocol.Server.{DbgpCommand, handle, Failure, command, failure, read_command, frame}
use dbgp_tools.Protocol.Server.Laws.{sent-read_command, send_response_unfailing}
use dbgp_tools.Proxy.ClientHandler.{done, no_command, serve}

-- A command that is read is carried out once, on the list as it was, and if no write fails its
-- answer is the one packet that is written, and Handle returns no error.
pub serve-command :
    (host sid : Bytes) (r : Registry) (conn : Conn) (cmd : DbgpCommand)
    → (read_command host [] conn).received ≡ command cmd
    → conn.faults ≡ []
    → let out = serve host sid r conn in
      let h = handle sid cmd r in
      (out.outcome ≡ done)
      × (out.registry ≡ h.registry)
      × (out.sends ≡ h.sends)
      × (out.conn.sent ≡ conn.sent ++ frame h.answer)
unfolding serve
serve-command host sid r conn cmd e calm =
    let rd = read_command host [] conn in
    let h = handle sid cmd r in
    let quiet = sent-read_command host [] conn in
    let w = send_response_unfailing h.answer rd.conn (quiet.1 ∙ calm) in
    (rw (e, w), rw e, rw e, rw (e, w) (ap (λ s. s ++ frame h.answer) quiet.0))

-- A command that cannot be read, or is refused by its parser, leaves the list as it was, and
-- nothing is written or sent to a control channel.
pub serve-failure :
    (host sid : Bytes) (r : Registry) (conn : Conn) (f : Failure)
    → (read_command host [] conn).received ≡ failure f
    → let out = serve host sid r conn in
      (out.outcome ≡ no_command f)
      × (out.registry ≡ r)
      × (out.sends ≡ [])
      × (out.conn.sent ≡ conn.sent)
unfolding serve
serve-failure host sid r conn f e =
    let quiet = sent-read_command host [] conn in (rw e, rw e, rw e, rw e quiet.0)
