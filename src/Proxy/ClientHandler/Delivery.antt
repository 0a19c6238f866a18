-- ===== src/Proxy/ClientHandler/Delivery.antt =====
-- The answer to a command on its way back to the IDE.
use dbgp_tools.Base.{
  Bytes, ◌≡◌, ap, ◌∙◌, sym, [], ◌∷◌, ◌++◌, append-nil, List, Lacks, true, none, some, Option, refl,
}
use dbgp_tools.Go.Net.{Conn, arriving}
use dbgp_tools.Go.Stream.{Event}
use dbgp_tools.Go.Stream.Laws.{bytes_of, OnlyChunks}
use dbgp_tools.Connections.{Registry, Error}
use dbgp_tools.Connections.Unclaimed.{Unclaimed, remove_by_key-sends}
use dbgp_tools.Command.ProxyInit
use dbgp_tools.Command.ProxyStop
use dbgp_tools.Command.ProxyInit.{ProxyInitCommand}
use dbgp_tools.Command.ProxyStop.{ProxyStopCommand}
use dbgp_tools.Protocol.Server.{
  DbgpCommand, proxy_init, proxy_stop, handle, command, read_command, frame,
}
use dbgp_tools.Protocol.Client.{DbgpClient, read_response}
use dbgp_tools.Protocol.Client.Packets.{Gets, read_response-frame}
use dbgp_tools.Dbgpxml.Common.{is_valid_xml}
use dbgp_tools.Dbgpxml.ProxyInit as ProxyInitXml
use dbgp_tools.Dbgpxml.ProxyStop as ProxyStopXml
use dbgp_tools.Proxy.ClientHandler.{serve}
use dbgp_tools.Proxy.ClientHandler.Laws.{serve-command}

handle-answer-NoZero :
    (sid : Bytes) (cmd : DbgpCommand) (r : Registry) → Lacks 0 (handle sid cmd r).answer
unfolding handle
handle-answer-NoZero sid (proxy_init c) r = ProxyInit.Effect.answer-NoZero c _
handle-answer-NoZero sid (proxy_stop c) r = ProxyStop.Effect.answer-NoZero c _

proxy_init-is_valid_xml :
    (c : ProxyInitCommand) (e : Option Error) (rest : Bytes)
    → is_valid_xml (ProxyInit.answer c e ++ rest) ≡ true
unfolding ProxyInit.answer
proxy_init-is_valid_xml c none rest = ProxyInitXml.is_valid_xml-as_xml _ rest
proxy_init-is_valid_xml c (some e) rest = ProxyInitXml.is_valid_xml-as_xml _ rest

proxy_stop-is_valid_xml :
    (c : ProxyStopCommand) (e : Option Error) (rest : Bytes)
    → is_valid_xml (ProxyStop.answer c e ++ rest) ≡ true
unfolding ProxyStop.answer
proxy_stop-is_valid_xml c none rest = ProxyStopXml.is_valid_xml-as_xml _ rest
proxy_stop-is_valid_xml c (some e) rest = ProxyStopXml.is_valid_xml-as_xml _ rest

handle-answer-is_valid_xml :
    (sid : Bytes) (cmd : DbgpCommand) (r : Registry) (rest : Bytes)
    → is_valid_xml ((handle sid cmd r).answer ++ rest) ≡ true
unfolding handle
handle-answer-is_valid_xml sid (proxy_init c) r rest = proxy_init-is_valid_xml c _ rest
handle-answer-is_valid_xml sid (proxy_stop c) r rest = proxy_stop-is_valid_xml c _ rest

handle-sends :
    (sid : Bytes) (cmd : DbgpCommand) (r : Registry) → Unclaimed r → (handle sid cmd r).sends ≡ []
unfolding handle ProxyInit.handle ProxyStop.handle
handle-sends sid (proxy_init c) r free = refl
handle-sends sid (proxy_stop c) r free = remove_by_key-sends c.ide_key r free

-- Whatever the command and the list, if none of its connections is claimed (RemoveByKey would wait),
-- and if the proxy reads the command, had written nothing before and no write fails, an IDE with an
-- empty buffer that reads the bytes the proxy wrote, however the network cut them, gets the answer of
-- that command, all of it and nothing else, with a byte 0 behind it; no control message is sent; and
-- the answer begins as IsValidXml asks, so that no client refuses to parse it.
pub serve-read_response :
    (host sid : Bytes) (r : Registry) (conn : Conn) (cmd : DbgpCommand) (c : DbgpClient)
    (back : List Event)
    → Unclaimed r
    → (read_command host [] conn).received ≡ command cmd
    → conn.faults ≡ []
    → conn.sent ≡ []
    → c.buffer ≡ []
    → OnlyChunks back
    → bytes_of back ≡ (serve host sid r conn).conn.sent
    → Gets (read_response c (arriving back)) ((handle sid cmd r).answer ++ 0 ∷ []) []
      × (is_valid_xml ((handle sid cmd r).answer ++ 0 ∷ []) ≡ true)
      × ((serve host sid r conn).sends ≡ [])
serve-read_response host sid r conn cmd c back free read calm fresh empty calm' returned =
    let answer = (handle sid cmd r).answer in
    let (_, _, told, sent) = serve-command host sid r conn cmd read calm in
    let same : bytes_of back ≡ frame answer ++ [] =
      returned ∙ sent ∙ ap (λ s. s ++ frame answer) fresh ∙ sym (append-nil (frame answer)) in
    (
      read_response-frame c (arriving back) answer [] calm' (handle-answer-NoZero sid cmd r)
          (ap (λ b. b ++ bytes_of back) empty ∙ same),
      handle-answer-is_valid_xml sid cmd r (0 ∷ []),
      told ∙ handle-sends sid cmd r free,
    )
