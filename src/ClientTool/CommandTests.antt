-- ===== src/ClientTool/CommandTests.antt =====
-- The theorems of the client's flags and of its sessions, at concrete values.
use dbgp_tools.ClientTool.Clients.{run_as_cloud_client, running}
use dbgp_tools.ClientTool.Clients.Termination.{run_as_cloud_client_ends}
use dbgp_tools.Base.{
  codes, Bytes, ◌==◌, ◌≡◌, ◌≢◌, refl, true, false, none, some, [], ◌∷◌, ◌++◌, List, append-nil,
  if◌then◌else◌, arith, All,
}
use dbgp_tools.Base.Int.{pos}
use dbgp_tools.Go.Decimal.{itoa}
use dbgp_tools.Go.Net.{Conn, arriving}
use dbgp_tools.Go.Stream.{chunk}
use dbgp_tools.Go.Stream.Laws.{bytes_of}
use dbgp_tools.Connections.Refinement.{view, fresh}
use dbgp_tools.Connections.Tests.{key, host, empty_list, empty_list-IsWellFormed, view-empty_list}
use dbgp_tools.Dbgpxml.ProxyInit.{ProxyInit, new_proxy_init}
use dbgp_tools.Dbgpxml.Message.{Printer}
use dbgp_tools.Protocol.Client.{new_dbgp_client, contains}
use dbgp_tools.Go.Text.{split, trim_space}
use dbgp_tools.Protocol.Formatting.{Decoder, format_xml, parse_response_xml}
use dbgp_tools.Protocol.Server.{frame}
use dbgp_tools.Proxy.ClientHandler.{serve, done}
use dbgp_tools.Proxy.SampleSession.{decoder}
use dbgp_tools.ClientTool.Proxy.{Env, Flags, finished, register_with_proxy}
use dbgp_tools.ClientTool.Registration.{success}
use dbgp_tools.ClientTool.Registration.Command.{register_with_proxy_registers}
use dbgp_tools.ClientTool.Tests.{key-IsRegistrable, there}
use dbgp_tools.ClientTool.Session.{Input, end_of_input, Setting, handle_connection, unfinished}
use dbgp_tools.ClientTool.Session.Writing.{commands, terminated, Numbered, IsPlain}
use dbgp_tools.ClientTool.Session.Numbering.{handle_connection-Numbered}
use dbgp_tools.ClientTool.Session.Termination.{handle_connection_ends}

abbrev pub printer : Printer
printer = record {
  paint = λ bold colour text. text;
  decode_base64 = λ text. text;
  format_float = λ n. [];
}

-- The answer as encoding/xml reads it, which puts nothing into a field tagged `xmlns:xdebug,attr`.
abbrev read_answer : ProxyInit
read_answer = record (success new_dbgp_client key 9003 false host) { xml_ns_xdebug = [] }

-- A decoder that reads the answer of success, and nothing else.
abbrev pub proxy_decoder : Decoder
proxy_decoder = record decoder {
  response = λ text. record { value = (decoder.response text).value; failed = true };
  init = λ text. record { value = (decoder.init text).value; failed = true };
  proxy_init = λ text. record { value = read_answer; failed = false };
}

abbrev sid : Bytes
sid = codes "sid-1"

abbrev to_proxy : Conn
to_proxy = arriving (chunk ((serve host sid (empty_list false) (arriving there)).conn.sent) ∷ [])

abbrev pub env : Env
env = record { dial = λ ssl address. some to_proxy; decoder = proxy_decoder; printer = printer }

abbrev pub flags : Flags
flags = record {
  help = false;
  version = false;
  once = false;
  show_xml = false;
  port = pos 9003;
  proxy = codes "localhost:9001";
  register = key;
  unregister = [];
  ssl = false;
  cloud_user = [];
  discloud_user = [];
}

register_with_proxy_registers_example :
    let ran = register_with_proxy env flags (codes "localhost:9001") key in
    let out = serve host sid (empty_list false) (arriving there) in
    (ran.result ≡ finished)
    × ((last : Conn) × (ran.conns ≡ last ∷ [])
        × (last.closed ≡ true)
        × (last.sent ≡ bytes_of there))
    × (out.outcome ≡ done)
    × ((j : Bytes)
        → view out.registry j ≡ (
            if key == j
            then some (fresh key host (itoa (pos 9003)) false none sid)
            else view (empty_list false) j))
unfolding format_xml parse_response_xml new_proxy_init
register_with_proxy_registers_example =
    register_with_proxy_registers env flags (codes "localhost:9001") key host sid 9003
      (empty_list false) there to_proxy key-IsRegistrable refl (empty_list-IsWellFormed false)
      (view-empty_list false key) refl refl refl (tt, tt) (tt, tt) read_answer refl (λ c. refl)
      (append-nil _) (append-nil _)

abbrev setting : Setting
setting = record { decoder = decoder; printer = printer; show_xml = false }

abbrev inputs : List Input
inputs = Input.line (codes "run") ∷ Input.line [] ∷ end_of_input ∷ []

abbrev engine : Conn
engine = arriving (chunk (frame (codes "<?xml 1") ++ frame (codes "<?xml 2")) ∷ [])

plain : All IsPlain (commands [] inputs)
unfolding ◌==◌ contains split trim_space
plain = (refl, (refl, tt))

handle_connection-Numbered_example :
    let s = (handle_connection 100 setting engine inputs []).session in
    (lines : List Bytes) × (rest : List Bytes) × (texts : List Bytes) × (commands [] inputs
      ≡ lines ++ rest)
    × (s.conn.sent ≡ engine.sent ++ terminated texts)
    × Numbered 1 lines texts
handle_connection-Numbered_example =
    handle_connection-Numbered 100 setting engine inputs [] refl plain

handle_connection_ends_example : (handle_connection 100 setting engine inputs []).ended ≢ unfinished
unfolding frame itoa
handle_connection_ends_example = handle_connection_ends 100 setting engine inputs [] (omega arith)

-- The engine of the cloud sends two packets, and nothing that ends a session.
run_as_cloud_client_ends_example :
    (run_as_cloud_client 100 100 setting
      (λ e. [])
      (codes "cloud.xdebug.com")
      []
      (codes "u1")
      (some engine)
      (record { inputs = inputs; interrupts = []; screen = [] })).ended
    ≢ running
unfolding frame itoa
run_as_cloud_client_ends_example =
    run_as_cloud_client_ends 100 100 setting (λ e. []) (codes "cloud.xdebug.com") [] (codes "u1")
      engine (record { inputs = inputs; interrupts = []; screen = [] }) (omega arith) (omega arith)
