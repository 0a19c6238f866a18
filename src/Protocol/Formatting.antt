-- ===== src/Protocol/Formatting.antt =====
-- lib/protocol/dbgp-client.go: FormatXML, with the decoder of encoding/xml as a parameter, and
-- RunCommand, which panics where it calls a method of the nil that FormatXML may return.
pub mod Replies
pub mod Listing
use dbgp_tools.Base.{Bytes, Bool, if◌then◌else◌, Option, none, some}
use dbgp_tools.Go.Net.{Conn}
use dbgp_tools.Go.Stream.{ReadError}
use dbgp_tools.Dbgpxml.Common.{is_valid_xml}
use dbgp_tools.Dbgpxml.Response
use dbgp_tools.Dbgpxml.CtrlResponse
use dbgp_tools.Dbgpxml.Init
use dbgp_tools.Dbgpxml.Notify
use dbgp_tools.Dbgpxml.Stream
use dbgp_tools.Dbgpxml.ProxyInit
use dbgp_tools.Dbgpxml.ProxyStop
use dbgp_tools.Dbgpxml.CloudInit
use dbgp_tools.Dbgpxml.CloudStop
use dbgp_tools.Dbgpxml.Message
use dbgp_tools.Protocol.Client.{
  DbgpClient, read_response, send_command, packet, timed_out, length_failed, data_failed,
}
use dbgp_tools.Protocol.Client as Client

-- What decoder.Decode leaves in the struct, and whether it returns an error.
pub record Decoded (A : Type 0) : Type 0 where
  pub value : A
  pub failed : Bool

-- xml.NewDecoder(text).Decode(&x), by the type of `x`
pub record Decoder : Type 0 where
  pub response : Bytes → Decoded Response.Response
  pub ctrl_response : Bytes → Decoded CtrlResponse.CtrlResponse
  pub init : Bytes → Decoded Init.Init
  pub notify : Bytes → Decoded Notify.Notify
  pub stream : Bytes → Decoded Stream.Stream
  pub proxy_init : Bytes → Decoded ProxyInit.ProxyInit
  pub proxy_stop : Bytes → Decoded ProxyStop.ProxyStop
  pub cloud_init : Bytes → Decoded CloudInit.CloudInit
  pub cloud_stop : Bytes → Decoded CloudStop.CloudStop

-- dbgp.ParseInitXML(text)
abbrev pub parse_init_xml : Decoder → Bytes → Decoded Init.Init
parse_init_xml d text = d.init text

abbrev pub parse_proxy_init_xml : Decoder → Bytes → Decoded ProxyInit.ProxyInit
parse_proxy_init_xml d text = d.proxy_init text

abbrev pub parse_proxy_stop_xml : Decoder → Bytes → Decoded ProxyStop.ProxyStop
parse_proxy_stop_xml d text = d.proxy_stop text

abbrev pub parse_cloud_init_xml : Decoder → Bytes → Decoded CloudInit.CloudInit
parse_cloud_init_xml d text = d.cloud_init text

abbrev pub parse_cloud_stop_xml : Decoder → Bytes → Decoded CloudStop.CloudStop
parse_cloud_stop_xml d text = d.cloud_stop text

abbrev pub parse_notify_xml : Decoder → Bytes → Decoded Notify.Notify
parse_notify_xml d text = d.notify text

abbrev pub parse_ctrl_response_xml : Decoder → Bytes → Decoded CtrlResponse.CtrlResponse
parse_ctrl_response_xml d text = d.ctrl_response text

abbrev pub parse_stream_xml : Decoder → Bytes → Decoded Stream.Stream
parse_stream_xml d text = d.stream text

-- dbgp.parseResponseXML(text), which also says where the last listing began
unfoldable pub parse_response_xml : Decoder → DbgpClient → Bytes → Decoded Response.Response
parse_response_xml d c text =
    let out = d.response text in
    record {
      value = record out.value { last_source_begin = c.last_source_begin };
      failed = out.failed;
    }

module _ {A : Type 0} where
  -- A parser that succeeds ends the search.
  abbrev pub or_next :
      (A → Message.Message) → Decoded A → Option Message.Message → Option Message.Message
  or_next message out next = if out.failed then next else some (message out.value)

-- dbgp.FormatXML(text)
unfoldable pub format_xml : Decoder → DbgpClient → Bytes → Option Message.Message
unfolding parse_response_xml
format_xml d c text = or_next Message.response (parse_response_xml d c text) (
    or_next Message.ctrl_response (parse_ctrl_response_xml d text) (
      or_next Message.init (parse_init_xml d text) (
        or_next Message.notify (parse_notify_xml d text) (
          or_next Message.stream (parse_stream_xml d text) (
            or_next Message.proxy_init (parse_proxy_init_xml d text) (
              or_next Message.proxy_stop (parse_proxy_stop_xml d text) (
                or_next Message.cloud_init (parse_cloud_init_xml d text)
                  (or_next Message.cloud_stop (parse_cloud_stop_xml d text) none))))))))

-- What RunCommand returns, or its panic.
pub data RunResult : Type 0 where
  succeeded panicked : RunResult
  write_failed : RunResult
  read_failed : ReadError → RunResult
  not_xml : Bytes → RunResult
  refused : Bytes → RunResult

pub record Ran : Type 0 where
  pub result : RunResult
  pub client : DbgpClient
  pub conn : Conn

-- The tests behind FormatXML: IsSuccess is called first, and panics on nil.
judge : Option Message.Message → RunResult
unfolding Message.is_success Message.get_error_message
judge none = panicked
judge (some m) = if Message.is_success m then succeeded else refused (Message.get_error_message m)

-- The tests behind ReadResponse. Without a deadline there is no timeout; its error would be returned.
run_result : Decoder → Client.Reading → RunResult
unfolding judge is_valid_xml format_xml
run_result d out = elim out.response [
  | packet text ↦ if is_valid_xml text then judge (format_xml d out.client text) else not_xml text
  | timed_out ↦ read_failed ReadError.timeout
  | length_failed e ↦ read_failed e
  | data_failed e ↦ read_failed e
]

run_sent : Decoder → Client.Sent → Ran
unfolding run_result read_response
run_sent d sent =
    let out = read_response sent.client sent.written.conn in
    if sent.written.failed
    then record { result = write_failed; client = sent.client; conn = sent.written.conn }
    else record { result = run_result d out; client = out.client; conn = out.conn }

-- dbgp.RunCommand(command)
unfoldable pub run_command : Decoder → Bytes → DbgpClient → Conn → Ran
unfolding run_sent send_command
run_command d line c conn = run_sent d (send_command line c conn)
