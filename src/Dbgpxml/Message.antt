-- ===== src/Dbgpxml/Message.antt =====
-- The interface Response of lib/protocol/dbgp-client.go, as the sum of the structs that implement it,
-- with its methods by the struct.
use dbgp_tools.Base.{Bytes, Bool, ℕ, Option, some}
use dbgp_tools.Dbgpxml.Common.{Paint}
use dbgp_tools.Dbgpxml.Breakpoint.{Base64}
use dbgp_tools.Dbgpxml.Response.Format
use dbgp_tools.Dbgpxml.Response
use dbgp_tools.Dbgpxml.CtrlResponse
use dbgp_tools.Dbgpxml.Init
use dbgp_tools.Dbgpxml.Notify
use dbgp_tools.Dbgpxml.Stream
use dbgp_tools.Dbgpxml.ProxyInit
use dbgp_tools.Dbgpxml.ProxyStop
use dbgp_tools.Dbgpxml.CloudInit
use dbgp_tools.Dbgpxml.CloudStop

pub data Message : Type 0 where
  response : Response.Response → Message
  ctrl_response : CtrlResponse.CtrlResponse → Message
  init : Init.Init → Message
  notify : Notify.Notify → Message
  stream : Stream.Stream → Message
  proxy_init : ProxyInit.ProxyInit → Message
  proxy_stop : ProxyStop.ProxyStop → Message
  cloud_init : CloudInit.CloudInit → Message
  cloud_stop : CloudStop.CloudStop → Message

unfoldable pub is_success : Message → Bool
unfolding Response.is_success ProxyInit.is_success ProxyStop.is_success CloudInit.is_success
    CloudStop.is_success
is_success (response m) = Response.is_success m
is_success (ctrl_response m) = CtrlResponse.is_success m
is_success (init m) = Init.is_success m
is_success (notify m) = Notify.is_success m
is_success (stream m) = Stream.is_success m
is_success (proxy_init m) = ProxyInit.is_success m
is_success (proxy_stop m) = ProxyStop.is_success m
is_success (cloud_init m) = CloudInit.is_success m
is_success (cloud_stop m) = CloudStop.is_success m

unfoldable pub get_error_message : Message → Bytes
unfolding Response.get_error_message CtrlResponse.get_error_message ProxyInit.get_error_message
    ProxyStop.get_error_message CloudInit.get_error_message CloudStop.get_error_message
get_error_message (response m) = Response.get_error_message m
get_error_message (ctrl_response m) = CtrlResponse.get_error_message m
get_error_message (init m) = Init.get_error_message m
get_error_message (notify m) = Notify.get_error_message m
get_error_message (stream m) = Stream.get_error_message m
get_error_message (proxy_init m) = ProxyInit.get_error_message m
get_error_message (proxy_stop m) = ProxyStop.get_error_message m
get_error_message (cloud_init m) = CloudInit.get_error_message m
get_error_message (cloud_stop m) = CloudStop.get_error_message m

unfoldable pub expect_more_responses : Message → Bool
unfolding Response.expect_more_responses
expect_more_responses (response m) = Response.expect_more_responses m
expect_more_responses (ctrl_response m) = CtrlResponse.expect_more_responses m
expect_more_responses (init m) = Init.expect_more_responses m
expect_more_responses (notify m) = Notify.expect_more_responses m
expect_more_responses (stream m) = Stream.expect_more_responses m
expect_more_responses (proxy_init m) = ProxyInit.expect_more_responses m
expect_more_responses (proxy_stop m) = ProxyStop.expect_more_responses m
expect_more_responses (cloud_init m) = CloudInit.expect_more_responses m
expect_more_responses (cloud_stop m) = CloudStop.expect_more_responses m

unfoldable pub should_close_connection : Message → Bool
unfolding Response.should_close_connection
should_close_connection (response m) = Response.should_close_connection m
should_close_connection (ctrl_response m) = CtrlResponse.should_close_connection m
should_close_connection (init m) = Init.should_close_connection m
should_close_connection (notify m) = Notify.should_close_connection m
should_close_connection (stream m) = Stream.should_close_connection m
should_close_connection (proxy_init m) = ProxyInit.should_close_connection m
should_close_connection (proxy_stop m) = ProxyStop.should_close_connection m
should_close_connection (cloud_init m) = CloudInit.should_close_connection m
should_close_connection (cloud_stop m) = CloudStop.should_close_connection m

-- What the methods String use: the colours, base64, and the verb %8.2f for a float given by its bits.
pub record Printer : Type 0 where
  pub paint : Paint
  pub decode_base64 : Base64
  pub format_float : ℕ → Bytes

-- String, by the struct; it is `none` where it panics, on an error that is missing.
unfoldable pub to_string : Printer → Message → Option Bytes
unfolding Format.to_string CtrlResponse.to_string Init.to_string Notify.to_string Stream.to_string
    ProxyInit.to_string ProxyStop.to_string CloudInit.to_string CloudStop.to_string
to_string p (response m) = some (Format.to_string p.paint p.decode_base64 m)
to_string p (ctrl_response m) = some (CtrlResponse.to_string p.paint p.format_float m)
to_string p (init m) = some (Init.to_string p.paint m)
to_string p (notify m) = some (Notify.to_string p.paint p.decode_base64 m)
to_string p (stream m) = some (Stream.to_string p.paint p.decode_base64 m)
to_string p (proxy_init m) = ProxyInit.to_string p.paint m
to_string p (proxy_stop m) = ProxyStop.to_string p.paint m
to_string p (cloud_init m) = CloudInit.to_string p.paint m
to_string p (cloud_stop m) = CloudStop.to_string p.paint m
