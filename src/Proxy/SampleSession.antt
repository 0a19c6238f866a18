-- ===== src/Proxy/SampleSession.antt =====
-- A session with Xdebug for tests, and a decoder that knows three texts.
use dbgp_tools.Proxy.ServerHandler.{World}
use dbgp_tools.Base.{
  codes, Bytes, ◌==◌, true, false, none, [], ◌∷◌, ◌++◌, List, if◌then◌else◌, Option,
}
use dbgp_tools.Base.Int.{pos}
use dbgp_tools.Go.Net.{Conn, arriving}
use dbgp_tools.Go.Stream.{Event, chunk}
use dbgp_tools.Connections.Tests.{key}
use dbgp_tools.Dbgpxml.Init.{Init}
use dbgp_tools.Dbgpxml.Breakpoint.{Breakpoint}
use dbgp_tools.Dbgpxml.Response.{Response}
use dbgp_tools.Dbgpxml.Response.Property.{nil}
use dbgp_tools.Dbgpxml.ProxyInit.{new_proxy_init}
use dbgp_tools.Dbgpxml.ProxyStop.{new_proxy_stop}
use dbgp_tools.Dbgpxml.CloudInit.{new_cloud_init}
use dbgp_tools.Dbgpxml.CloudStop.{new_cloud_stop}
use dbgp_tools.Protocol.Server.{frame}
use dbgp_tools.Protocol.Formatting.{Decoder}
use dbgp_tools.Proxy.Forwarder.Transparency.{frames}

abbrev pub first : Bytes
first = codes "<i/>"

abbrev pub step_packet : Bytes
step_packet = codes "<r/>"

abbrev pub stop_packet : Bytes
stop_packet = codes "<s/>"

abbrev pub reply : Bytes
reply = codes "<?xml"

abbrev pub initial : Init
initial = record {
  xml_ns = [];
  xml_ns_xdebug = [];
  file_uri = [];
  language = [];
  language_version = [];
  protocol_version = [];
  app_id = [];
  ide_key = key;
  cloud_user_id = [];
  engine = record { version = []; value = [] };
  author = [];
  url = [];
  copyright = [];
}

abbrev pub answer : Bytes → Response
answer command = record {
  xml_ns = [];
  xml_ns_xdebug = [];
  tid = [];
  id = [];
  command = command;
  status = [];
  success = pos 1;
  supported = pos 0;
  feature = [];
  feature_name = [];
  reason = [];
  encoding = [];
  stack = [];
  contexts = [];
  typemap = [];
  message = record { filename = []; line_no = pos 0 };
  error = none;
  breakpoints = [];
  property = nil;
  value = [];
  last_source_begin = pos 1;
}

abbrev pub breakpoint : Breakpoint
breakpoint = record {
  id = pos 0;
  type = [];
  state = [];
  resolved = [];
  filename = [];
  line_no = pos 0;
  classname = [];
  function = [];
  exception = [];
  hit_value = pos 0;
  hit_count = pos 0;
  hit_condition = [];
  expression = record { encoding = []; value = [] };
}

abbrev pub decoder : Decoder
decoder = record {
  response = λ text. record {
    value = answer (if text == stop_packet ++ 0 ∷ [] then codes "stop" else []);
    failed = text == first ++ 0 ∷ [];
  };
  ctrl_response = λ text. record {
    value = record {
      xml_ns_xdebug = [];
      ps = record {
        success = false;
        file_uri_attribute = [];
        engine = record { version = []; value = [] };
        pid = [];
        file_uri = [];
        time = 0;
        memory = pos 0;
      };
      pause = record { success = false; pid = []; action_undertaken = [] };
      error = none;
      value = [];
    };
    failed = true;
  };
  init = λ text. record { value = initial; failed = false };
  notify = λ text. record {
    value = record { xml_ns = []; xml_ns_xdebug = []; name = []; breakpoint = breakpoint };
    failed = true;
  };
  stream = λ text. record {
    value = record { xml_ns = []; xml_ns_xdebug = []; type = []; encoding = []; value = [] };
    failed = true;
  };
  proxy_init =
      λ text. record { value = new_proxy_init true [] [] (pos 0) false none; failed = true };
  proxy_stop = λ text. record { value = new_proxy_stop true [] none; failed = true };
  cloud_init = λ text. record { value = new_cloud_init true [] none false none; failed = true };
  cloud_stop = λ text. record { value = new_cloud_stop true [] none; failed = true };
}

-- What Xdebug sends behind the first packet.
abbrev pub session : List Event
session = chunk (frames (step_packet ∷ []) ++ (frame stop_packet ++ frame reply)) ∷ []

abbrev pub world : Option Conn → World
world ide = record {
  decoder = decoder;
  network = record { keys_missing = false; tls_dial = λ a. ide; net_dial = λ a. ide };
  fuel = 2;
  ended = [];
  meanwhile = λ r. r;
}

abbrev pub from_xdebug : Conn
from_xdebug = arriving (chunk (codes "4" ++ 0 ∷ (first ++ 0 ∷ [])) ∷ session)
