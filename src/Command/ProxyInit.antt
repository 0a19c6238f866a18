-- ===== src/Command/ProxyInit.antt =====
-- lib/command/proxyinit.go; its laws are in the modules below.
pub mod Parsing
pub mod Effect
use dbgp_tools.Base.{
  Bytes, codes, ◌==◌, if◌then◌else◌, Bool, true, false, Option, none, some, List, [],
}
use dbgp_tools.Base.Int.{ℤ, pos, is_int}
use dbgp_tools.Go.Decimal.{itoa, atoi}
use dbgp_tools.Connections.{Registry, error_text}
use dbgp_tools.Connections
use dbgp_tools.Connections.Calls.{register_new}
use dbgp_tools.Dbgpxml.ProxyInit.{new_proxy_init, as_xml}
use dbgp_tools.Command.{
  Error, bad_port, bad_ssl, unknown_argument, no_ide_key, Result, ok, err, ◌>>=◌, Handled,
}
use dbgp_tools.Command.Arguments.{flag_i, flag_p, flag_k, flag_m, flag_s, parse_arguments}

pub record ProxyInitCommand : Type 0 where
  pub ide_key : Bytes
  pub ip_address : Bytes
  pub port : ℤ
  pub multiple_supported : Bool
  pub ssl : Bool

-- NewProxyInitCommand
unfoldable pub new_proxy_init_command : Bytes → ProxyInitCommand
new_proxy_init_command ip = record {
  ide_key = [];
  ip_address = ip;
  port = pos 9003;
  multiple_supported = false;
  ssl = false;
}

assign_port : Bytes → Option ℤ → ProxyInitCommand → Result ProxyInitCommand
assign_port value none c = err (bad_port value)
assign_port value (some port) c = ok (record c { port = port })

assign_ssl : Bytes → Option ℤ → ProxyInitCommand → Result ProxyInitCommand
assign_ssl value none c = err (bad_ssl value)
assign_ssl value (some ssl) c = ok (record c { ssl = is_int ssl (pos 1) })

-- The switch of the loop.
assign : Bytes → Bytes → ProxyInitCommand → Result ProxyInitCommand
unfolding assign_port assign_ssl
assign flag value c =
    if flag == flag_i
    then ok c
    else if flag == flag_p
    then assign_port value (atoi value) c
    else if flag == flag_k
    then ok (record c { ide_key = value })
    else if flag == flag_m
    then ok (if value == codes "1" then record c { multiple_supported = true } else c)
    else if flag == flag_s
    then assign_ssl value (atoi value) c
    else err (unknown_argument flag value)

check_key : ProxyInitCommand → Result ProxyInitCommand
check_key c = if c.ide_key == [] then err no_ide_key else ok c

-- CreateProxyInit
unfoldable pub create_proxy_init : Bytes → List Bytes → Result ProxyInitCommand
unfolding new_proxy_init_command assign check_key parse_arguments
create_proxy_init ip arguments =
    parse_arguments assign arguments (new_proxy_init_command ip) >>= check_key

abbrev pub get_name : ProxyInitCommand → Bytes
get_name c = codes "proxyinit"

-- The answer, from the error of Add.
unfoldable pub answer : ProxyInitCommand → Option Connections.Error → Bytes
answer c none = as_xml (new_proxy_init true c.ide_key c.ip_address c.port c.ssl none)
answer c (some e) = as_xml (
    new_proxy_init false c.ide_key c.ip_address c.port c.ssl
      (some (record { id = codes "PROXY-ERR-01"; message = error_text e })))

-- piCommand.Handle(); `sid` is the random UUID of the new connection
unfoldable pub handle : Bytes → ProxyInitCommand → Registry → Handled
unfolding register_new answer
handle sid c r =
    let (r', e) = register_new c.ide_key c.ip_address (itoa c.port) c.ssl none sid r in
    record { registry = r'; answer = answer c e; sends = [] }
