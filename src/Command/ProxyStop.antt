-- ===== src/Command/ProxyStop.antt =====
-- lib/command/proxystop.go; its laws are in the modules below.
pub mod Parsing
pub mod Effect
use dbgp_tools.Base.{Bytes, codes, ◌==◌, if◌then◌else◌, true, false, Option, none, some, List, []}
use dbgp_tools.Connections
use dbgp_tools.Connections.{Registry, error_text, remove_by_key}
use dbgp_tools.Command.{Error, unknown_argument, no_ide_key, Result, ok, err, ◌>>=◌, Handled}
use dbgp_tools.Command.Arguments.{flag_i, flag_k, parse_arguments}
use dbgp_tools.Dbgpxml.ProxyStop.{new_proxy_stop, as_xml}

pub record ProxyStopCommand : Type 0 where
  pub ide_key : Bytes

-- NewProxyStopCommand
unfoldable pub new_proxy_stop_command : ProxyStopCommand
new_proxy_stop_command = record { ide_key = [] }

-- The switch of the loop.
pub assign : Bytes → Bytes → ProxyStopCommand → Result ProxyStopCommand
assign flag value c =
    if flag == flag_i
    then ok c
    else if flag == flag_k
    then ok (record c { ide_key = value })
    else err (unknown_argument flag value)

check_key : ProxyStopCommand → Result ProxyStopCommand
check_key c = if c.ide_key == [] then err no_ide_key else ok c

-- CreateProxyStop
unfoldable pub create_proxy_stop : List Bytes → Result ProxyStopCommand
unfolding new_proxy_stop_command assign check_key parse_arguments
create_proxy_stop arguments = parse_arguments assign arguments new_proxy_stop_command >>= check_key

abbrev pub get_name : ProxyStopCommand → Bytes
get_name c = codes "proxystop"

-- The answer, from the error of RemoveByKey.
unfoldable pub answer : ProxyStopCommand → Option Connections.Error → Bytes
answer c none = as_xml (new_proxy_stop true c.ide_key none)
answer c (some e) = as_xml (
    new_proxy_stop false c.ide_key
      (some (record { id = codes "PROXY-ERR-02"; message = error_text e })))

-- piCommand.Handle(); where `sends` is not empty, RemoveByKey waits to send and no answer is returned
unfoldable pub handle : ProxyStopCommand → Registry → Handled
unfolding answer
handle c r =
    let out = remove_by_key c.ide_key r in
    record { registry = out.registry; answer = answer c out.error; sends = out.sends }
