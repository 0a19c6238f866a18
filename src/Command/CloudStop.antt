-- ===== src/Command/CloudStop.antt =====
-- lib/command/cloudstop.go; its laws are in the modules below.
pub mod Parsing
pub mod Effect
use dbgp_tools.Base.{
  Bytes, codes, ◌==◌, if◌then◌else◌, ℕ, Bool, true, false, Option, none, some, List, [],
}
use dbgp_tools.Connections
use dbgp_tools.Connections.{Registry, error_text, remove_by_key}
use dbgp_tools.Command.{Error, unknown_argument, no_username, Result, ok, err, ◌>>=◌, Handled}
use dbgp_tools.Command.Arguments.{flag_i, flag_u, parse_arguments}
use dbgp_tools.Dbgpxml.CloudStop.{new_cloud_stop, as_xml}

pub record CloudStopCommand : Type 0 where
  pub connection : ℕ
  pub user_id : Bytes
  pub needs_removing : Bool

-- NewCloudStopCommand; the network connection is named by a number
unfoldable pub new_cloud_stop_command : ℕ → CloudStopCommand
new_cloud_stop_command conn = record { connection = conn; user_id = []; needs_removing = true }

-- The switch of the loop.
assign : Bytes → Bytes → CloudStopCommand → Result CloudStopCommand
assign flag value c =
    if flag == flag_i
    then ok c
    else if flag == flag_u
    then ok (record c { user_id = value })
    else err (unknown_argument flag value)

check_key : CloudStopCommand → Result CloudStopCommand
check_key c = if c.user_id == [] then err no_username else ok c

-- CreateCloudStop
unfoldable pub create_cloud_stop : ℕ → List Bytes → Result CloudStopCommand
unfolding new_cloud_stop_command assign check_key parse_arguments
create_cloud_stop conn arguments =
    parse_arguments assign arguments (new_cloud_stop_command conn) >>= check_key

abbrev pub get_name : CloudStopCommand → Bytes
get_name c = codes "cloudstop"

abbrev pub get_key : CloudStopCommand → Bytes
get_key c = c.user_id

-- csCommand.ActUponConnection()
unfoldable pub act_upon_connection : CloudStopCommand → Registry → Connections.Removal
unfolding remove_by_key
act_upon_connection c r = remove_by_key c.user_id r

-- csCommand.Close() does nothing.
abbrev pub close : CloudStopCommand → Registry → Registry
close c r = r

-- The answer, from the error of RemoveByKey.
unfoldable pub answer : CloudStopCommand → Option Connections.Error → Bytes
answer c none = as_xml (new_cloud_stop true c.user_id none)
answer c (some e) = as_xml (
    new_cloud_stop false c.user_id
      (some (record { id = codes "CLOUD-ERR-10"; message = error_text e })))

-- csCommand.Handle(); where `sends` is not empty, RemoveByKey waits to send and no answer is returned
unfoldable pub handle : CloudStopCommand → Registry → Handled
unfolding answer
handle c r =
    let out = remove_by_key c.user_id r in
    record { registry = out.registry; answer = answer c out.error; sends = out.sends }
