-- ===== src/Command/CloudInit.antt =====
-- lib/command/cloudinit.go; its laws are in the modules below.
pub mod Parsing
pub mod Effect
use dbgp_tools.Base.{
  Bytes, codes, ◌==◌, if◌then◌else◌, ℕ, Bool, true, false, Option, none, some, List, [],
}
use dbgp_tools.Connections
use dbgp_tools.Connections.{Registry, Pointer, ConnectionControl, error_text, remove_by_key}
use dbgp_tools.Connections.Calls.{register_new}
use dbgp_tools.Command.{Error, unknown_argument, no_username, Result, ok, err, ◌>>=◌, Handled}
use dbgp_tools.Command.Arguments.{flag_i, flag_u, parse_arguments}
use dbgp_tools.Dbgpxml.CloudInit.{new_cloud_init, as_xml}

pub record CloudInitCommand : Type 0 where
  pub connection : ℕ
  pub user_id : Bytes
  pub needs_removing : Bool

-- NewCloudInitCommand; the network connection is named by a number
unfoldable pub new_cloud_init_command : ℕ → CloudInitCommand
new_cloud_init_command conn = record { connection = conn; user_id = []; needs_removing = true }

-- The switch of the loop.
assign : Bytes → Bytes → CloudInitCommand → Result CloudInitCommand
assign flag value c =
    if flag == flag_i
    then ok c
    else if flag == flag_u
    then ok (record c { user_id = value })
    else err (unknown_argument flag value)

check_key : CloudInitCommand → Result CloudInitCommand
check_key c = if c.user_id == [] then err no_username else ok c

-- CreateCloudInit
unfoldable pub create_cloud_init : ℕ → List Bytes → Result CloudInitCommand
unfolding new_cloud_init_command assign check_key parse_arguments
create_cloud_init conn arguments =
    parse_arguments assign arguments (new_cloud_init_command conn) >>= check_key

abbrev pub get_name : CloudInitCommand → Bytes
get_name c = codes "cloudinit"

abbrev pub get_key : CloudInitCommand → Bytes
get_key c = c.user_id

-- The command after Add: with an error there is nothing of its own to remove.
abbrev pub after_add : CloudInitCommand → Option Connections.Error → CloudInitCommand
after_add c none = c
after_add c (some e) = record c { needs_removing = false }

-- What a method of the command leaves: the command, the list, and the error of Add.
pub record Acted : Type 0 where
  pub command : CloudInitCommand
  pub registry : Registry
  pub error : Option Connections.Error

-- ciCommand.ActUponConnection(); `sid` is the random UUID of the new connection
unfoldable pub act_upon_connection : Bytes → CloudInitCommand → Registry → Acted
unfolding register_new
act_upon_connection sid c r =
    let (r', e) = register_new c.user_id [] [] true (some c.connection) sid r in
    record { command = after_add c e; registry = r'; error = e }

-- ciCommand.Close(), with what RemoveByKey waits to send, if anything; the error is dropped
unfoldable pub close : CloudInitCommand → Registry → Registry × List (Pointer × ConnectionControl)
unfolding remove_by_key
close c r =
    let out = remove_by_key c.user_id r in
    if c.needs_removing then (out.registry, out.sends) else (r, [])

-- The answer, from the error of Add.
unfoldable pub answer : CloudInitCommand → Option Connections.Error → Bytes
answer c none = as_xml (new_cloud_init true c.user_id none false none)
answer c (some e) = as_xml (
    new_cloud_init false c.user_id
      (some (record { id = codes "CLOUD-ERR-11"; message = error_text e })) false none)

-- ciCommand.Handle()
unfoldable pub handle : Bytes → CloudInitCommand → Registry → CloudInitCommand × Handled
unfolding register_new answer
handle sid c r =
    let (r', e) = register_new c.user_id [] [] true (some c.connection) sid r in
    (after_add c e, record { registry = r'; answer = answer c e; sends = [] })
