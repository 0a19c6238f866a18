-- ===== src/Connections/Tests.antt =====
-- Runs of the list on small inputs, and the theorems of the list at them.
use dbgp_tools.Base.{
  codes, Bytes, ◌==◌, ◌≡◌, refl, true, false, Bool, none, some, [], ◌∷◌, List, arith,
}
use dbgp_tools.Base.Dict.{lookup, insert, delete}
use dbgp_tools.Connections.{
  Registry, new_connection_list, new_connection, add, update, already_connected,
}
use dbgp_tools.Connections.Calls.{Call, register, remove, claim, unclaim, step, run, register_new}
use dbgp_tools.Connections.Unclaimed.{Unclaimed}
use dbgp_tools.Connections.WellFormed.{
  IsWellFormed, new_connection_list-IsWellFormed, step-IsWellFormed,
  run-new_connection_list-IsWellFormed,
}
use dbgp_tools.Connections.Refinement.{
  view, fresh, spec_step, spec_run, Refines, step-Refines, run-new_connection_list,
}

abbrev pub key : Bytes
key = codes "phpstorm"

abbrev pub host : Bytes
host = codes "10.0.0.1"

abbrev pub port : Bytes
port = codes "9003"

abbrev pub empty_list : Bool → Registry
empty_list f = new_connection_list f

abbrev pub one_client : Bool → Registry
one_client f = (step (new_connection_list f) (register key host port false none (codes "sid-1"))).0

pub empty_list-IsWellFormed : (f : Bool) → IsWellFormed (empty_list f)
empty_list-IsWellFormed f = new_connection_list-IsWellFormed f

pub one_client-IsWellFormed : (f : Bool) → IsWellFormed (one_client f)
one_client-IsWellFormed f =
    step-IsWellFormed (new_connection_list f) (new_connection_list-IsWellFormed f)
      (register key host port false none (codes "sid-1"))

pub one_client-Unclaimed : (f : Bool) → Unclaimed (one_client f)
unfolding step register_new new_connection add new_connection_list update lookup insert
one_client-Unclaimed f p = ground arith

pub view-one_client :
    (f : Bool) → view (one_client f) key ≡ some (fresh key host port false none (codes "sid-1"))
unfolding step register_new new_connection add new_connection_list update lookup insert delete ◌==◌
view-one_client f = refl

pub one_client-force_add : (f : Bool) → (one_client f).force_add ≡ f
unfolding step register_new new_connection add new_connection_list update lookup insert delete ◌==◌
one_client-force_add f = refl

pub view-empty_list : (f : Bool) (k : Bytes) → view (empty_list f) k ≡ none
unfolding new_connection_list lookup
view-empty_list f k = refl

-- A client registers, a second one with the same key is refused, the first is claimed twice, and
-- is unregistered while it is claimed.
abbrev session : List Call
session =
    register key host port false none (codes "sid-1")
    ∷ register key (codes "10.0.0.2") port false none (codes "sid-2")
    ∷ claim key
    ∷ claim key
    ∷ remove key
    ∷ unclaim key
    ∷ []

run-new_connection_list_example :
    (run (new_connection_list false) session).1 ≡ spec_run false (λ k. none) session
run-new_connection_list_example = run-new_connection_list false session

run-new_connection_list-IsWellFormed_example :
    IsWellFormed (run (new_connection_list true) session).0
run-new_connection_list-IsWellFormed_example = run-new_connection_list-IsWellFormed true session

step-Refines_example :
    Refines
      (one_client true)
      (step (one_client true) (claim key)).0
      (step (one_client true) (claim key)).1
      (spec_step (one_client true).force_add (view (one_client true)) (claim key))
step-Refines_example = step-Refines (one_client true) (one_client-IsWellFormed true) (claim key)

second_refused :
    (step (one_client false) (register key host port true none [])).1.error
    ≡ some (already_connected key)
unfolding step register_new new_connection add new_connection_list update lookup insert delete ◌==◌
second_refused = refl
