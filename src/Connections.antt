-- ===== src/Connections.antt =====
-- lib/connections/connections.go: the list of the connected IDEs.
pub mod Calls
pub mod WellFormed
pub mod Refinement
pub mod Unclaimed
pub mod Tests
use dbgp_tools.Base.{
  Bytes, codes, eqb, if◌then◌else◌, ℕ, ◌+◌, Bool, true, false, Option, none, some, List, [], ◌∷◌,
  ◌++◌,
}
use dbgp_tools.Base.Dict.{lookup, delete, insert}

-- A pointer to a `Connection`.
abbrev pub Pointer : Type 0
Pointer = ℕ

-- `connection` names the network connection, if there is one. The two channels of the struct
-- belong to the object, so its pointer names them.
pub record Connection : Type 0 where
  pub ide_key : Bytes
  pub ip_address : Bytes
  pub port : Bytes
  pub ssl : Bool
  pub sid : Bytes
  pub connection : Option ℕ
  pub claimed : Bool

-- connection.IsSSL()
abbrev pub is_ssl : Connection → Bool
is_ssl c = c.ssl

abbrev pub get_key : Connection → Bytes
get_key c = c.ide_key

abbrev pub get_sid : Connection → Bytes
get_sid c = c.sid

-- connection.GetConnection(); of nil it panics
abbrev pub get_connection : Connection → Option ℕ
get_connection c = c.connection

pub record ConnectionControl : Type 0 where
  pub close_connection : Bool
  pub try_read_for_cloud_stop : Bool

abbrev pub new_close_connection_control : ConnectionControl
new_close_connection_control = record { close_connection = true; try_read_for_cloud_stop = false }

abbrev pub new_try_read_for_cloud_stop_control : ConnectionControl
new_try_read_for_cloud_stop_control = record {
  close_connection = false;
  try_read_for_cloud_stop = true;
}

pub data Error : Type 0 where
  already_connected not_registered no_ide already_active unclaim_missing not_claimed : Bytes → Error

-- err.Error()
unfoldable pub error_text : Error → Bytes
error_text (already_connected key) = codes "A client for '" ++ key ++ codes "' is already connected"
error_text (not_registered key) =
    codes "A client for '" ++ key ++ codes "' has not been previously registered"
error_text (no_ide key) =
    codes "There is no IDE connected to Xdebug Cloud for UserID '" ++ key ++ codes "'"
error_text (already_active key) =
    codes "A Xdebug connection for UserID '" ++ key ++ codes "' is already active"
error_text (unclaim_missing key) =
    codes "Can not find the connection with key '" ++ key ++ codes "' to unclaim"
error_text (not_claimed key) = codes "The connection with key '" ++ key ++ codes "' was not claimed"

-- The `Connection` objects of the process, with the list. Objects from `next` on are not allocated.
-- Each method holds the list's mutex while it reads and writes the list, so that part is one step;
-- RemoveByKey looks at `claimed` and sends after it has released the mutex.
pub record Registry : Type 0 where
  pub heap : Pointer → Connection
  pub next : Pointer
  pub force_add : Bool
  pub connections : List (Bytes × Pointer)

unfoldable pub update : (Pointer → Connection) → Pointer → Connection → Pointer → Connection
update h p c q = if eqb q p then c else h q

abbrev blank : Connection
blank = record {
  ide_key = [];
  ip_address = [];
  port = [];
  ssl = false;
  sid = [];
  connection = none;
  claimed = false;
}

-- NewConnectionList(forceAdd), in a process with no `Connection` yet
unfoldable pub new_connection_list : Bool → Registry
new_connection_list force_add = record {
  heap = λ p. blank;
  next = 0;
  force_add = force_add;
  connections = [];
}

-- NewConnection; the random UUID is an argument
unfoldable pub new_connection :
    Bytes → Bytes → Bytes → Bool → Option ℕ → Bytes → Registry → Registry × Pointer
unfolding update
new_connection key ip port ssl conn sid r =
    (record r { heap = update r.heap r.next fresh; next = r.next + 1 }, r.next)
  where
    fresh : Connection
    fresh = record {
      ide_key = key;
      ip_address = ip;
      port = port;
      ssl = ssl;
      sid = sid;
      connection = conn;
      claimed = false;
    }

-- list.Add(connection)
unfoldable pub add : Pointer → Registry → Registry × Option Error
add p r =
    let key = (r.heap p).ide_key in
    elim (lookup key r.connections) [
      | none ↦ (record r { connections = insert key p r.connections }, none)
      | some old ↦
          if r.force_add
          then (record r { connections = delete key r.connections }, none)
          else (r, some (already_connected key))
    ]

pub record Removal : Type 0 where
  pub registry : Registry
  pub error : Option Error
  pub sends : List (Pointer × ConnectionControl)

-- list.RemoveByKey(ideKey); `sends` is what it then offers to a connection's channel ControlRequests. The
-- channel has no buffer, so the method returns only when that is received; nothing in the repository
-- receives from it, and nothing there calls ClaimConnection either. Its callers say what that means for
-- them.
unfoldable pub remove_by_key : Bytes → Registry → Removal
remove_by_key key r = elim (lookup key r.connections) [
  | none ↦ record { registry = r; error = some (not_registered key); sends = [] }
  | some p ↦ record {
    registry = record r { connections = delete key r.connections };
    error = none;
    sends = if (r.heap p).claimed then (p, new_close_connection_control) ∷ [] else [];
  }
]

-- list.FindByKey(ideKey)
unfoldable pub find_by_key : Bytes → Registry → Option Pointer
find_by_key key r = lookup key r.connections

pub data Claim : Type 0 where
  granted : Pointer → Claim
  refused : Error → Claim

-- connection.claimed = b
unfoldable pub set_claimed : Bool → Pointer → Registry → Registry
unfolding update
set_claimed b p r = record r { heap = update r.heap p (record (r.heap p) { claimed = b }) }

-- list.ClaimConnection(ideKey)
unfoldable pub claim_connection : Bytes → Registry → Registry × Claim
claim_connection key r = elim (lookup key r.connections) [
  | none ↦ (r, refused (no_ide key))
  | some p ↦
      if (r.heap p).claimed
      then (r, refused (already_active key))
      else (set_claimed true p r, granted p)
]

-- list.UnclaimConnection(ideKey)
unfoldable pub unclaim_connection : Bytes → Registry → Registry × Option Error
unclaim_connection key r = elim (lookup key r.connections) [
  | none ↦ (r, some (unclaim_missing key))
  | some p ↦
      if (r.heap p).claimed then (set_claimed false p r, none) else (r, some (not_claimed key))
]
