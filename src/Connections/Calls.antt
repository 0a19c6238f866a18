-- ===== src/Connections/Calls.antt =====
-- The calls of the methods of `ConnectionList`, one after the other, and what a caller sees of them.
use dbgp_tools.Base.{Bytes, ℕ, Bool, Option, none, some, List, [], ◌∷◌}
use dbgp_tools.Connections.{
  Pointer, Connection, ConnectionControl, Error, Registry, new_connection, add, remove_by_key,
  find_by_key, Claim, granted, refused, claim_connection, unclaim_connection,
}

-- `register` is NewConnection followed by Add, as the commands call them.
pub data Call : Type 0 where
  register : Bytes → Bytes → Bytes → Bool → Option ℕ → Bytes → Call
  remove find claim unclaim : Bytes → Call

-- The error, the connection that is returned, and what is sent to the ControlRequests channels of
-- which connections.
pub record Reply : Type 0 where
  pub error : Option Error
  pub found : Option Connection
  pub controls : List (Connection × ConnectionControl)

abbrev pub done : Reply
done = record { error = none; found = none; controls = [] }

abbrev pub raised : Error → Reply
raised e = record { error = some e; found = none; controls = [] }

abbrev pub reply : Option Error → Reply
reply e = record { error = e; found = none; controls = [] }

abbrev pub returned : Option Connection → Reply
returned c = record { error = none; found = c; controls = [] }

-- The objects that some pointers lead to.
abbrev pub deref : (Pointer → Connection) → Option Pointer → Option Connection
deref heap none = none
deref heap (some p) = some (heap p)

-- What is sent, with the objects that the pointers lead to.
abbrev pub targets :
    (Pointer → Connection)
    → List (Pointer × ConnectionControl)
    → List (Connection × ConnectionControl)
targets heap [] = []
targets heap ((p, control) ∷ sends) = (heap p, control) ∷ targets heap sends

abbrev claim_reply : (Pointer → Connection) → Claim → Reply
claim_reply heap (granted p) = returned (some (heap p))
claim_reply heap (refused e) = raised e

unfoldable pub register_new :
    Bytes → Bytes → Bytes → Bool → Option ℕ → Bytes → Registry → Registry × Option Error
unfolding new_connection add
register_new key ip port ssl conn sid r =
    let (r', p) = new_connection key ip port ssl conn sid r in add p r'

unfoldable pub step : Registry → Call → Registry × Reply
unfolding register_new remove_by_key find_by_key claim_connection unclaim_connection
step r (register key ip port ssl conn sid) =
    let (r', e) = register_new key ip port ssl conn sid r in (r', reply e)
step r (remove key) =
    let out = remove_by_key key r in
    (out.registry, record { error = out.error; found = none; controls = targets r.heap out.sends })
step r (find key) = (r, returned (deref r.heap (find_by_key key r)))
step r (claim key) = let (r', c) = claim_connection key r in (r', claim_reply r'.heap c)
step r (unclaim key) = let (r', e) = unclaim_connection key r in (r', reply e)

unfoldable pub run : Registry → List Call → Registry × List Reply
run r [] = (r, [])
run r (c ∷ cs) = let (r', a) = step r c in let (r'', rest) = run r' cs in (r'', a ∷ rest)
