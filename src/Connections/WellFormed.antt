-- ===== src/Connections/WellFormed.antt =====
-- The invariant of the list: each key leads to an allocated connection of that key.
use dbgp_tools.Base.{
  Bytes, eq_iff, Bool-cases, Option-cases, ℕ, ◌<◌, ◌≡◌, inl, inr, Bool, true, false, Option, some,
  List, [], ◌∷◌, arith,
}
use dbgp_tools.Base.Dict.{lookup, lookup-delete, lookup-insert}
use dbgp_tools.Connections.{
  Pointer, Registry, new_connection_list, set_claimed, update, remove_by_key, claim_connection,
  unclaim_connection,
}
use dbgp_tools.Connections.Calls.{
  Call, register, remove, find, claim, unclaim, step, run, register_new,
}

pub record IsWellFormed (r : Registry) : Type 0 where
  pub owner : (k : Bytes) (p : Pointer) → lookup k r.connections ≡ some p → (r.heap p).ide_key ≡ k
  pub allocated : (k : Bytes) (p : Pointer) → lookup k r.connections ≡ some p → p < r.next

pub new_connection_list-IsWellFormed : (f : Bool) → IsWellFormed (new_connection_list f)
unfolding new_connection_list lookup
new_connection_list-IsWellFormed f = record { owner = λ k p e. cc; allocated = λ k p e. cc }

module _ (r : Registry) (w : IsWellFormed r) where
  register-IsWellFormed :
      (key ip port : Bytes) (ssl : Bool) (conn : Option ℕ) (sid : Bytes)
      → IsWellFormed (register_new key ip port ssl conn sid r).0
  unfolding register_new update
  register-IsWellFormed key ip port ssl conn sid = record {
    owner = λ k p e. ground (
      arith,
      lookup-insert key k r.next r.connections,
      lookup-delete key k r.connections,
      eq_iff key k,
      w.owner k p,
      w.allocated k p,
    );
    allocated = λ k p e. ground (
      arith,
      lookup-insert key k r.next r.connections,
      lookup-delete key k r.connections,
      w.allocated k p,
    );
  }

  remove-IsWellFormed : (key : Bytes) → IsWellFormed (remove_by_key key r).registry
  unfolding remove_by_key
  remove-IsWellFormed key = record {
    owner = λ k p e. ground (arith, lookup-delete key k r.connections, w.owner k p);
    allocated = λ k p e. ground (arith, lookup-delete key k r.connections, w.allocated k p);
  }

  set_claimed-IsWellFormed : (b : Bool) (q : Pointer) → IsWellFormed (set_claimed b q r)
  unfolding set_claimed
  set_claimed-IsWellFormed b q = record {
    owner = λ k p e. ground (arith, w.owner k p);
    allocated = λ k p e. w.allocated k p e;
  }

  claim-IsWellFormed : (key : Bytes) → IsWellFormed (claim_connection key r).0
  unfolding claim_connection
  claim-IsWellFormed key = elim (Option-cases (lookup key r.connections)) [
    | inl missing ↦ rw (missing, claim_connection) w
    | inr (p, here) ↦ elim (Bool-cases (r.heap p).claimed) [
      | inl busy ↦ rw (here, claim_connection, busy) w
      | inr free ↦ rw (here, claim_connection, free) (set_claimed-IsWellFormed true p)
    ]
  ]

  unclaim-IsWellFormed : (key : Bytes) → IsWellFormed (unclaim_connection key r).0
  unfolding unclaim_connection
  unclaim-IsWellFormed key = elim (Option-cases (lookup key r.connections)) [
    | inl missing ↦ rw (missing, unclaim_connection) w
    | inr (p, here) ↦ elim (Bool-cases (r.heap p).claimed) [
      | inl busy ↦ rw (here, unclaim_connection, busy) (set_claimed-IsWellFormed false p)
      | inr free ↦ rw (here, unclaim_connection, free) w
    ]
  ]

  -- Every method keeps the invariant, on every branch.
  pub step-IsWellFormed : (c : Call) → IsWellFormed (step r c).0
  unfolding step
  step-IsWellFormed (register key ip port ssl conn sid) =
      register-IsWellFormed key ip port ssl conn sid
  step-IsWellFormed (remove key) = remove-IsWellFormed key
  step-IsWellFormed (find key) = w
  step-IsWellFormed (claim key) = claim-IsWellFormed key
  step-IsWellFormed (unclaim key) = unclaim-IsWellFormed key

pub run-IsWellFormed : (r : Registry) (cs : List Call) → IsWellFormed r → IsWellFormed (run r cs).0
unfolding run
run-IsWellFormed r [] w = w
run-IsWellFormed r (c ∷ cs) w = run-IsWellFormed (step r c).0 cs (step-IsWellFormed r w c)

-- After any calls on a new list, in either mode, each key of the list leads to an allocated
-- connection that was made for that key.
pub run-new_connection_list-IsWellFormed :
    (f : Bool) (cs : List Call) → IsWellFormed (run (new_connection_list f) cs).0
run-new_connection_list-IsWellFormed f cs =
    run-IsWellFormed (new_connection_list f) cs (new_connection_list-IsWellFormed f)
