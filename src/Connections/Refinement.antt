-- ===== src/Connections/Refinement.antt =====
-- What the list promises its callers: a map from keys to connections, with no pointers.
use dbgp_tools.Base.{
  Bytes, eq_iff, ◌==◌, if◌then◌else◌, Option-cases, ℕ, ◌≡◌, refl, ap, ◌∙◌, inl, inr, Bool, true,
  false, Option, none, some, List, [], ◌∷◌, arith,
}
use mathlib.Core.Path.{fun_ext}
use dbgp_tools.Base.Dict.{lookup, lookup-delete, lookup-insert}
use dbgp_tools.Connections.{
  Pointer, Connection, ConnectionControl, new_close_connection_control, Registry,
  new_connection_list, set_claimed, update, not_registered, no_ide, already_active,
  already_connected, unclaim_missing, not_claimed,
}
use dbgp_tools.Connections.Calls.{
  Call, register, remove, find, claim, unclaim, step, run, Reply, done, raised, returned, deref,
}
use dbgp_tools.Connections.WellFormed.{
  IsWellFormed, step-IsWellFormed, new_connection_list-IsWellFormed,
}

-- The connection that a client sees under a key.
abbrev pub View : Type 0
View = Bytes → Option Connection

abbrev pub view : Registry → View
view r key = deref r.heap (lookup key r.connections)

abbrev pub fresh : Bytes → Bytes → Bytes → Bool → Option ℕ → Bytes → Connection
fresh key ip port ssl conn sid = record {
  ide_key = key;
  ip_address = ip;
  port = port;
  ssl = ssl;
  sid = sid;
  connection = conn;
  claimed = false;
}

abbrev pub bind_key : Bytes → Option Connection → View → View
bind_key key o v j = if key == j then o else v j

-- Registering a key that is there: with `force_add` the entry goes and no error is returned,
-- without it nothing changes.
abbrev register_taken : Bool → Bytes → View → View × Reply
register_taken true key v = (bind_key key none v, done)
register_taken false key v = (v, raised (already_connected key))

-- A connection that is claimed gets the control that closes it, and no other.
abbrev pub closing : Connection → List (Connection × ConnectionControl)
closing c = if c.claimed then (c, new_close_connection_control) ∷ [] else []

abbrev pub close_reply : Connection → Reply
close_reply c = record { error = none; found = none; controls = closing c }

abbrev spec_claim : Bytes → View → Connection → View × Reply
spec_claim key v c =
    let c' : Connection = record c { claimed = true } in
    if c.claimed
    then (v, raised (already_active key))
    else (bind_key key (some c') v, returned (some c'))

abbrev spec_unclaim : Bytes → View → Connection → View × Reply
spec_unclaim key v c =
    if c.claimed
    then (bind_key key (some (record c { claimed = false })) v, done)
    else (v, raised (not_claimed key))

abbrev pub spec_step : Bool → View → Call → View × Reply
spec_step force v (register key ip port ssl conn sid) = elim (v key) [
  | none ↦ (bind_key key (some (fresh key ip port ssl conn sid)) v, done)
  | some c ↦ register_taken force key v
]
spec_step force v (remove key) = elim (v key) [
  | none ↦ (v, raised (not_registered key))
  | some c ↦ (bind_key key none v, close_reply c)
]
spec_step force v (find key) = (v, returned (v key))
spec_step force v (claim key) = elim (v key) [
  | none ↦ (v, raised (no_ide key))
  | some c ↦ spec_claim key v c
]
spec_step force v (unclaim key) = elim (v key) [
  | none ↦ (v, raised (unclaim_missing key))
  | some c ↦ spec_unclaim key v c
]

pub record Refines (r r' : Registry) (a : Reply) (out : View × Reply) : Type 0 where
  pub same_view : (j : Bytes) → view r' j ≡ out.0 j
  pub same_reply : a ≡ out.1
  pub same_mode : r'.force_add ≡ r.force_add

module _ (r : Registry) (w : IsWellFormed r) where
  register-Refines :
      (key ip port : Bytes) (ssl : Bool) (conn : Option ℕ) (sid : Bytes)
      → let c : Call = register key ip port ssl conn sid in
        Refines r (step r c).0 (step r c).1 (spec_step r.force_add (view r) c)
  unfolding step update
  register-Refines key ip port ssl conn sid = record {
    same_view = λ j. ground (
      arith,
      lookup-insert key j r.next r.connections,
      lookup-delete key j r.connections,
      eq_iff key j,
      w.allocated j r.next,
    );
    same_reply = ground arith;
    same_mode = ground arith;
  }

  remove-Refines :
      (key : Bytes)
      → Refines r
          (step r (remove key)).0
          (step r (remove key)).1
          (spec_step r.force_add (view r) (remove key))
  unfolding step
  remove-Refines key = record {
    same_view = λ j. ground (arith, lookup-delete key j r.connections, eq_iff key j);
    same_reply = ground arith;
    same_mode = ground arith;
  }

  -- Keys do not share a connection, so a claim of one shows under no other key.
  view-set_claimed :
      (b : Bool) (key j : Bytes) (p : Pointer)
      → lookup key r.connections ≡ some p
      → view (set_claimed b p r) j
        ≡ bind_key key (some (record (r.heap p) { claimed = b })) (view r) j
  unfolding set_claimed
  view-set_claimed b key j p here = ground (arith, here, eq_iff key j, w.owner j p, w.owner key p)

  claim-Refines :
      (key : Bytes)
      → Refines r
          (step r (claim key)).0
          (step r (claim key)).1
          (spec_step r.force_add (view r) (claim key))
  unfolding step
  claim-Refines key = elim (Option-cases (lookup key r.connections)) [
    | inl missing ↦ record {
      same_view = λ j. ground (arith, missing);
      same_reply = ground (arith, missing);
      same_mode = ground (arith, missing);
    }
    | inr (p, here) ↦ record {
      same_view = λ j. ground (arith, here, view-set_claimed true key j p here);
      same_reply = unfold set_claimed in ground (arith, here);
      same_mode = unfold set_claimed in ground (arith, here);
    }
  ]

  unclaim-Refines :
      (key : Bytes)
      → Refines r
          (step r (unclaim key)).0
          (step r (unclaim key)).1
          (spec_step r.force_add (view r) (unclaim key))
  unfolding step
  unclaim-Refines key = elim (Option-cases (lookup key r.connections)) [
    | inl missing ↦ record {
      same_view = λ j. ground (arith, missing);
      same_reply = ground (arith, missing);
      same_mode = ground (arith, missing);
    }
    | inr (p, here) ↦ record {
      same_view = λ j. ground (arith, here, view-set_claimed false key j p here);
      same_reply = unfold set_claimed in ground (arith, here);
      same_mode = unfold set_claimed in ground (arith, here);
    }
  ]

  -- On a well-formed list every method (NewConnection with Add, RemoveByKey, FindByKey,
  -- ClaimConnection, UnclaimConnection) does what the map of keys to connections says: the same
  -- reply, with its error and the control messages that are sent, each with the connection it is for
  -- (the one that closes, to a connection that is removed while it is claimed), the same connection under every key
  -- afterwards, and the mode unchanged.
  pub step-Refines :
      (c : Call) → Refines r (step r c).0 (step r c).1 (spec_step r.force_add (view r) c)
  step-Refines (register key ip port ssl conn sid) = register-Refines key ip port ssl conn sid
  step-Refines (remove key) = remove-Refines key
  step-Refines (find key) =
      unfold step in record { same_view = λ j. refl; same_reply = refl; same_mode = refl }
  step-Refines (claim key) = claim-Refines key
  step-Refines (unclaim key) = unclaim-Refines key

-- The replies of the map of keys to a sequence of calls.
abbrev pub spec_run : Bool → View → List Call → List Reply
spec_run force v [] = []
spec_run force v (c ∷ cs) = (spec_step force v c).1 ∷ spec_run force (spec_step force v c).0 cs

run-spec_run :
    (r : Registry) (v : View) (cs : List Call)
    → IsWellFormed r
    → view r ≡ v
    → (run r cs).1 ≡ spec_run r.force_add v cs
unfolding run
run-spec_run r v [] w e = refl
run-spec_run r v (c ∷ cs) w e =
    let s = step-Refines r w c in
    rw (← e, s.same_reply)
      (ap (λ rest. (spec_step r.force_add (view r) c).1 ∷ rest)
        (run-spec_run (step r c).0 (spec_step r.force_add (view r) c).0 cs (step-IsWellFormed r w c)
            (fun_ext s.same_view)
          ∙ rw s.same_mode refl))

-- For every sequence of calls on a new list, in either mode, the replies are those of a map from
-- keys to connections that starts empty.
pub run-new_connection_list :
    (f : Bool) (cs : List Call) → (run (new_connection_list f) cs).1 ≡ spec_run f (λ k. none) cs
run-new_connection_list f cs =
    run-spec_run (new_connection_list f) (λ k. none) cs (new_connection_list-IsWellFormed f)
      (fun_ext λ k. unfold new_connection_list lookup in refl)
    ∙ unfold new_connection_list in refl
