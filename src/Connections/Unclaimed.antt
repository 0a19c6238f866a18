-- ===== src/Connections/Unclaimed.antt =====
-- Lists whose connections nobody has claimed, such as those of dbgpProxy, which calls ClaimConnection
-- nowhere.
use dbgp_tools.Base.{Bytes, ◌≡◌, false, Option-cases, inl, inr, []}
use dbgp_tools.Base.Dict.{lookup}
use dbgp_tools.Connections.{Pointer, Registry, remove_by_key}

abbrev pub Unclaimed : Registry → Type 0
Unclaimed r = (p : Pointer) → (r.heap p).claimed ≡ false

module _ (key : Bytes) (r : Registry) (free : Unclaimed r) where
  pub remove_by_key-sends : (remove_by_key key r).sends ≡ []
  unfolding remove_by_key
  remove_by_key-sends = elim (Option-cases (lookup key r.connections)) [
    | inl missing ↦ rw (missing, remove_by_key)
    | inr (p, here) ↦ rw (here, remove_by_key, free p)
  ]

  pub remove_by_key-Unclaimed : Unclaimed (remove_by_key key r).registry
  unfolding remove_by_key
  remove_by_key-Unclaimed q = elim (Option-cases (lookup key r.connections)) [
    | inl missing ↦ rw (missing, remove_by_key) (free q)
    | inr (p, here) ↦ rw (here, remove_by_key) (free q)
  ]
