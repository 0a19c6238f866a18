-- ===== src/Base/Dict.antt =====
-- Go's map with texts as keys. The program never iterates over the one that is modelled so.
use mathlib.Core.Path.{◌≡◌}
use mathlib.Core.Option.{Option, none, some}
use mathlib.Core.List.{List, [], ◌∷◌}
use native.Mathlib.Omega.{arith}
use dbgp_tools.Base.Tests.{if◌then◌else◌}
use dbgp_tools.Base.Text.{Bytes, ◌==◌, eq_iff}

module _ {ℓ} {V : Type ℓ} where
  -- v, ok := m[k]
  unfoldable pub lookup : Bytes → List (Bytes × V) → Option V
  lookup k [] = none
  lookup k ((j, v) ∷ m) = if j == k then some v else lookup k m

  -- delete(m, k)
  unfoldable pub delete : Bytes → List (Bytes × V) → List (Bytes × V)
  delete k [] = []
  delete k ((j, v) ∷ m) = let rest = delete k m in if j == k then rest else (j, v) ∷ rest

  -- m[k] = v
  unfoldable pub insert : Bytes → V → List (Bytes × V) → List (Bytes × V)
  unfolding delete
  insert k v m = (k, v) ∷ delete k m

  pub lookup-delete :
      (k j : Bytes) (m : List (Bytes × V))
      → lookup j (delete k m) ≡ (if k == j then none else lookup j m)
  unfolding lookup delete
  lookup-delete k j [] = ground arith
  lookup-delete k j ((i, v) ∷ m) =
      ground (arith, lookup-delete k j m, eq_iff i k, eq_iff i j, eq_iff k j)

  pub lookup-insert :
      (k j : Bytes) (v : V) (m : List (Bytes × V))
      → lookup j (insert k v m) ≡ (if k == j then some v else lookup j m)
  unfolding lookup insert
  lookup-insert k j v m = ground (arith, lookup-delete k j m)
