-- ===== src/Base/Int.antt =====
-- Go's `int`, as an integer; its 64-bit range is written out where the code can leave it.
use Prim.Native.Nat.{ℕ, zero, suc, ◌+◌}
use mathlib.Core.Bool.{Bool, false}
use dbgp_tools.Base.Tests.{eqb, ltb, if◌then◌else◌}

-- `negsuc n` is -(n + 1).
pub data ℤ : Type 0 where
  pos : ℕ → ℤ
  negsuc : ℕ → ℤ

abbrev pub is_int : ℤ → ℤ → Bool
is_int (pos a) (pos b) = eqb a b
is_int (negsuc a) (negsuc b) = eqb a b
is_int _ _ = false

abbrev pub is_positive : ℤ → Bool
is_positive (pos a) = ltb 0 a
is_positive (negsuc a) = false

-- z + 1, which wraps behind the largest value of a 64-bit int
unfoldable pub next_int : ℤ → ℤ
next_int (pos n) = if eqb n 9223372036854775807 then negsuc 9223372036854775807 else pos (n + 1)
next_int (negsuc zero) = pos 0
next_int (negsuc (suc n)) = negsuc n
