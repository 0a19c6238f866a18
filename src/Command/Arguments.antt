-- ===== src/Command/Arguments.antt =====
-- The loop over the arguments that CreateProxyInit, CreateProxyStop, CreateCloudInit and
-- CreateCloudStop share: flags, each with its value.
use dbgp_tools.Base.{
  Bytes, codes, if◌then◌else◌, ◌≡◌, refl, Option, none, some, Bool, true, false, List, [], ◌∷◌,
}
use dbgp_tools.Command.{Result, ok, err, ◌>>=◌, no_argument}

abbrev pub flag_i : Bytes
flag_i = codes "-i"

abbrev pub flag_p : Bytes
flag_p = codes "-p"

abbrev pub flag_k : Bytes
flag_k = codes "-k"

abbrev pub flag_m : Bytes
flag_m = codes "-m"

abbrev pub flag_s : Bytes
flag_s = codes "-s"

abbrev pub flag_u : Bytes
flag_u = codes "-u"

-- Where the loop ends: the command, `expectValue` and `expectValueFor`.
pub record Walk (C : Type 0) : Type 0 where
  pub command : C
  pub expect_value : Bool
  pub expect_value_for : Bytes

module _ {C : Type 0} (assign : Bytes → Bytes → C → Result C) where
  -- `assign flag value` is the switch of the loop's body
  unfoldable pub walk : List Bytes → Bool → Bytes → C → Result (Walk C)
  walk [] expect flag c =
      ok (record { command = c; expect_value = expect; expect_value_for = flag })
  walk (value ∷ rest) true flag c = assign flag value c >>= λ c'. walk rest false flag c'
  walk (value ∷ rest) false flag c = walk rest true value c

  -- The loop, and the test behind it.
  unfoldable pub parse_arguments : List Bytes → C → Result C
  unfolding walk
  parse_arguments arguments c = do
    w ← walk arguments false [] c
    if w.expect_value then err (no_argument w.expect_value_for) else ok w.command

  -- The assignments of a list of flags with values, in order.
  unfoldable pub apply_pairs : List (Bytes × Bytes) → C → Result C
  apply_pairs [] c = ok c
  apply_pairs ((flag, value) ∷ ps) c = assign flag value c >>= apply_pairs ps

-- The pairs as they stand on the line.
abbrev pub flatten : List (Bytes × Bytes) → List Bytes
flatten [] = []
flatten ((flag, value) ∷ ps) = flag ∷ value ∷ flatten ps

-- Any arguments, two by two, and the flag that is left over if their number is odd.
abbrev pub pairs_of : List Bytes → List (Bytes × Bytes)
pairs_of [] = []
pairs_of (flag ∷ []) = []
pairs_of (flag ∷ value ∷ rest) = (flag, value) ∷ pairs_of rest

abbrev pub left_over : List Bytes → Option Bytes
left_over [] = none
left_over (flag ∷ []) = some flag
left_over (flag ∷ value ∷ rest) = left_over rest

module _ {C : Type 0} where
  -- What follows when all pairs are assigned.
  abbrev pub unless_left : Option Bytes → C → Result C
  unless_left none c = ok c
  unless_left (some flag) c = err (no_argument flag)

module _ {C : Type 0} (assign : Bytes → Bytes → C → Result C) where
  abbrev ended : Bool → Bytes → C → Result C
  ended expect flag c = if expect then err (no_argument flag) else ok c

  walk_lem :
      (arguments : List Bytes) (flag : Bytes) (c : C)
      → (walk assign arguments false flag c >>= λ w.
          ended w.expect_value w.expect_value_for w.command)
        ≡ (apply_pairs assign (pairs_of arguments) c >>= unless_left (left_over arguments))
  unfolding walk apply_pairs
  walk_lem [] flag c = refl
  walk_lem (last ∷ []) flag c = refl
  walk_lem (flag ∷ value ∷ rest) _ c =
      elim (assign flag value c)
        as (λ r.
          (r >>= (λ c'. walk assign rest false flag c') >>= λ w.
          ended w.expect_value w.expect_value_for w.command)
          ≡ (r >>= apply_pairs assign (pairs_of rest) >>= unless_left (left_over rest))) [
            | ok c' ↦ walk_lem rest flag c'
            | err e ↦ refl
          ]

  -- Whatever the switch of the loop: the arguments are assigned two by two, up to the first that are
  -- refused, and a flag that is left over is an error.
  pub parse_arguments_lem :
      (arguments : List Bytes) (c : C)
      → parse_arguments assign arguments c
        ≡ (apply_pairs assign (pairs_of arguments) c >>= unless_left (left_over arguments))
  unfolding parse_arguments
  parse_arguments_lem arguments c = walk_lem arguments [] c
