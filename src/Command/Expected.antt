-- ===== src/Command/Expected.antt =====
-- A description of what a line of flags means that does not follow the loop: the error of the first
-- pair that is refused, and for each field the last value that was given.
use dbgp_tools.Base.{Bytes, ◌==◌, if◌then◌else◌, ◌≡◌, refl, ◌||◌, Option, none, some, List, [], ◌∷◌}
use dbgp_tools.Command.{Error, unknown_argument, no_argument, Result, ok, err, ◌>>=◌}
use dbgp_tools.Command.Arguments.{
  flag_i, apply_pairs, parse_arguments, parse_arguments_lem, pairs_of, left_over, unless_left,
}

abbrev pub Pairs : Type 0
Pairs = List (Bytes × Bytes)

-- The value of the last pair with the flag.
abbrev pub last_value : Bytes → Bytes → Pairs → Bytes
last_value flag start [] = start
last_value flag start ((f, v) ∷ ps) = last_value flag (if f == flag then v else start) ps

abbrev or_else : Option Error → Option Error → Option Error
or_else none f = f
or_else (some e) f = some e

abbrev pub first_error : (Bytes → Bytes → Option Error) → Pairs → Option Error
first_error pair_error [] = none
first_error pair_error ((f, v) ∷ ps) = or_else (pair_error f v) (first_error pair_error ps)

-- The pairs of a command that knows one flag beside -i.
abbrev pub key_error : Bytes → Bytes → Bytes → Option Error
key_error flag f v = if f == flag_i || f == flag then none else some (unknown_argument f v)

abbrev pub outcome {ℓ} : {A : Type ℓ} → Option Error → A → Result A
outcome none a = ok a
outcome (some e) a = err e

module _ {C : Type 0} where
  bind_outcome :
      (o rest : Option Error) (a b : C) (k : C → Result C)
      → k a ≡ outcome rest b
      → (outcome o a >>= k) ≡ outcome (or_else o rest) b
  bind_outcome none rest a b k h = h
  bind_outcome (some e) rest a b k h = refl

  abbrev pub fold_pairs : (Bytes → Bytes → C → C) → Pairs → C → C
  fold_pairs one [] c = c
  fold_pairs one ((f, v) ∷ ps) c = fold_pairs one ps (one f v c)

  pub apply_pairs-outcome :
      (assign : Bytes → Bytes → C → Result C) (pair_error : Bytes → Bytes → Option Error)
      (one : Bytes → Bytes → C → C)
      → ((f v : Bytes) (c : C) → assign f v c ≡ outcome (pair_error f v) (one f v c))
      → (ps : Pairs) (c : C)
      → apply_pairs assign ps c ≡ outcome (first_error pair_error ps) (fold_pairs one ps c)
  unfolding apply_pairs
  apply_pairs-outcome assign pair_error one h [] c = refl
  apply_pairs-outcome assign pair_error one h ((f, v) ∷ ps) c = rw (h f v c) (
      bind_outcome (pair_error f v) (first_error pair_error ps) (one f v c)
        (fold_pairs one ps (one f v c)) (apply_pairs assign ps)
        (apply_pairs-outcome assign pair_error one h ps (one f v c)))

  -- What a parser of arguments returns before its last test, from the errors of the pairs and the
  -- values that they give.
  abbrev pub judged : Option Error → Option Bytes → Result C → Result C
  judged (some e) left result = err e
  judged none (some flag) result = err (no_argument flag)
  judged none none result = result

  judged-bind :
      (o : Option Error) (left : Option Bytes) (c : C) (k : C → Result C)
      → (outcome o c >>= unless_left left >>= k) ≡ judged o left (k c)
  judged-bind (some e) left c k = refl
  judged-bind none (some flag) c k = refl
  judged-bind none none c k = refl

  pub parse_arguments-judged :
      (assign : Bytes → Bytes → C → Result C) (pair_error : Bytes → Bytes → Option Error)
      (one : Bytes → Bytes → C → C)
      → ((f v : Bytes) (c : C) → assign f v c ≡ outcome (pair_error f v) (one f v c))
      → (arguments : List Bytes) (c : C) (k : C → Result C)
      → (parse_arguments assign arguments c >>= k)
        ≡ judged
            (first_error pair_error (pairs_of arguments))
            (left_over arguments)
            (k (fold_pairs one (pairs_of arguments) c))
  parse_arguments-judged assign pair_error one h arguments c k =
      rw
        (
          parse_arguments_lem assign arguments c,
          apply_pairs-outcome assign pair_error one h (pairs_of arguments) c,
        )
        (judged-bind _ (left_over arguments) _ k)
