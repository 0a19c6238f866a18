-- ===== src/Command/ProxyInit/Parsing.antt =====
-- What CreateProxyInit makes of a line of flags, against a description of each field by itself.
use dbgp_tools.Base.{
  List, ap, ◌∙◌, Bytes, codes, ◌==◌, if◌then◌else◌, Bool, true, ◌&&◌, ◌||◌, Option, none, some, [],
  ◌∷◌, false, ◌≡◌, arith, eq_iff, refl,
}
use dbgp_tools.Base.Int.{ℤ, pos, is_int}
use dbgp_tools.Go.Decimal.{atoi}
use dbgp_tools.Command.{Error, bad_port, bad_ssl, unknown_argument, ok, err, no_ide_key}
use dbgp_tools.Command.Arguments.{flag_i, flag_p, flag_k, flag_m, flag_s, pairs_of, left_over}
use dbgp_tools.Command.Expected.{
  Pairs, last_value, first_error, outcome, fold_pairs, judged, parse_arguments-judged,
}
use dbgp_tools.Command.ProxyInit.{
  check_key, ProxyInitCommand, assign, create_proxy_init, new_proxy_init_command,
}

abbrev int_or : ℤ → Option ℤ → ℤ
int_or start none = start
int_or start (some i) = i

-- The number of the last pair with the flag.
abbrev last_int : Bytes → ℤ → Pairs → ℤ
last_int flag start [] = start
last_int flag start ((f, v) ∷ ps) =
    last_int flag (if f == flag then int_or start (atoi v) else start) ps

-- Some pair has the flag and the value.
abbrev has_pair : Bytes → Bytes → Bool → Pairs → Bool
has_pair flag value start [] = start
has_pair flag value start ((f, v) ∷ ps) =
    has_pair flag value (if f == flag && v == value then true else start) ps

abbrev need_int : Option ℤ → Error → Option Error
need_int none e = some e
need_int (some i) e = none

-- Why a pair is refused, if it is.
abbrev pub pair_error : Bytes → Bytes → Option Error
pair_error f v =
    if f == flag_p
    then need_int (atoi v) (bad_port v)
    else if f == flag_s
    then need_int (atoi v) (bad_ssl v)
    else if f == flag_i || (f == flag_k || f == flag_m)
    then none
    else some (unknown_argument f v)

abbrev is_one : Option ℤ → Bool
is_one none = false
is_one (some i) = is_int i (pos 1)

-- Whether the last pair with the flag has the number 1.
abbrev last_is_one : Bytes → Bool → Pairs → Bool
last_is_one flag start [] = start
last_is_one flag start ((f, v) ∷ ps) =
    last_is_one flag (if f == flag then is_one (atoi v) else start) ps

abbrev expected_from : ProxyInitCommand → Pairs → ProxyInitCommand
expected_from c ps = record {
  ide_key = last_value flag_k c.ide_key ps;
  ip_address = c.ip_address;
  port = last_int flag_p c.port ps;
  multiple_supported = has_pair flag_m (codes "1") c.multiple_supported ps;
  ssl = last_is_one flag_s c.ssl ps;
}

abbrev one_pair : Bytes → Bytes → ProxyInitCommand → ProxyInitCommand
one_pair f v c = expected_from c ((f, v) ∷ [])

-- One round of the loop.
assign-one_pair :
    (f v : Bytes) (c : ProxyInitCommand) → assign f v c ≡ outcome (pair_error f v) (one_pair f v c)
unfolding assign
assign-one_pair f v c =
    ground
      (arith, eq_iff f flag_i, eq_iff f flag_p, eq_iff f flag_k, eq_iff f flag_m, eq_iff f flag_s)

fold-expected_from :
    (ps : Pairs) (c : ProxyInitCommand) → fold_pairs one_pair ps c ≡ expected_from c ps
fold-expected_from [] c = refl
fold-expected_from ((f, v) ∷ ps) c = fold-expected_from ps (one_pair f v c)

abbrev pub expected : Bytes → Pairs → ProxyInitCommand
expected ip = expected_from (record {
  ide_key = [];
  ip_address = ip;
  port = pos 9003;
  multiple_supported = false;
  ssl = false;
})

-- CreateProxyInit on any arguments, taken two by two as flags and values: the error of the first pair that
-- is refused; if there is none, an error that a last flag without a value has none; else, an error when no
-- key or the empty key was given last; else the command that `expected` describes pair by pair: the key,
-- the port and the SSL flag are the last ones given, or their defaults, and more than one session is
-- supported if some pair, not only the last, says so.
pub create_proxy_init_lem :
    (ip : Bytes) (arguments : List Bytes)
    → create_proxy_init ip arguments
      ≡ judged (first_error pair_error (pairs_of arguments)) (left_over arguments) (
          if last_value flag_k [] (pairs_of arguments) == []
          then err no_ide_key
          else ok (expected ip (pairs_of arguments)))
unfolding create_proxy_init new_proxy_init_command check_key
create_proxy_init_lem ip arguments =
    parse_arguments-judged assign pair_error one_pair assign-one_pair arguments
      (new_proxy_init_command ip) check_key
    ∙ ap
        (λ c.
          judged (first_error pair_error (pairs_of arguments)) (left_over arguments) (check_key c))
        (fold-expected_from (pairs_of arguments) (new_proxy_init_command ip))
