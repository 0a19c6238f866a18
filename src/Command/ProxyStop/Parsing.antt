-- ===== src/Command/ProxyStop/Parsing.antt =====
-- What CreateProxyStop makes of a line of flags.
use dbgp_tools.Base.{List, ap, ◌∙◌, Bytes, eq_iff, ◌==◌, if◌then◌else◌, ◌≡◌, refl, [], ◌∷◌, arith}
use dbgp_tools.Command.{no_ide_key, ok, err}
use dbgp_tools.Command.Arguments.{flag_i, flag_k, pairs_of, left_over}
use dbgp_tools.Command.Expected.{
  Pairs, last_value, first_error, key_error, outcome, fold_pairs, judged, parse_arguments-judged,
}
use dbgp_tools.Command.ProxyStop.{
  check_key, ProxyStopCommand, new_proxy_stop_command, assign, create_proxy_stop,
}

one_pair : Bytes → Bytes → ProxyStopCommand → ProxyStopCommand
one_pair f v c = record c { ide_key = if f == flag_k then v else c.ide_key }

assign-one_pair :
    (f v : Bytes) (c : ProxyStopCommand)
    → assign f v c ≡ outcome (key_error flag_k f v) (one_pair f v c)
unfolding assign one_pair
assign-one_pair f v c = ground (arith, eq_iff f flag_i, eq_iff f flag_k)

fold-last_value :
    (ps : Pairs) (c : ProxyStopCommand)
    → fold_pairs one_pair ps c ≡ record c { ide_key = last_value flag_k c.ide_key ps }
unfolding one_pair
fold-last_value [] c = refl
fold-last_value ((f, v) ∷ ps) c = fold-last_value ps (one_pair f v c)

-- CreateProxyStop on any arguments, taken two by two as flags and values: the error of the first pair
-- whose flag is unknown; if there is none, an error that a last flag without a value has none; else, an
-- error when no key or the empty key was given last; else the command with the last key.
pub create_proxy_stop_lem :
    (arguments : List Bytes)
    → create_proxy_stop arguments
      ≡ judged (first_error (key_error flag_k) (pairs_of arguments)) (left_over arguments) (
          if last_value flag_k [] (pairs_of arguments) == []
          then err no_ide_key
          else ok (record { ide_key = last_value flag_k [] (pairs_of arguments) }))
unfolding create_proxy_stop new_proxy_stop_command check_key
create_proxy_stop_lem arguments =
    parse_arguments-judged assign (key_error flag_k) one_pair assign-one_pair arguments
      new_proxy_stop_command check_key
    ∙ ap
        (λ c.
          judged (first_error (key_error flag_k) (pairs_of arguments)) (left_over arguments)
            (check_key c))
        (fold-last_value (pairs_of arguments) new_proxy_stop_command)
