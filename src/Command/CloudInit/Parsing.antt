-- ===== src/Command/CloudInit/Parsing.antt =====
-- What CreateCloudInit makes of a line of flags.
use dbgp_tools.Base.{
  List, ap, ◌∙◌, Bytes, eq_iff, ◌==◌, if◌then◌else◌, ℕ, ◌≡◌, refl, true, [], ◌∷◌, arith,
}
use dbgp_tools.Command.{no_username, ok, err}
use dbgp_tools.Command.Arguments.{flag_i, flag_u, pairs_of, left_over}
use dbgp_tools.Command.Expected.{
  Pairs, last_value, first_error, key_error, outcome, fold_pairs, judged, parse_arguments-judged,
}
use dbgp_tools.Command.CloudInit.{
  check_key, CloudInitCommand, new_cloud_init_command, assign, create_cloud_init,
}

one_pair : Bytes → Bytes → CloudInitCommand → CloudInitCommand
one_pair f v c = record c { user_id = if f == flag_u then v else c.user_id }

assign-one_pair :
    (f v : Bytes) (c : CloudInitCommand)
    → assign f v c ≡ outcome (key_error flag_u f v) (one_pair f v c)
unfolding assign one_pair
assign-one_pair f v c = ground (arith, eq_iff f flag_i, eq_iff f flag_u)

fold-last_value :
    (ps : Pairs) (c : CloudInitCommand)
    → fold_pairs one_pair ps c ≡ record c { user_id = last_value flag_u c.user_id ps }
unfolding one_pair
fold-last_value [] c = refl
fold-last_value ((f, v) ∷ ps) c = fold-last_value ps (one_pair f v c)

-- CreateCloudInit on any arguments, taken two by two as flags and values: the error of the first pair
-- whose flag is unknown; if there is none, an error that a last flag without a value has none; else, an
-- error when no user or the empty user was given last; else the command with the last user.
pub create_cloud_init_lem :
    (conn : ℕ) (arguments : List Bytes)
    → create_cloud_init conn arguments
      ≡ judged (first_error (key_error flag_u) (pairs_of arguments)) (left_over arguments) (
          if last_value flag_u [] (pairs_of arguments) == []
          then err no_username
          else ok (record {
            connection = conn;
            user_id = last_value flag_u [] (pairs_of arguments);
            needs_removing = true;
          }))
unfolding create_cloud_init new_cloud_init_command check_key
create_cloud_init_lem conn arguments =
    parse_arguments-judged assign (key_error flag_u) one_pair assign-one_pair arguments
      (new_cloud_init_command conn) check_key
    ∙ ap
        (λ c.
          judged (first_error (key_error flag_u) (pairs_of arguments)) (left_over arguments)
            (check_key c))
        (fold-last_value (pairs_of arguments) (new_cloud_init_command conn))
