-- ===== src/Listener/Tests.antt =====
-- The theorems on listeners, at concrete values.
use dbgp_tools.Base.{codes, ◌≡◌, ◌⊎◌, ◌≤◌, ◌+◌, refl, true, false, some, [], ◌∷◌, ◌++◌, List, ◌==◌}
use dbgp_tools.Go.Net.{Conn, arriving, read_from, write}
use dbgp_tools.Go.Stream.{chunk, read_bytes}
use dbgp_tools.Listener.{
  Accept, Round, accepted, timed_out, accept_error, accept_loop, cloud_connect, CloudConnected,
}
use dbgp_tools.ClientTool.CommandTests.{proxy_decoder}
use dbgp_tools.Go.Decimal.{itoa}
use dbgp_tools.Go.Text.{has_prefix, split, trim_space}
use dbgp_tools.Dbgpxml.ProxyInit.{new_proxy_init}
use dbgp_tools.Dbgpxml.Common.{is_valid_xml}
use dbgp_tools.Dbgpxml.Message.{is_success}
use dbgp_tools.Protocol.Server.{frame}
use dbgp_tools.Protocol.Client.{send_command, read_response}
use dbgp_tools.Protocol.Formatting.{run_command, format_xml, parse_response_xml}
use dbgp_tools.Listener.Laws.{going, conns_of, errors_of, accept_loop_stopped}
use dbgp_tools.Listener.Shutdown.{
  System, Reach, start, later, turn, stop_servers, testing, new_listener, add_listener, go_on,
  connection, add_connection, handling, leave, ended,
}
use dbgp_tools.Listener.Shutdown.Counting.{inside, counter-inside}
use dbgp_tools.Listener.Shutdown.Draining.{
  none_made, and_move, all_left, CanMove, IsServing, connections, shutdown_ends, wait_early,
}

abbrev seen : List Accept
seen = timed_out ∷ accepted (arriving []) ∷ accept_error (codes "lost") ∷ []

abbrev late : Round
late = record { stop = false; accept = accepted (arriving []) }

accept_loop_stopped_example :
    accept_loop (going seen ++ record { stop = true; accept = timed_out } ∷ late ∷ [])
    ≡ record { started = conns_of seen; output = errors_of seen; returned = true }
accept_loop_stopped_example = accept_loop_stopped seen timed_out (late ∷ [])

-- Two listeners, one of which has accepted a connection that is served, are told to stop.
abbrev serving : System
serving = record {
  counter = 3;
  stop = true;
  tasks = testing ∷ testing ∷ handling ∷ [];
  waited = false;
}

reach-serving : Reach false 2 serving
reach-serving =
    later
      (later
        (later
          (later
            (later (later start (turn [] (new_listener ∷ []) refl add_listener))
              (turn (testing ∷ []) [] refl add_listener))
            (turn [] (testing ∷ []) refl (go_on refl)))
          (turn [] (testing ∷ []) refl connection))
        (turn (testing ∷ testing ∷ []) [] refl add_connection))
      stop_servers

counter-inside_example : serving.counter ≡ inside serving.tasks
counter-inside_example = counter-inside reach-serving

-- The first listener leaves its loop.
abbrev left : System
left = record { counter = 2; stop = true; tasks = ended ∷ testing ∷ handling ∷ []; waited = false }

shutdown_ends_example :
    (1 + all_left left.tasks ≤ all_left serving.tasks)
    × ((left.counter ≡ 0) ⊎ (CanMove left ⊎ IsServing left))
shutdown_ends_example =
    shutdown_ends reach-serving refl
      (and_move none_made [] (testing ∷ handling ∷ []) refl (leave refl))

wait_early_example :
    (s : System) × Reach false 2 s × (s.waited ≡ true) × (s.tasks ≡ ended ∷ ended ∷ connections 2)
wait_early_example = wait_early 2

-- What CloudConnect leaves when the cloud sends its answer and the first packet of a script at once:
-- RunCommand's reader has taken both, so nothing is left for the handler, which has a reader of its own.
abbrev at_once : Conn
at_once = arriving (chunk (frame (codes "<?xml 1") ++ frame (codes "<?xml 2")) ∷ [])

cloud_connect_drops :
    (conn : Conn) × (cloud_connect proxy_decoder
        (λ ssl address. some at_once)
        (codes "a.example:9021")
        (codes "u1")
      ≡ CloudConnected.serving conn)
    × (conn.events ≡ [])
unfolding cloud_connect run_command send_command read_response read_from read_bytes format_xml
    parse_response_xml write is_valid_xml has_prefix is_success frame itoa split trim_space ◌==◌
    new_proxy_init
cloud_connect_drops = (_, refl, refl)
