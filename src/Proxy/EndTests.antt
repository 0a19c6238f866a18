-- ===== src/Proxy/EndTests.antt =====
-- The theorems on the ends of loops, at concrete sessions.
use dbgp_tools.Base.{
  ◌≡◌, ◌⊎◌, ◌≤◌, refl, some, codes, ◌≢◌, none, [], ◌∷◌, false, arith, List, ℕ, zero, suc,
}
use dbgp_tools.Proxy.Forwarder.Channel.{
  finishing, gone, leaving, returned, Reach, later, start, time_out, copy_failed, error_seen,
  close_channel, close_ide, end_taken, none_made, and_move, CanMove, session_ends,
}
use dbgp_tools.Connections.Tests.{host}
use dbgp_tools.Connections.Calls.{register, step}
use dbgp_tools.Connections.Unclaimed.{Unclaimed}
use dbgp_tools.Go.Net.{arriving}
use dbgp_tools.Protocol.Client.{new_dbgp_client}
use dbgp_tools.Proxy.Forwarder.{forward, unfinished}
use dbgp_tools.Proxy.Forwarder.Termination.{forward_ends}
use dbgp_tools.Proxy.ServerHandler.Loop.{Round}
use dbgp_tools.Proxy.SampleSession.{decoder, world, session}
use dbgp_tools.Protocol.Server.{frame}
use dbgp_tools.Go.Decimal.{itoa}

forward_ends_example :
    (forward decoder 100 (false ∷ []) new_dbgp_client (arriving session) (arriving [])).outcome
    ≢ unfinished
unfolding frame itoa
forward_ends_example =
    forward_ends decoder 100 (false ∷ []) new_dbgp_client (arriving session) (arriving [])
      (omega arith)

-- `n` rounds without a signal, and with no IDE that can be reached
abbrev calm_rounds : ℕ → List Round
calm_rounds zero = []
calm_rounds (suc n) = (record (world none) { fuel = 100 }, false) ∷ calm_rounds n

-- Another IDE registers while the session of the first round lasts.
abbrev busy : Round
busy = (
  record (world (some (arriving []))) {
    fuel = 100;
    meanwhile = λ r. (step r (register (codes "other") host (codes "9004") false none [])).0;
  },
  false,
)

-- A read times out, the IDE's connection fails, and the loop sees it.
seen_failing : Reach finishing leaving
seen_failing = later (later (later start time_out) copy_failed) error_seen

session_ends_example : (3 ≤ 5) × (((gone ≡ gone) × (returned ≡ returned)) ⊎ CanMove gone returned)
session_ends_example =
    session_ends seen_failing refl
      (and_move (and_move (and_move none_made close_channel) close_ide) end_taken)
