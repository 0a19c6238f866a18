-- ===== src/Proxy/ServerHandler/Loop/Termination.antt =====
-- The loop of ServerHandler.Handle ends.
use dbgp_tools.Base.{ℕ, ◌<◌, ◌≤◌, ◌≢◌}
use dbgp_tools.Connections.{Registry}
use dbgp_tools.Protocol.Client.Progress.{remaining}
use dbgp_tools.Proxy.ServerHandler.{Turn, again, blocked, out_of_fuel}
use dbgp_tools.Connections.Unclaimed.{Unclaimed}
use dbgp_tools.Proxy.ServerHandler.Loop.{Round, Handled}

-- What is still to read after a round.
abbrev AtMost : ℕ → Turn → Type 0
AtMost n t = remaining t.reader t.conn ≤ n

-- Handle has returned, or a panic has ended it.
pub record HasStopped (h : Handled) : Type 0 where
  pub not_running : h.ended ≢ again
  pub not_blocked : h.ended ≢ blocked
  pub enough_fuel : h.ended ≢ out_of_fuel

-- A round of which the session has fuel for `n`, and in which no connection is claimed meanwhile.
abbrev pub IsCalm : ℕ → Round → Type 0
IsCalm n (w, interrupted) =
    (n < w.fuel) × ((r : Registry) → Unclaimed r → Unclaimed (w.meanwhile r))
