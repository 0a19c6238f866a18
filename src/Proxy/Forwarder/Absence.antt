-- ===== src/Proxy/Forwarder/Absence.antt =====
-- What a session does when the IDE has gone and Xdebug says nothing.
use mathlib.Core.Path.{subst}
use dbgp_tools.Base.{
  ℕ, zero, suc, ◌<◌, Bool, true, false, List, [], ◌∷◌, Lacks, ◌≡◌, ap, sym, arith,
}
use dbgp_tools.Go.Net.{Conn}
use dbgp_tools.Go.Stream.{Event, deadline}
use dbgp_tools.Protocol.Client.{DbgpClient}
use dbgp_tools.Protocol.Client.Patience.{response_deadline}
use dbgp_tools.Protocol.Formatting.{Decoder}
use dbgp_tools.Proxy.Forwarder.{forward, ide_closed, Forwarded}

-- The same element some times, in front.
abbrev pub repeated {ℓ} : {A : Type ℓ} → ℕ → A → List A → List A
repeated zero x rest = rest
repeated (suc n) x rest = x ∷ repeated n x rest

pub record Stops (out : Forwarded) (ide : Conn) (es : List Event) : Type 0 where
  pub ended : out.outcome ≡ ide_closed
  pub untouched : out.ide ≡ ide
  pub left : out.conn.events ≡ es

-- When reads from Xdebug time out, with no whole length before, and the IDE is found to have gone at
-- one of them, the session ends there with an error, if there is fuel for each of the timeouts: nothing
-- more is sent to the IDE, and what Xdebug sends afterwards is not read.
pub forward-Stops :
    (n : ℕ) (d : Decoder) (f : ℕ) (c : DbgpClient) (conn ide : Conn) (es : List Event)
    (later : List Bool)
    → n < f
    → Lacks 0 c.buffer
    → Stops
        (forward d f
          (repeated n false (true ∷ later))
          c
          (record conn { events = repeated n deadline (deadline ∷ es) })
          ide)
        ide
        es
unfolding forward
forward-Stops n d zero c conn ide es later enough clean = absurd (omega arith)
forward-Stops zero d (suc f) c conn ide es later enough clean =
    let e = response_deadline c es conn clean in
    record {
      ended = rw (e, forward);
      untouched = rw (e, forward);
      left = rw (e, forward) (ap (λ o. o.conn.events) e);
    }
forward-Stops (suc n) d (suc f) c conn ide es later enough clean =
    let e = response_deadline c (repeated n deadline (deadline ∷ es)) conn clean in
    rw (e, forward)
      (subst (λ o. Stops (forward d f (repeated n false (true ∷ later)) o.client o.conn ide) ide es)
        (sym e) (forward-Stops n d f (record c { buffer = [] }) conn ide es later (omega arith) tt))
