-- ===== src/Proxy/ClientHandler/Called.antt =====
-- What a handler does to the list is a sequence of calls of its methods, each under the list's mutex.
use dbgp_tools.Base.{Bytes, ◌≡◌, refl, List, [], ◌∷◌, ap, ◌∙◌, sym, ◌++◌, none}
use dbgp_tools.Go.Decimal.{itoa}
use dbgp_tools.Go.Net.{Conn}
use dbgp_tools.Connections.{Registry}
use dbgp_tools.Connections.Calls.{Call, register, remove, step, run}
use dbgp_tools.Connections.WellFormed.{IsWellFormed, run-IsWellFormed}
use dbgp_tools.Command.ProxyInit
use dbgp_tools.Command.ProxyStop
use dbgp_tools.Protocol.Server.{
  DbgpCommand, proxy_init, proxy_stop, handle, Received, command, failure, read_command,
}
use dbgp_tools.Proxy.ClientHandler.{serve, serve_received, answered}

-- The calls that lead from one list to another.
pub record Called (r r' : Registry) : Type 0 where
  pub calls : List Call
  pub made : r' ≡ (run r calls).0

pub Called-refl : (r : Registry) → Called r r
Called-refl r = record { calls = []; made = unfold run in refl }

pub Called-step : (r : Registry) (c : Call) → Called r (step r c).0
Called-step r c = record { calls = c ∷ []; made = unfold run in refl }

run-append : (r : Registry) (xs ys : List Call) → (run r (xs ++ ys)).0 ≡ (run (run r xs).0 ys).0
unfolding run
run-append r [] ys = refl
run-append r (x ∷ xs) ys = run-append (step r x).0 xs ys

pub compose : {r s t : Registry} → Called r s → Called s t → Called r t
compose {r} {s} {t} a b = record {
  calls = a.calls ++ b.calls;
  made = b.made ∙ ap (λ x. (run x b.calls).0) a.made ∙ sym (run-append r a.calls b.calls);
}

pub Called-IsWellFormed : {r s : Registry} → Called r s → IsWellFormed r → IsWellFormed s
Called-IsWellFormed {r} c w = rw c.made (run-IsWellFormed r c.calls w)

handle-Called :
    (sid : Bytes) (cmd : DbgpCommand) (r : Registry) → Called r (handle sid cmd r).registry
unfolding handle ProxyInit.handle ProxyStop.handle step
handle-Called sid (proxy_init c) r =
    Called-step r (register c.ide_key c.ip_address (itoa c.port) c.ssl none sid)
handle-Called sid (proxy_stop c) r = Called-step r (remove c.ide_key)

serve_received-Called :
    (sid : Bytes) (r : Registry) (x : Received DbgpCommand) (conn : Conn)
    → Called r (serve_received sid r x conn).registry
unfolding serve_received answered
serve_received-Called sid r (command cmd) conn = handle-Called sid cmd r
serve_received-Called sid r (failure f) conn = Called-refl r

pub serve-Called :
    (host sid : Bytes) (r : Registry) (conn : Conn) → Called r (serve host sid r conn).registry
unfolding serve
serve-Called host sid r conn =
    let reading = read_command host [] conn in
    serve_received-Called sid r reading.received reading.conn
