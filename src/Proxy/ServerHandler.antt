-- ===== src/Proxy/ServerHandler.antt =====
-- lib/proxy/client.go: the connection from Xdebug, ServerHandler.Handle, one round of its loop, and
-- sendDetach. The loop is `turn` again for as long as the round says so.
pub mod Detached
pub mod Session
pub mod Sound
pub mod Loop
use dbgp_tools.Base.{
  Bytes, codes, ◌==◌, ℕ, Bool, if◌then◌else◌, true, Option, none, some, List, [], ◌∷◌, map,
}
use dbgp_tools.Go.Net.{Conn}
use dbgp_tools.Go.Stream.{ReadError, eof, timeout, io_error, failure}
use dbgp_tools.Connections.{
  Registry, Pointer, ConnectionControl, find_by_key, remove_by_key, Removal,
}
use dbgp_tools.Dbgpxml.Init.{Init}
use dbgp_tools.Protocol.Client.{
  DbgpClient, Response, new_dbgp_client, read_response, packet, timed_out, length_failed,
  data_failed,
}
use dbgp_tools.Protocol.Formatting.{
  Decoder, RunResult, Ran, run_command, succeeded, panicked, write_failed, read_failed, not_xml,
  refused,
}
use dbgp_tools.Proxy.ConnectToIde.{IdeNetwork, connect_to_ide}
use dbgp_tools.Proxy.Forwarder.{
  Forwarded, setup_forwarder, finished, lost, ide_closed, init_not_sent, unfinished,
}

abbrev pub detach_line : Bytes
detach_line = codes "detach -- \"dbgpProxy has no IDE connected to it\""

-- handler.sendDetach(conn); its error is only logged
unfoldable pub send_detach : Decoder → Conn → Ran
unfolding run_command
send_detach d conn = run_command d detach_line new_dbgp_client conn

-- The switch: the cloud user before the IDE key.
unfoldable pub key_of : Init → Option Bytes
key_of m =
    if m.cloud_user_id == []
    then (if m.ide_key == [] then none else some m.ide_key)
    else some m.cloud_user_id

-- What the loop does next: goes on, returns nil or an error, or is stopped by a panic. RemoveByKey of a
-- connection that is claimed sends on its channel ControlRequests, which has no buffer and from which
-- nothing in the repository receives, so that `blocked` is for ever. `out_of_fuel` is no behaviour of
-- the code: the fuel of a session did not suffice.
pub data Next : Type 0 where
  again returned no_key crashed blocked out_of_fuel : Next
  unreadable : ReadError → Next

-- The loop goes on after sendDetach, whatever the error, unless RunCommand panics in it.
abbrev pub after_detach : RunResult → Next
after_detach panicked = crashed
after_detach succeeded = again
after_detach write_failed = again
after_detach (read_failed e) = again
after_detach (not_xml text) = again
after_detach (refused text) = again

-- `ide` is the connection to the IDE, if there was one, and `detach` what sendDetach led to.
pub record Turn : Type 0 where
  pub next : Next
  pub registry : Registry
  pub sends : List (Pointer × ConnectionControl)
  pub reader : DbgpClient
  pub conn : Conn
  pub ide : Option Conn
  pub detach : Option RunResult

-- What the environment does during a round: whether the IDE can be reached, what the read timeouts
-- of the session find, and what other connections do to the list while the session lasts.
pub record World : Type 0 where
  pub decoder : Decoder
  pub network : IdeNetwork
  pub fuel : ℕ
  pub ended : List Bool
  pub meanwhile : Registry → Registry

-- No IDE for the key.
unfoldable pub without_ide : World → DbgpClient → Conn → Registry → Turn
unfolding send_detach
without_ide w c conn r =
    let ran = send_detach w.decoder conn in
    record {
      next = after_detach ran.result;
      registry = r;
      sends = [];
      reader = c;
      conn = ran.conn;
      ide = none;
      detach = some ran.result;
    }

-- What follows RemoveByKey: if it had nothing to send, Xdebug is released.
after_removal : World → Removal → DbgpClient → Conn → Option Conn → Turn
unfolding send_detach
after_removal w removal c conn ide = elim removal.sends [
  | [] ↦
      let ran = send_detach w.decoder conn in
      record {
        next = after_detach ran.result;
        registry = removal.registry;
        sends = [];
        reader = c;
        conn = ran.conn;
        ide = ide;
        detach = some ran.result;
      }
  | send ∷ sends ↦ record {
    next = blocked;
    registry = removal.registry;
    sends = send ∷ sends;
    reader = c;
    conn = conn;
    ide = ide;
    detach = none;
  }
]

-- setupForwarder returned an error: the key is removed and Xdebug is released.
pub released : World → Bytes → DbgpClient → Conn → Option Conn → Registry → Turn
unfolding after_removal remove_by_key
released w key c conn ide r = after_removal w (remove_by_key key r) c conn ide

session_over : Next → DbgpClient → Conn → Conn → Registry → Turn
session_over next c conn ide r = record {
  next = next;
  registry = r;
  sends = [];
  reader = c;
  conn = conn;
  ide = some ide;
  detach = none;
}

-- The connection from Xdebug after the session has closed it: reading fails once the buffer of Handle's
-- reader holds no whole packet, and every write fails. A round writes at most once, and reads a byte or
-- more from that buffer, so its length bounds the writes.
broken : DbgpClient → Conn → Conn
broken c conn = record conn { events = failure ∷ []; faults = map (λ b. true) c.buffer }

after_session : World → Bytes → DbgpClient → Conn → Option Forwarded → Registry → Turn
unfolding released session_over broken
after_session w key c conn none r = released w key c conn none r
after_session w key c conn (some out) r = elim out.outcome [
  | ide_closed ↦ released w key c out.conn (some out.ide) r
  | init_not_sent ↦ released w key c out.conn (some out.ide) r
  | finished ↦ session_over again c out.conn out.ide r
  | lost ↦ session_over again c (broken c out.conn) out.ide r
  | unfinished ↦ session_over out_of_fuel c out.conn out.ide r
]

with_key : World → Bytes → Bytes → DbgpClient → Conn → Registry → Turn
unfolding find_by_key without_ide after_session setup_forwarder connect_to_ide
with_key w key text c conn r = elim (find_by_key key r) [
  | none ↦ without_ide w c conn r
  | some p ↦
      after_session w key c conn
        (setup_forwarder w.decoder w.fuel w.ended (connect_to_ide w.network (r.heap p)) text conn)
        (w.meanwhile r)
]

stay : Next → DbgpClient → Conn → Registry → Turn
stay next c conn r = record {
  next = next;
  registry = r;
  sends = [];
  reader = c;
  conn = conn;
  ide = none;
  detach = none;
}

read_error : ReadError → Next
read_error eof = returned
read_error timeout = unreadable timeout
read_error io_error = unreadable io_error

with_response : World → Response → DbgpClient → Conn → Registry → Turn
unfolding with_key stay read_error key_of
with_response w timed_out c conn r = stay again c conn r
with_response w (length_failed e) c conn r = stay (read_error e) c conn r
with_response w (data_failed e) c conn r = stay (read_error e) c conn r
with_response w (packet text) c conn r = elim (key_of (w.decoder.init text).value) [
  | none ↦ stay no_key c conn r
  | some key ↦ with_key w key text c conn r
]

-- One round of the loop of handler.Handle(conn), with its reader and connection
unfoldable pub turn : World → Bool → DbgpClient → Conn → Registry → Turn
unfolding read_response with_response stay
turn w interrupted c conn r =
    let out = read_response c conn in
    if interrupted
    then stay returned out.client out.conn r
    else with_response w out.response out.client out.conn r
