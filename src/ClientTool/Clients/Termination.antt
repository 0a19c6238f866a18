-- ===== src/ClientTool/Clients/Termination.antt =====
-- The client of the cloud ends: each session that is followed by another one has read something.
use dbgp_tools.Base.{
  Bytes, codes, ℕ, zero, suc, ◌<◌, ◌≢◌, ◌≡◌, refl, Bool, true, false, if◌then◌else◌, Option, none,
  some, [], ◌∷◌, ◌++◌, arith, ap,
}
use dbgp_tools.Go.Net.{Conn}
use dbgp_tools.Dbgpxml.Common.{Paint}
use dbgp_tools.Go.Net.Laws.{events-write}
use dbgp_tools.Go.Stream.Measure.{weight}
use dbgp_tools.Protocol.Client.{process_line, send_command, new_dbgp_client}
use dbgp_tools.ClientTool.Session.{
  Ended, aborted, closed, interrupted, read_failed, not_xml, not_understood, unsuccessful,
  input_ended, write_failed, unfinished, Setting, handle_connection,
}
use dbgp_tools.ClientTool.Session.Termination.{is_again, handle_connection-again}
use dbgp_tools.ClientTool.Clients.{
  Terminal, Cloud, CloudEnded, CloudResult, running, say, not_sent_line, init_not_sent,
  detach_not_sent, send, after_cloud_session, cloud_loop, cloud_done, run_as_cloud_client,
}

send-events : (text : Bytes) (s : Cloud) → weight (send text s).0.conn.events ≡ weight s.conn.events
unfolding send send_command
send-events text s = ap weight (events-write ((process_line text s.proto).content ++ 0 ∷ []) s.conn)

-- After a session the client ends, or it goes on with as much to read as the session left.
abbrev GoesOn : Ended → Cloud → Cloud × Option CloudEnded → Type 0
GoesOn e s (t, none) = (is_again e ≡ true) × (weight t.conn.events ≡ weight s.conn.events)
GoesOn e s (t, some why) = why ≢ running

detach-GoesOn :
    (s x y : Cloud) (lost : Bool)
    → weight y.conn.events ≡ weight s.conn.events
    → GoesOn interrupted s (if lost then (x, some detach_not_sent) else (y, none))
detach-GoesOn s x y true same = λ e. cc
detach-GoesOn s x y false same = (refl, same)

init-ends :
    (paint : Paint) (s : Cloud) (lost : Bool) (out : CloudResult)
    → out.ended ≢ running
    → (if lost then cloud_done paint init_not_sent s else out).ended ≢ running
unfolding cloud_done
init-ends paint s true out later = λ e. cc
init-ends paint s false out later = later

module _ (w : Setting) (error_text : Ended → Bytes) (user : Bytes) where
  after_cloud_session-GoesOn :
      (e : Ended) (s : Cloud) → GoesOn e s (after_cloud_session w error_text user e s)
  unfolding after_cloud_session
  after_cloud_session-GoesOn interrupted s = detach-GoesOn s _ _ _ (send-events (codes "detach") s)
  after_cloud_session-GoesOn closed s = (refl, refl)
  after_cloud_session-GoesOn aborted s = λ e. cc
  after_cloud_session-GoesOn (read_failed x) s = λ e. cc
  after_cloud_session-GoesOn (not_xml x) s = λ e. cc
  after_cloud_session-GoesOn not_understood s = λ e. cc
  after_cloud_session-GoesOn unsuccessful s = λ e. cc
  after_cloud_session-GoesOn input_ended s = λ e. cc
  after_cloud_session-GoesOn write_failed s = λ e. cc
  after_cloud_session-GoesOn unfinished s = λ e. cc

  after_session :
      (e : Ended) (s : Cloud) (x : Cloud × Option CloudEnded) (go : Cloud → CloudResult)
      → GoesOn e s x
      → ((t : Cloud)
          → is_again e ≡ true
          → weight t.conn.events ≡ weight s.conn.events
          → (go t).ended ≢ running)
      → (elim x.1 as (λ _. CloudResult) [
        | none ↦ go x.0
        | some why ↦ cloud_done w.printer.paint why x.0
      ]).ended
        ≢ running
  unfolding cloud_done
  after_session e s (t, none) go (again, same) later = later t again same
  after_session e s (t, some why) go ended later = ended

  cloud_loop_ends :
      (rounds fuel : ℕ) (s : Cloud)
      → weight s.conn.events < rounds
      → weight s.conn.events < fuel
      → (cloud_loop rounds fuel w error_text user s).ended ≢ running
  unfolding cloud_loop
  cloud_loop_ends zero fuel s more enough = absurd (omega arith)
  cloud_loop_ends (suc rounds) fuel s more enough =
      let out = handle_connection fuel w s.conn s.terminal.inputs s.terminal.interrupts in
      let left : Cloud = record s {
        conn = out.session.conn;
        terminal = record {
          inputs = out.session.inputs;
          interrupts = out.session.interrupts;
          screen = s.terminal.screen ++ out.session.screen;
        };
      } in
      let less =
        handle_connection-again fuel w s.conn s.terminal.inputs s.terminal.interrupts enough in
      after_session out.ended left (after_cloud_session w error_text user out.ended left)
        (cloud_loop rounds fuel w error_text user) (after_cloud_session-GoesOn out.ended left)
        (λ t again same.
          cloud_loop_ends rounds fuel t (omega (arith, more, same, less again))
            (omega (arith, enough, same, less again)))

-- With more rounds, and in each session more fuel, than there is to read, which is the bytes and the
-- events that the network brings, the client of the cloud ends by itself, whatever the cloud sends,
-- whatever is typed and whenever interrupts come.
pub run_as_cloud_client_ends :
    (rounds fuel : ℕ) (w : Setting) (error_text : Ended → Bytes) (domain dial_error user : Bytes)
    (conn : Conn) (t : Terminal)
    → weight conn.events < rounds
    → weight conn.events < fuel
    → (run_as_cloud_client rounds fuel w error_text domain dial_error user (some conn) t).ended
      ≢ running
unfolding run_as_cloud_client
run_as_cloud_client_ends rounds fuel w error_text domain dial_error user conn t more enough =
    let line = codes "cloudinit -u " ++ user in
    let s : Cloud = record { proto = new_dbgp_client; conn = conn; terminal = t } in
    let sent = send line s in
    let told = say (not_sent_line w.printer.paint error_text (codes "cloudinit")) sent.0 in
    let same = send-events line s in
    init-ends w.printer.paint told sent.1 _ (
      cloud_loop_ends w error_text user rounds fuel sent.0 (omega (arith, more, same))
        (omega (arith, enough, same)))
