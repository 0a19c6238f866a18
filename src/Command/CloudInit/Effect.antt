-- ===== src/Command/CloudInit/Effect.antt =====
-- What cloudinit and its Close do to the list.
use dbgp_tools.Base.{
  Bytes, codes, eq_iff, eq_refl, ◌==◌, if◌then◌else◌, ◌≡◌, refl, sym, ap, ◌∙◌, true, false, none,
  some, [], arith,
}
use dbgp_tools.Connections.{Registry, Connection, already_connected, error_text}
use dbgp_tools.Connections.Calls.{Call, Reply, register, remove, step, done, raised}
use dbgp_tools.Connections.Refinement.{View, view, fresh, spec_step, bind_key, step-Refines}
use dbgp_tools.Connections.WellFormed.{IsWellFormed, step-IsWellFormed}
use dbgp_tools.Dbgpxml.CloudInit.{new_cloud_init, as_xml}
use dbgp_tools.Command.CloudStop
use dbgp_tools.Command.CloudStop.{CloudStopCommand}
use dbgp_tools.Command.CloudInit.{CloudInitCommand, after_add, answer, handle, close}

abbrev pub registering : Bytes → CloudInitCommand → Call
registering sid c = register c.user_id [] [] true (some c.connection) sid

-- The connection that the command registers.
abbrev pub connected : Bytes → CloudInitCommand → Connection
connected sid c = fresh c.user_id [] [] true (some c.connection) sid

module _ (sid : Bytes) (c : CloudInitCommand) (r : Registry) (w : IsWellFormed r) where
  handle-command : (handle sid c r).0 ≡ after_add c (step r (registering sid c)).1.error
  unfolding handle step
  handle-command = refl

  handle-registry : (handle sid c r).1.registry ≡ (step r (registering sid c)).0
  unfolding handle step
  handle-registry = refl

  handle-answer : (handle sid c r).1.answer ≡ answer c (step r (registering sid c)).1.error
  unfolding handle step
  handle-answer = refl

  pub handle-IsWellFormed : IsWellFormed (handle sid c r).1.registry
  handle-IsWellFormed = rw handle-registry (step-IsWellFormed r w (registering sid c))

  pub record Leaves (out : View × Reply) : Type 0 where
    pub command : (handle sid c r).0 ≡ after_add c out.1.error
    pub text : (handle sid c r).1.answer ≡ answer c out.1.error
    pub views : (j : Bytes) → view (handle sid c r).1.registry j ≡ out.0 j

  handle_lem :
      (out : View × Reply) → spec_step r.force_add (view r) (registering sid c) ≡ out → Leaves out
  handle_lem out e =
      let s = step-Refines r w (registering sid c) in
      let same = s.same_reply ∙ ap (λ o. o.1) e in
      record {
        command = handle-command ∙ ap (λ a. after_add c a.error) same;
        text = handle-answer ∙ ap (λ a. answer c a.error) same;
        views = λ j. rw handle-registry (s.same_view j ∙ ap (λ o. o.0 j) e);
      }

  pub new-Leaves :
      view r c.user_id ≡ none → Leaves (bind_key c.user_id (some (connected sid c)) (view r), done)
  new-Leaves absent = handle_lem _ (rw (absent, spec_step))

  pub new_registered :
      view r c.user_id ≡ none → view (handle sid c r).1.registry c.user_id ≡ some (connected sid c)
  new_registered absent = (new-Leaves absent).views c.user_id ∙ rw (eq_refl c.user_id)

  pub taken-Leaves :
      (old : Connection)
      → view r c.user_id ≡ some old
      → r.force_add ≡ false
      → Leaves (view r, raised (already_connected c.user_id))
  taken-Leaves old here mode = handle_lem _ (rw (here, spec_step, mode))

module _ (c : CloudInitCommand) (r : Registry) (w : IsWellFormed r) where
  close-registry : c.needs_removing ≡ true → (close c r).0 ≡ (step r (remove c.user_id)).0
  unfolding close step
  close-registry e = rw e

  -- Close of a command that holds a key frees that key and no other.
  pub close-view :
      (old : Connection)
      → c.needs_removing ≡ true
      → view r c.user_id ≡ some old
      → (j : Bytes) → view (close c r).0 j ≡ (if c.user_id == j then none else view r j)
  close-view old e here j =
      rw (close-registry e)
        ((step-Refines r w (remove c.user_id)).same_view j ∙ rw (here, spec_step))

-- A cloudinit whose user is connected already, on a well-formed list without -f, is refused with
-- CLOUD-ERR-11, and the Close of its command then sends nothing; after both, every key leads to
-- what it led to before, so the client that holds the key stays.
pub close-handle-taken :
    (sid : Bytes) (c : CloudInitCommand) (r : Registry) (old : Connection)
    → IsWellFormed r
    → view r c.user_id ≡ some old
    → r.force_add ≡ false
    → let (c', h) = handle sid c r in
      (h.answer
        ≡ as_xml (
            new_cloud_init false c.user_id
              (some (record {
                id = codes "CLOUD-ERR-11";
                message = error_text (already_connected c.user_id);
              }))
              false
              none))
      × ((close c' h.registry).1 ≡ [])
      × ((j : Bytes) → view (close c' h.registry).0 j ≡ view r j)
unfolding answer close
close-handle-taken sid c r old w here mode =
    let l = taken-Leaves sid c r w old here mode in
    (l.text, rw (l.command), λ j. rw (l.command) (l.views j))

-- A cloudinit with a user that is not connected, on a well-formed list, is accepted, and the Close
-- of its command frees the key again: after both, every key leads to what it led to before. The
-- command is one whose needsRemoving is set, as the constructor sets it.
pub close-handle-new :
    (sid : Bytes) (c : CloudInitCommand) (r : Registry)
    → IsWellFormed r
    → view r c.user_id ≡ none
    → c.needs_removing ≡ true
    → let (c', h) = handle sid c r in
      (h.answer ≡ as_xml (new_cloud_init true c.user_id none false none))
      × ((j : Bytes) → view (close c' h.registry).0 j ≡ view r j)
unfolding answer
close-handle-new sid c r w absent e =
    let l = new-Leaves sid c r w absent in
    let w' = handle-IsWellFormed sid c r w in
    let here = new_registered sid c r w absent in
    (
      l.text,
      λ j. rw l.command (
          close-view c (handle sid c r).1.registry w' _ e here j
          ∙ ground (arith, l.views j, eq_iff c.user_id j, absent)),
    )

-- Close removes by key and not by connection. When, on a well-formed list, a user's first client
-- was accepted, a cloudstop removed it and a second client of the same user was accepted, the
-- user's key leads to the second client's connection, and the Close of the first client's command
-- frees that key, though the second client's command is still open.
pub close_stale :
    (sid sid' : Bytes) (first second : CloudInitCommand) (stop : CloudStopCommand) (r : Registry)
    → IsWellFormed r
    → view r first.user_id ≡ none
    → first.needs_removing ≡ true
    → stop.user_id ≡ first.user_id
    → second.user_id ≡ first.user_id
    → let (first', h) = handle sid first r in
      let s = CloudStop.handle stop h.registry in
      let (second', h') = handle sid' second s.registry in
      (view h'.registry first.user_id ≡ some (connected sid' second))
      × (view (close first' h'.registry).0 first.user_id ≡ none)
close_stale sid sid' first second stop r w absent e same_stop same_second =
    let l = new-Leaves sid first r w absent in
    let r1 = (handle sid first r).1.registry in
    let w1 = handle-IsWellFormed sid first r w in
    let here = new_registered sid first r w absent in
    let r2 = (CloudStop.handle stop r1).registry in
    let w2 = CloudStop.Effect.handle-IsWellFormed stop r1 w1 in
    let gone : view r2 second.user_id ≡ none =
      (CloudStop.Effect.handle-present stop r1 w1 (connected sid first) (rw same_stop here)).1
        second.user_id
      ∙ rw (same_stop, same_second, eq_refl first.user_id) in
    let r3 = (handle sid' second r2).1.registry in
    let w3 = handle-IsWellFormed sid' second r2 w2 in
    let there : view r3 first.user_id ≡ some (connected sid' second) =
      ap (view r3) (sym same_second) ∙ new_registered sid' second r2 w2 gone in
    (
      there,
      rw l.command (
          close-view first r3 w3 (connected sid' second) e there first.user_id
          ∙ rw (eq_refl first.user_id)),
    )
