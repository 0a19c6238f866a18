-- ===== src/Command/ProxyStop/Effect.antt =====
-- What proxystop does to the list, and what it answers.
use dbgp_tools.Base.{
  Bytes, codes, ◌==◌, if◌then◌else◌, ◌≡◌, refl, ap, ◌∙◌, true, false, Option, none, some, [],
}
use dbgp_tools.Go.Xml.Laws.{NoZero}
use dbgp_tools.Connections.{Registry, Connection, Error, not_registered, error_text}
use dbgp_tools.Connections.Calls.{Reply, remove, step, raised, targets}
use dbgp_tools.Connections.Refinement.{
  closing, View, view, spec_step, bind_key, close_reply, step-Refines,
}
use dbgp_tools.Connections.WellFormed.{IsWellFormed, step-IsWellFormed}
use dbgp_tools.Dbgpxml.ProxyStop.{new_proxy_stop, as_xml, as_xml-NoZero}
use dbgp_tools.Command.ProxyStop.{ProxyStopCommand, answer, handle}

module _ (c : ProxyStopCommand) (r : Registry) (w : IsWellFormed r) where
  handle-registry : (handle c r).registry ≡ (step r (remove c.ide_key)).0
  unfolding handle step
  handle-registry = refl

  pub handle-IsWellFormed : IsWellFormed (handle c r).registry
  handle-IsWellFormed = rw handle-registry (step-IsWellFormed r w (remove c.ide_key))

  handle-answer : (handle c r).answer ≡ answer c (step r (remove c.ide_key)).1.error
  unfolding handle step
  handle-answer = refl

  handle-closed : targets r.heap (handle c r).sends ≡ (step r (remove c.ide_key)).1.controls
  unfolding handle step
  handle-closed = refl

  handle_lem :
      (out : View × Reply)
      → spec_step r.force_add (view r) (remove c.ide_key) ≡ out
      → ((handle c r).answer ≡ answer c out.1.error)
        × ((j : Bytes) → view (handle c r).registry j ≡ out.0 j)
        × (targets r.heap (handle c r).sends ≡ out.1.controls)
  handle_lem out e =
      let s = step-Refines r w (remove c.ide_key) in
      (
        handle-answer ∙ ap (λ a. answer c a.error) (s.same_reply ∙ ap (λ o. o.1) e),
        λ j. rw handle-registry (s.same_view j ∙ ap (λ o. o.0 j) e),
        handle-closed ∙ ap (λ a. a.controls) (s.same_reply ∙ ap (λ o. o.1) e),
      )

  spec_absent :
      view r c.ide_key ≡ none
      → spec_step r.force_add (view r) (remove c.ide_key)
        ≡ (view r, raised (not_registered c.ide_key))
  spec_absent absent = rw (absent, spec_step)

  spec_present :
      (old : Connection)
      → view r c.ide_key ≡ some old
      → spec_step r.force_add (view r) (remove c.ide_key)
        ≡ (bind_key c.ide_key none (view r), close_reply old)
  spec_present old here = rw (here, spec_step)

  -- A proxystop whose key is registered, on a well-formed list: the answer is a success,
  -- afterwards the key leads to nothing and every other key to what it led to before, and the
  -- connection is told to close exactly if it was claimed.
  pub handle-present :
      (old : Connection)
      → view r c.ide_key ≡ some old
      → ((handle c r).answer ≡ as_xml (new_proxy_stop true c.ide_key none))
        × ((j : Bytes) → view (handle c r).registry j ≡ (if c.ide_key == j then none else view r j))
        × (targets r.heap (handle c r).sends ≡ closing old)
  unfolding answer
  handle-present old here = handle_lem _ (spec_present old here)

  -- A proxystop whose key is not registered, on a well-formed list: the answer is the failure
  -- PROXY-ERR-02 that names the key, every key leads to what it led to before, and nothing is
  -- sent.
  pub handle-absent :
      view r c.ide_key ≡ none
      → ((handle c r).answer
          ≡ as_xml (
              new_proxy_stop false c.ide_key (
                some (record {
                  id = codes "PROXY-ERR-02";
                  message = error_text (not_registered c.ide_key);
                }))))
        × ((j : Bytes) → view (handle c r).registry j ≡ view r j)
        × (targets r.heap (handle c r).sends ≡ [])
  unfolding answer
  handle-absent absent = handle_lem _ (spec_absent absent)

-- The answer's text holds no byte 0, whatever the command and the error.
pub answer-NoZero : (c : ProxyStopCommand) (e : Option Error) → NoZero (answer c e)
unfolding answer
answer-NoZero c none = as_xml-NoZero _
answer-NoZero c (some e) = as_xml-NoZero _
