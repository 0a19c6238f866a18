-- ===== src/Command/ProxyInit/Effect.antt =====
-- What proxyinit does to the list, and what it answers.
use dbgp_tools.Base.{
  Bytes, codes, eq_refl, ◌==◌, if◌then◌else◌, ◌≡◌, refl, ap, ◌∙◌, true, false, Option, none, some,
}
use dbgp_tools.Go.Decimal.{itoa}
use dbgp_tools.Go.Xml.Laws.{NoZero}
use dbgp_tools.Connections.{Registry, already_connected, error_text, Connection, Error}
use dbgp_tools.Connections.Calls.{Reply, Call, register, step, done, raised}
use dbgp_tools.Connections.Refinement.{spec_step, View, view, fresh, bind_key, step-Refines}
use dbgp_tools.Connections.WellFormed.{IsWellFormed}
use dbgp_tools.Dbgpxml.ProxyInit.{new_proxy_init, as_xml, as_xml-NoZero}
use dbgp_tools.Command.ProxyInit.{ProxyInitCommand, answer, handle}

module _ (sid : Bytes) (c : ProxyInitCommand) (r : Registry) (w : IsWellFormed r) where
  -- the call of the list
  abbrev registering : Call
  registering = register c.ide_key c.ip_address (itoa c.port) c.ssl none sid

  handle-registry : (handle sid c r).registry ≡ (step r registering).0
  unfolding handle step
  handle-registry = refl

  handle-answer : (handle sid c r).answer ≡ answer c (step r registering).1.error
  unfolding handle step
  handle-answer = refl

  spec_new :
      view r c.ide_key ≡ none
      → spec_step r.force_add (view r) registering ≡ (
        bind_key c.ide_key
            (some (fresh c.ide_key c.ip_address (itoa c.port) c.ssl none sid))
            (view r),
        done,
      )
  spec_new absent = rw (absent, spec_step)

  spec_taken :
      (old : Connection)
      → view r c.ide_key ≡ some old
      → r.force_add ≡ false
      → spec_step r.force_add (view r) registering ≡ (view r, raised (already_connected c.ide_key))
  spec_taken old here mode = rw (here, spec_step, mode)

  spec_forced :
      (old : Connection)
      → view r c.ide_key ≡ some old
      → r.force_add ≡ true
      → spec_step r.force_add (view r) registering ≡ (bind_key c.ide_key none (view r), done)
  spec_forced old here mode = rw (here, spec_step, mode)

  handle_lem :
      (out : View × Reply)
      → spec_step r.force_add (view r) registering ≡ out
      → ((handle sid c r).answer ≡ answer c out.1.error)
        × ((j : Bytes) → view (handle sid c r).registry j ≡ out.0 j)
  handle_lem out e =
      let s = step-Refines r w registering in
      (
        handle-answer ∙ ap (λ a. answer c a.error) (s.same_reply ∙ ap (λ o. o.1) e),
        λ j. rw handle-registry (s.same_view j ∙ ap (λ o. o.0 j) e),
      )

  -- A proxyinit whose key leads to no connection, on a well-formed list: the answer is a success
  -- with the key, address, port and SSL flag, and afterwards the key leads to a new connection,
  -- not claimed, with the command's address, port and SSL flag, and every other key to what it led
  -- to before.
  pub handle-new :
      view r c.ide_key ≡ none
      → ((handle sid c r).answer
          ≡ as_xml (new_proxy_init true c.ide_key c.ip_address c.port c.ssl none))
        × ((j : Bytes)
            → view (handle sid c r).registry j ≡ (
                if c.ide_key == j
                then some (fresh c.ide_key c.ip_address (itoa c.port) c.ssl none sid)
                else view r j))
  unfolding answer
  handle-new absent = handle_lem _ (spec_new absent)

  -- A proxyinit whose key is registered, on a well-formed list of a proxy without -f: the answer
  -- is the failure PROXY-ERR-01 that names the key, and every key leads to what it led to before.
  pub handle-taken :
      (old : Connection)
      → view r c.ide_key ≡ some old
      → r.force_add ≡ false
      → ((handle sid c r).answer
          ≡ as_xml (
              new_proxy_init false c.ide_key c.ip_address c.port c.ssl (
                some (record {
                  id = codes "PROXY-ERR-01";
                  message = error_text (already_connected c.ide_key);
                }))))
        × ((j : Bytes) → view (handle sid c r).registry j ≡ view r j)
  unfolding answer
  handle-taken old here mode = handle_lem _ (spec_taken old here mode)

  -- A proxyinit whose key is registered, on a well-formed list of a proxy with -f: the answer is a
  -- success, and afterwards the key leads to no connection, neither the old one nor the new one.
  pub handle-forced :
      (old : Connection)
      → view r c.ide_key ≡ some old
      → r.force_add ≡ true
      → ((handle sid c r).answer
          ≡ as_xml (new_proxy_init true c.ide_key c.ip_address c.port c.ssl none))
        × (view (handle sid c r).registry c.ide_key ≡ none)
  unfolding answer
  handle-forced old here mode =
      let out = handle_lem _ (spec_forced old here mode) in
      (out.0, out.1 c.ide_key ∙ rw (eq_refl c.ide_key))

-- The answer's text holds no byte 0, whatever the command and the error.
pub answer-NoZero : (c : ProxyInitCommand) (e : Option Error) → NoZero (answer c e)
unfolding answer
answer-NoZero c none = as_xml-NoZero _
answer-NoZero c (some e) = as_xml-NoZero _
