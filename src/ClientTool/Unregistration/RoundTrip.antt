-- ===== src/ClientTool/Unregistration/RoundTrip.antt =====
-- A registration and an unregistration of the same key.
use dbgp_tools.Base.{
  Bytes, ◌==◌, ◌≡◌, refl, ap, ◌∙◌, sym, ℕ, Bool, none, some, [], ◌∷◌, ◌++◌, List, eq_iff, eq_refl,
  Bool-cases, inl, inr,
}
use dbgp_tools.Base.Int.{pos}
use dbgp_tools.Go.Decimal.{itoa}
use dbgp_tools.Go.Net.{arriving}
use dbgp_tools.Go.Stream.{Event}
use dbgp_tools.Go.Stream.Laws.{OnlyChunks, bytes_of}
use dbgp_tools.Connections.{Registry}
use dbgp_tools.Connections.Calls.{targets}
use dbgp_tools.Connections.Refinement.{view, fresh}
use dbgp_tools.Connections.WellFormed.{IsWellFormed}
use dbgp_tools.Protocol.Client.{DbgpClient}
use dbgp_tools.Proxy.ClientHandler.{serve, done}
use dbgp_tools.Proxy.ClientHandler.Called.{serve-Called, Called-IsWellFormed}
use dbgp_tools.ClientTool.Registration
use dbgp_tools.ClientTool.Registration.{IsRegistrable, serve_registers}
use dbgp_tools.ClientTool.Unregistration
use dbgp_tools.ClientTool.Unregistration.{IsStoppable, serve_unregisters}

module _ (c c' : DbgpClient) (key host host' sid sid' : Bytes) (n : ℕ) (ssl : Bool) (r : Registry)
    (there there' : List Event) where
  -- Unregistering undoes registering. Let a key have no space and no byte 0, end in a printable ASCII
  -- character and not be "-i", let the port be in the range of `int`, and let the proxy's list be
  -- well-formed and not know the key. If the proxy reads the line that registers the key, and then on
  -- another connection the line that unregisters it, however the network cuts them, both commands are
  -- carried out, the list leads from every key to what it led to at first, and no connection is told to
  -- close.
  pub register_unregister :
      IsRegistrable c key n ssl
      → IsStoppable c' key
      → IsWellFormed r
      → view r key ≡ none
      → OnlyChunks there
      → OnlyChunks there'
      → bytes_of there ≡ Registration.line c key n ssl ++ 0 ∷ []
      → bytes_of there' ≡ Unregistration.line c' key ++ 0 ∷ []
      → let first = serve host sid r (arriving there) in
        let second = serve host' sid' first.registry (arriving there') in
        (first.outcome ≡ done)
        × (second.outcome ≡ done)
        × ((j : Bytes) → view second.registry j ≡ view r j)
        × (targets first.registry.heap second.sends ≡ [])
  register_unregister ok_input ok_stop w absent calm calm' written written' =
      let out = serve host sid r (arriving there) in
      let (done_first, views, _) =
        serve_registers c key n ssl ok_input host sid r there w absent calm written in
      let held = Called-IsWellFormed (serve-Called host sid r (arriving there)) w in
      let here : view out.registry key ≡ some (fresh key host (itoa (pos n)) ssl none sid) =
        views key ∙ rw (eq_refl key) refl in
      let (done_second, views', closes, _) =
        serve_unregisters c' key ok_stop host' sid' out.registry _ there' held here calm'
          written' in
      (
        done_first,
        done_second,
        λ j. elim (Bool-cases (key == j)) [
          | inl same ↦ views' j ∙ rw same (sym (ap (view r) (sym ((eq_iff key j).0 same)) ∙ absent))
          | inr other ↦ views' j ∙ rw other (views j ∙ rw other refl)
        ],
        closes,
      )
