-- ===== src/ClientTool/Registration.antt =====
-- A registration from the line that the client writes to the list and the answer of the proxy.
pub mod Command
pub mod Forwarding
use dbgp_tools.Base.{
  Bytes, codes, eq-false, ◌==◌, Lacks, ℕ, ◌≤◌, ◌≡◌, refl, sym, ap, ◌∙◌, ◌≢◌, inl, Bool, true, false,
  [], ◌∷◌, arith, List, none, ◌++◌, if◌then◌else◌, some,
}
use dbgp_tools.Go.Net.{arriving}
use dbgp_tools.Connections.WellFormed.{IsWellFormed}
use dbgp_tools.Connections.Refinement.{view, fresh}
use dbgp_tools.Dbgpxml.ProxyInit.{new_proxy_init, as_xml, ProxyInit}
use dbgp_tools.Command.ProxyInit.Effect.{handle-new}
use dbgp_tools.Protocol.Client.{DbgpClient, dash_i, contains, process_line}
use dbgp_tools.Protocol.Client.Packets.{itoa-Lacks}
use dbgp_tools.Protocol.Server.{parse_line, proxy_init, frame}
use dbgp_tools.Protocol.Server.Laws.{read_command-line, parse_line-proxy_init, handle-proxy_init}
use dbgp_tools.Proxy.ClientHandler.{serve, done}
use dbgp_tools.Proxy.ClientHandler.Laws.{serve-command}
use dbgp_tools.Go.Stream.{Event}
use dbgp_tools.Go.Stream.Laws.{bytes_of, OnlyChunks}
use mathlib.Core.Path.{subst}
use dbgp_tools.Base.Int.{pos}
use dbgp_tools.Go.Decimal.{itoa, atoi, max_int}
use dbgp_tools.Go.Decimal.RoundTrip.{atoi-itoa}
use dbgp_tools.Go.Text.{split, join}
use dbgp_tools.Go.Text.Laws.{join-split, join-All}
use dbgp_tools.Command.{ok}
use dbgp_tools.Command.ProxyInit.{ProxyInitCommand, create_proxy_init}
use dbgp_tools.Command.ProxyInit.Parsing.{create_proxy_init_lem}
use dbgp_tools.Command.Arguments.{flatten}
use dbgp_tools.Protocol.Client.Lines.{space, process_line-without_i}
use dbgp_tools.ClientTool.Register.{register_command}
use dbgp_tools.ClientTool.RegisterLine.{
  pairs, pairs-All, register_command-parts, register_command-lacks_i,
}
use dbgp_tools.Connections.{Registry}

-- What the proxy makes of the line.
abbrev pub registered : Bytes → Bytes → ℕ → Bool → ProxyInitCommand
registered host key n ssl = record {
  ide_key = key;
  ip_address = host;
  port = pos n;
  multiple_supported = true;
  ssl = ssl;
}

create_registered :
    (host key : Bytes) (n i : ℕ) (ssl : Bool)
    → key ≢ []
    → n ≤ max_int
    → create_proxy_init host (dash_i ∷ itoa (pos i) ∷ flatten (pairs key (pos n) ssl))
      ≡ ok (registered host key n ssl)
unfolding ◌==◌ atoi
create_registered host key n i true h fits =
    create_proxy_init_lem host (dash_i ∷ itoa (pos i) ∷ flatten (pairs key (pos n) true))
    ∙ rw (atoi-itoa n fits, eq-false key [] h) (ground (arith, atoi-itoa n fits))
create_registered host key n i false h fits =
    create_proxy_init_lem host (dash_i ∷ itoa (pos i) ∷ flatten (pairs key (pos n) false))
    ∙ rw (atoi-itoa n fits, eq-false key [] h) (ground (arith, atoi-itoa n fits))

module _ (c : DbgpClient) (key : Bytes) (n : ℕ) (ssl : Bool) where
  -- The line that the client writes, without the byte 0 behind it.
  abbrev pub line : Bytes
  line = (process_line (register_command key (pos n) ssl) c).content

  -- What a user can register: a key that a line can hold, and a port in the range of `int`.
  pub record IsRegistrable : Type 0 where
    pub not_empty : key ≢ []
    pub not_flag : key ≢ dash_i
    pub no_space : Lacks space key
    pub no_zero : Lacks 0 key
    pub port_fits : n ≤ max_int

  -- The answer of success.
  abbrev pub success : Bytes → ProxyInit
  success host = new_proxy_init true key host (pos n) ssl none

  module _ (ok_input : IsRegistrable) where
    line_parts :
        split space line
        ≡ codes "proxyinit" ∷ dash_i ∷ itoa (pos c.counter) ∷ flatten (pairs key (pos n) ssl)
    line_parts =
        (process_line-without_i (register_command key (pos n) ssl) c (codes "proxyinit")
          (flatten (pairs key (pos n) ssl))
          (ap (contains dash_i) (register_command-parts key n ssl ok_input.no_space)
            ∙ register_command-lacks_i key n ssl ok_input.not_flag)
          (register_command-parts key n ssl ok_input.no_space)).0

    line-Lacks : Lacks 0 line
    line-Lacks = subst (Lacks 0) (ap (join space) (sym line_parts) ∙ join-split space line) (
        join-All space 0 _ (omega arith) (
          omega arith,
          (
            omega arith,
            (
              itoa-Lacks c.counter,
              pairs-All 0 key n ssl (inl refl) ok_input.no_zero (itoa-Lacks n),
            ),
          ),
        ))

    parse_line-line :
        (host : Bytes) → parse_line host line ≡ ok (proxy_init (registered host key n ssl))
    parse_line-line host =
        parse_line-proxy_init host line _ _ line_parts
          (create_registered host key n c.counter ssl ok_input.not_empty ok_input.port_fits)

    -- The proxy's side of a registration.
    pub serve_registers :
        (host sid : Bytes) (r : Registry) (there : List Event)
        → IsWellFormed r
        → view r key ≡ none
        → OnlyChunks there
        → bytes_of there ≡ line ++ 0 ∷ []
        → let out = serve host sid r (arriving there) in
          (out.outcome ≡ done)
          × ((j : Bytes)
              → view out.registry j ≡ (
                  if key == j then some (fresh key host (itoa (pos n)) ssl none sid) else view r j))
          × (out.conn.sent ≡ frame (as_xml (success host)))
    serve_registers host sid r there w absent calm written =
        let cmd = proxy_init (registered host key n ssl) in
        let read =
          read_command-line host line cmd (arriving there) calm line-Lacks written
            (parse_line-line host) in
        let (finished, changed, _, sent) =
          serve-command host sid r (arriving there) cmd read refl in
        let (answer, views) = handle-new sid (registered host key n ssl) r w absent in
        let h = handle-proxy_init sid (registered host key n ssl) r in
        (
          finished,
          λ j. rw (changed, h) (views j),
          sent ∙ ap (λ x. frame x.answer) h ∙ ap frame answer,
        )
