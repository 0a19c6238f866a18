-- ===== src/ClientTool/Unregistration.antt =====
-- An unregistration from the line that the client writes to the list and the answer of the proxy.
pub mod Command
pub mod RoundTrip
use dbgp_tools.Base.{
  Bytes, codes, ◌==◌, Lacks, ◌≡◌, refl, sym, ap, ◌∙◌, ◌≢◌, eq-false, false, true, none, some, List,
  [], ◌∷◌, ◌++◌, if◌then◌else◌, reverse, arith, ℕ,
}
use mathlib.Core.Path.{subst}
use mathlib.Core.List.{reverse-append}
use dbgp_tools.Base.Int.{pos}
use dbgp_tools.Go.Decimal.{itoa}
use dbgp_tools.Go.Net.{arriving}
use dbgp_tools.Go.Stream.{Event}
use dbgp_tools.Go.Stream.Laws.{bytes_of, OnlyChunks}
use dbgp_tools.Go.Text.{split, join, trim_space}
use dbgp_tools.Go.Text.Laws.{IsGraphic, trim_space-graphic, split-join, join-split, join-All}
use dbgp_tools.Connections.{Registry, Connection}
use dbgp_tools.Connections.WellFormed.{IsWellFormed}
use dbgp_tools.Connections.Refinement.{closing, view}
use dbgp_tools.Connections.Calls.{targets}
use dbgp_tools.Dbgpxml.ProxyStop.{new_proxy_stop, as_xml}
use dbgp_tools.Command.{ok}
use dbgp_tools.Command.ProxyStop.{ProxyStopCommand, create_proxy_stop}
use dbgp_tools.Command.ProxyStop.Parsing.{create_proxy_stop_lem}
use dbgp_tools.Command.ProxyStop.Effect.{handle-present}
use dbgp_tools.Protocol.Client.{DbgpClient, dash_i, contains, process_line}
use dbgp_tools.Protocol.Client.Lines.{space, parts_of, process_line-without_i}
use dbgp_tools.Protocol.Client.Packets.{itoa-Lacks}
use dbgp_tools.Protocol.Server.{proxy_stop, frame}
use dbgp_tools.Protocol.Server.Laws.{read_command-line, parse_line-proxy_stop, handle-proxy_stop}
use dbgp_tools.Proxy.ClientHandler.{serve, done}
use dbgp_tools.Proxy.ClientHandler.Laws.{serve-command}
use dbgp_tools.ClientTool.Register.{unregister_command}

abbrev pub stopped : Bytes → ProxyStopCommand
stopped key = record { ide_key = key }

create_stopped :
    (key : Bytes) (i : ℕ)
    → key ≢ []
    → create_proxy_stop (dash_i ∷ itoa (pos i) ∷ codes "-k" ∷ key ∷ []) ≡ ok (stopped key)
unfolding ◌==◌
create_stopped key i h =
    create_proxy_stop_lem (dash_i ∷ itoa (pos i) ∷ codes "-k" ∷ key ∷ [])
    ∙ rw (eq-false key [] h) refl

append-ne-nil : (s : Bytes) (d : ℕ) → s ++ d ∷ [] ≢ []
append-ne-nil [] d e = cc
append-ne-nil (c ∷ s) d e = cc

module _ (c : DbgpClient) (key : Bytes) where
  -- The line that the client writes, without the byte 0 behind it.
  abbrev pub line : Bytes
  line = (process_line (unregister_command key) c).content

  -- A key that a line can hold, and at whose end nothing is trimmed.
  pub record IsStoppable : Type 0 where
    pub front : Bytes
    pub back : ℕ
    pub ends_in : key ≡ front ++ back ∷ []
    pub graphic : IsGraphic back
    pub not_flag : key ≢ dash_i
    pub no_space : Lacks space key
    pub no_zero : Lacks 0 key

  module _ (ok_input : IsStoppable) where
    not_empty : key ≢ []
    not_empty e = append-ne-nil ok_input.front ok_input.back (sym ok_input.ends_in ∙ e)

    unregister_command-trim : trim_space (unregister_command key) ≡ unregister_command key
    unfolding unregister_command
    unregister_command-trim =
        let front = codes "proxystop -k " ++ ok_input.front in
        trim_space-graphic b'p' ok_input.back (codes "roxystop -k " ++ key) (reverse front)
          (omega arith) ok_input.graphic
          (ap (λ k. reverse (codes "proxystop -k " ++ k)) ok_input.ends_in
            ∙ reverse-append front (ok_input.back ∷ []))

    unregister_command-parts :
        parts_of (unregister_command key) ≡ codes "proxystop" ∷ codes "-k" ∷ key ∷ []
    unfolding unregister_command join
    unregister_command-parts =
        ap (split space) unregister_command-trim
        ∙ split-join space (codes "proxystop") (codes "-k" ∷ key ∷ [])
            (omega arith, (omega arith, (ok_input.no_space, tt)))

    lacks_i : contains dash_i (codes "proxystop" ∷ codes "-k" ∷ key ∷ []) ≡ false
    unfolding contains ◌==◌
    lacks_i = rw (eq-false key dash_i ok_input.not_flag) refl

    line_parts :
        split space line ≡ codes "proxystop" ∷ dash_i ∷ itoa (pos c.counter) ∷ codes "-k" ∷ key ∷ []
    line_parts =
        (process_line-without_i (unregister_command key) c (codes "proxystop")
          (codes "-k" ∷ key ∷ []) (ap (contains dash_i) unregister_command-parts ∙ lacks_i)
          unregister_command-parts).0

    line-Lacks : Lacks 0 line
    line-Lacks = subst (Lacks 0) (ap (join space) (sym line_parts) ∙ join-split space line) (
        join-All space 0 _ (omega arith) (
          omega arith,
          (omega arith, (itoa-Lacks c.counter, (omega arith, (ok_input.no_zero, tt)))),
        ))

    -- The proxy's side of an unregistration.
    pub serve_unregisters :
        (host sid : Bytes) (r : Registry) (old : Connection) (there : List Event)
        → IsWellFormed r
        → view r key ≡ some old
        → OnlyChunks there
        → bytes_of there ≡ line ++ 0 ∷ []
        → let out = serve host sid r (arriving there) in
          (out.outcome ≡ done)
          × ((j : Bytes) → view out.registry j ≡ (if key == j then none else view r j))
          × (targets r.heap out.sends ≡ closing old)
          × (out.conn.sent ≡ frame (as_xml (new_proxy_stop true key none)))
    serve_unregisters host sid r old there w here calm written =
        let cmd = proxy_stop (stopped key) in
        let read = read_command-line host line cmd (arriving there) calm line-Lacks written (
          parse_line-proxy_stop host line _ _ line_parts
            (create_stopped key c.counter not_empty)) in
        let (finished, changed, told, sent) =
          serve-command host sid r (arriving there) cmd read refl in
        let (answer, views, closes) = handle-present (stopped key) r w old here in
        let h = handle-proxy_stop sid (stopped key) r in
        (
          finished,
          λ j. rw (changed, h) (views j),
          rw (told, h) closes,
          sent ∙ ap (λ x. frame x.answer) h ∙ ap frame answer,
        )
