-- ===== src/ClientTool/Session/Numbering.antt =====
-- What a session writes to the debugger engine.
use mathlib.Core.Path.{subst}
use dbgp_tools.Base.{
  Bytes, codes, ◌==◌, ℕ, zero, suc, Bool-cases, true, false, if◌then◌else◌, inl, inr, none, some,
  List, [], ◌∷◌, ◌++◌, All, append-nil, ◌≡◌, refl, sym, ap, ◌∙◌, arith, Bool,
}
use dbgp_tools.Go.Text.{trim_space}
use dbgp_tools.Go.Text.Laws.{split-ne-nil}
use dbgp_tools.Go.Net.{Conn}
use dbgp_tools.Dbgpxml.Message
use dbgp_tools.Dbgpxml.Common.{is_valid_xml}
use dbgp_tools.Protocol.Client.{
  DbgpClient, Response, packet, timed_out, length_failed, data_failed, process_line, read_response,
  signal_abort,
}
use dbgp_tools.Protocol.Client.Lines.{space, process_line-without_i}
use dbgp_tools.Protocol.Client.Packets.{
  read_response-sent, read_response-faults, read_response-counter,
}
use dbgp_tools.Protocol.Formatting.{format_xml}
use dbgp_tools.Protocol.Formatting.Replies.{send_command_unfailing}
use dbgp_tools.ClientTool.Session.{
  Input, line, interrupt, end_of_input, Session, Setting, Round, over, going, typed, send_line,
  read_input, after_message, on_packet, on_timeout, on_response, round, run, Result, done, noticed,
  rest_of, write_failed, handle_connection,
}
use dbgp_tools.Base.{Option}
use dbgp_tools.ClientTool.Session.{help_text}
use dbgp_tools.ClientTool.Session.Writing.{
  commands, terminated, Numbered, IsPlain, Writes, Steps, nothing, All-suffix, compose,
}

send_line_lem :
    (text : Bytes) (s : Session)
    → s.conn.faults ≡ []
    → send_line text s
      ≡ going (record s {
        client = (process_line text s.client).client;
        conn = record s.conn {
          sent = s.conn.sent ++ ((process_line text s.client).content ++ 0 ∷ []);
        };
        last_command = text;
      })
unfolding send_line
send_line_lem text s quiet =
    ap
      (λ sent.
        if sent.written.failed
        then over write_failed (record s { client = sent.client; conn = sent.written.conn })
        else going
            (record s { client = sent.client; conn = sent.written.conn; last_command = text }))
      (send_command_unfailing text s.client s.conn quiet)

send_line-Steps :
    (text : Bytes) (s : Session)
    → s.conn.faults ≡ []
    → IsPlain text
    → Steps s.conn.sent s.client.counter (text ∷ commands text s.inputs) (send_line text s)
send_line-Steps text s quiet plain =
    let (name, args, e) = split-ne-nil space (trim_space text) in
    let (numbered, next) = process_line-without_i text s.client name args plain e in
    let content = (process_line text s.client).content in
    rw (send_line_lem text s quiet) (record {
      lines = text ∷ [];
      texts = content ∷ [];
      wrote = ap (λ r. s.conn.sent ++ r) (sym (append-nil (content ++ 0 ∷ [])));
      numbers = ((name, args, e, numbered), tt);
      counted = omega (arith, next);
      took = refl;
      quiet = quiet;
    })

read_input-Steps :
    (w : Setting) (inputs : List Input) (s : Session)
    → s.conn.faults ≡ []
    → All IsPlain (commands s.last_command inputs)
    → Steps s.conn.sent s.client.counter (commands s.last_command inputs) (read_input w inputs s)
unfolding read_input
read_input-Steps w [] s quiet plain = ([], nothing _ _ _ _ refl refl quiet)
read_input-Steps w (interrupt ∷ later) s quiet plain = ([], nothing _ _ _ _ refl refl quiet)
read_input-Steps w (end_of_input ∷ later) s quiet plain = ([], nothing _ _ _ _ refl refl quiet)
read_input-Steps w (line text ∷ later) s quiet plain = elim (Bool-cases (text == codes "help")) [
  | inl help ↦ rw help (
      read_input-Steps w later (record s { screen = s.screen ++ help_text }) quiet
        (rw help at plain))
  | inr other ↦
      let plain' : All IsPlain
          (typed s.last_command text ∷ commands (typed s.last_command text) later) =
        rw other at plain in
      rw other
        (send_line-Steps (typed s.last_command text) (record s { inputs = later }) quiet plain'.0)
]

module _ (sent : Bytes) (n : ℕ) (todo : List Bytes) where
  if-Steps :
      (b : Bool) (x y : Round)
      → Steps sent n todo x
      → Steps sent n todo y
      → Steps sent n todo (if b then x else y)
  if-Steps true x y hx hy = hx
  if-Steps false x y hx hy = hy

  Option-Steps :
      (o : Option Message.Message) (x : Round) (k : Message.Message → Round)
      → Steps sent n todo x
      → ((m : Message.Message) → Steps sent n todo (k m))
      → Steps sent n todo (elim o [ none ↦ x | some m ↦ k m ])
  Option-Steps none x k hx hk = hx
  Option-Steps (some m) x k hx hk = hk m

noticed-counter : (is : List Bool) (c : DbgpClient) → (noticed is c).counter ≡ c.counter
unfolding signal_abort
noticed-counter [] c = refl
noticed-counter (true ∷ later) c = refl
noticed-counter (false ∷ later) c = refl

module _ (w : Setting) (s : Session) (quiet : s.conn.faults ≡ [])
    (plain : All IsPlain (commands s.last_command s.inputs)) where
  abbrev written : Bytes
  written = s.conn.sent

  abbrev number : ℕ
  number = s.client.counter

  abbrev asked : List Bytes
  asked = commands s.last_command s.inputs

  idle : (screen : Bytes) → Writes written number asked (record s { screen = screen }) asked
  idle screen = nothing written number asked (record s { screen = screen }) refl refl quiet

  after_message-Steps :
      (m : Message.Message) (screen : Bytes)
      → Steps written number asked (after_message w m (record s { screen = screen }))
  unfolding after_message
  after_message-Steps m screen =
      if-Steps written number asked (Message.expect_more_responses m) _ _
        (if-Steps written number asked (Message.is_success m) _ _ (idle screen)
          (asked, idle screen))
        (if-Steps written number asked (Message.should_close_connection m) _ _ (asked, idle _)
          (read_input-Steps w s.inputs (record s { screen = screen }) quiet plain))

  on_packet-Steps : (text : Bytes) → Steps written number asked (on_packet w text s)
  unfolding on_packet
  on_packet-Steps text =
      if-Steps written number asked (is_valid_xml text) _ _
        (Option-Steps written number asked (format_xml w.decoder s.client text) _ _ (asked, idle _)
          (λ m. after_message-Steps m _))
        (asked, idle _)

  on_timeout-Steps : Steps written number asked (on_timeout s)
  unfolding on_timeout
  on_timeout-Steps =
      let c = noticed s.interrupts s.client in
      let still =
        nothing written number asked (record s { client = c; interrupts = rest_of s.interrupts })
          refl (noticed-counter s.interrupts s.client) quiet in
      if-Steps written number asked c.abort_requested _ _ (asked, still) still

  on_response-Steps : (r : Response) → Steps written number asked (on_response w r s)
  unfolding on_response
  on_response-Steps (packet text) = on_packet-Steps text
  on_response-Steps timed_out = on_timeout-Steps
  on_response-Steps (length_failed e) = (asked, idle _)
  on_response-Steps (data_failed e) = (asked, idle _)

round-Steps :
    (w : Setting) (s : Session)
    → s.conn.faults ≡ []
    → All IsPlain (commands s.last_command s.inputs)
    → Steps s.conn.sent s.client.counter (commands s.last_command s.inputs) (round w s)
unfolding round
round-Steps w s quiet plain =
    let out = read_response s.client s.conn in
    subst (λ sent. Steps sent s.client.counter (commands s.last_command s.inputs) (round w s))
      (read_response-sent s.client s.conn)
      (subst (λ n. Steps out.conn.sent n (commands s.last_command s.inputs) (round w s))
        (read_response-counter s.client s.conn)
        (on_response-Steps w (record s { client = out.client; conn = out.conn })
          (read_response-faults s.client s.conn ∙ quiet) plain out.response))

-- The rest of the run behind a round.
finish :
    (go : Session → Result)
    → ((t : Session)
        → t.conn.faults ≡ []
        → All IsPlain (commands t.last_command t.inputs)
        → (rest : List Bytes) × Writes t.conn.sent t.client.counter
            (commands t.last_command t.inputs)
            (go t).session
            rest)
    → (sent : Bytes) (n : ℕ) (todo : List Bytes) → All IsPlain todo
    → (r : Round) → Steps sent n todo r
    → (rest : List Bytes) × Writes sent n todo
        (elim r as (λ _. Result) [ over e t ↦ done e t | going t ↦ go t ]).session
        rest
finish go later sent n todo plain (over e t) h = h
finish go later sent n todo plain (going t) h =
    let plain' =
      All-suffix h.lines (commands t.last_command t.inputs) (subst (All IsPlain) h.took plain) in
    let (rest, more) = later t h.quiet plain' in
    (rest, compose sent n todo rest t (go t).session h more)

run-Writes :
    (f : ℕ) (w : Setting) (s : Session)
    → s.conn.faults ≡ []
    → All IsPlain (commands s.last_command s.inputs)
    → (rest : List Bytes) × Writes s.conn.sent s.client.counter
        (commands s.last_command s.inputs)
        (run f w s).session
        rest
unfolding run
run-Writes zero w s quiet plain =
    (commands s.last_command s.inputs, nothing _ _ _ s refl refl quiet)
run-Writes (suc f) w s quiet plain =
    finish (run f w) (λ t q p. run-Writes f w t q p) _ _ _ plain (round w s)
      (round-Steps w s quiet plain)

-- What a session writes, whatever the engine answers and whenever it ends, if no write fails and no
-- command that is typed has a part -i: some of the commands that the input asks for, from the first on
-- and none left out, each once, in order, with a byte 0 behind it, and with the numbers 1, 2, 3 and so
-- on behind their names.
pub handle_connection-Numbered :
    (fuel : ℕ) (w : Setting) (conn : Conn) (inputs : List Input) (interrupts : List Bool)
    → conn.faults ≡ []
    → All IsPlain (commands [] inputs)
    → let s = (handle_connection fuel w conn inputs interrupts).session in
      (lines : List Bytes) × (rest : List Bytes) × (texts : List Bytes) × (commands [] inputs
        ≡ lines ++ rest)
      × (s.conn.sent ≡ conn.sent ++ terminated texts)
      × Numbered 1 lines texts
unfolding handle_connection
handle_connection-Numbered fuel w conn inputs interrupts quiet plain =
    let (rest, out) = run-Writes fuel w _ quiet plain in
    (out.lines, rest, out.texts, out.took, out.wrote, out.numbers)
