-- ===== src/ClientTool/Session/Termination.antt =====
-- A session ends, whatever arrives and whatever is typed.
use dbgp_tools.Base.{
  Bytes, codes, ◌==◌, ℕ, zero, suc, ◌<◌, ◌≤◌, Bool, true, false, if◌then◌else◌, Option, none, some,
  List, [], ◌∷◌, ◌++◌, ◌≡◌, ◌≢◌, refl, arith,
}
use dbgp_tools.Go.Net.{Conn}
use dbgp_tools.Go.Net.Laws.{events-write}
use dbgp_tools.Go.Stream.Measure.{weight}
use dbgp_tools.Dbgpxml.Message
use dbgp_tools.Dbgpxml.Common.{is_valid_xml}
use dbgp_tools.Protocol.Client.{
  DbgpClient, Response, packet, timed_out, length_failed, data_failed, process_line, read_response,
  send_command, signal_abort,
}
use dbgp_tools.Protocol.Client.Progress.{remaining, goes_on, remaining-read_response}
use dbgp_tools.Protocol.Formatting.{format_xml}
use dbgp_tools.Protocol.Formatting.Replies.{process_line-buffer}
use dbgp_tools.ClientTool.Session.{
  Input, line, interrupt, end_of_input, Session, Setting, Round, over, going, typed, send_line,
  read_input, after_message, on_packet, on_timeout, on_response, round, run, Result, done, noticed,
  unfinished, handle_connection, new_session, Ended, closed, interrupted,
}
use dbgp_tools.ClientTool.Session.{help_text}

abbrev left : Session → ℕ
left s = remaining s.client s.conn

-- A round leaves no more to read than the number.
abbrev AtMost : ℕ → Round → Type 0
AtMost n (over e s) = (e ≢ unfinished) × (left s ≤ n)
AtMost n (going s) = left s ≤ n

module _ (n : ℕ) where
  if-AtMost : (b : Bool) (x y : Round) → AtMost n x → AtMost n y → AtMost n (if b then x else y)
  if-AtMost true x y hx hy = hx
  if-AtMost false x y hx hy = hy

  Option-AtMost :
      (o : Option Message.Message) (x : Round) (k : Message.Message → Round)
      → AtMost n x
      → ((m : Message.Message) → AtMost n (k m))
      → AtMost n (elim o [ none ↦ x | some m ↦ k m ])
  Option-AtMost none x k hx hk = hx
  Option-AtMost (some m) x k hx hk = hk m

send_line-AtMost : (text : Bytes) (s : Session) → AtMost (left s) (send_line text s)
unfolding send_line send_command
send_line-AtMost text s =
    let same = events-write ((process_line text s.client).content ++ 0 ∷ []) s.conn in
    if-AtMost (left s) (send_command text s.client s.conn).written.failed _ _
      (λ e. cc, rw (same, process_line-buffer text s.client) (omega arith))
      (rw (same, process_line-buffer text s.client) (omega arith))

read_input-AtMost :
    (w : Setting) (inputs : List Input) (s : Session) → AtMost (left s) (read_input w inputs s)
unfolding read_input
read_input-AtMost w [] s = (λ e. cc, omega arith)
read_input-AtMost w (interrupt ∷ later) s = (λ e. cc, omega arith)
read_input-AtMost w (end_of_input ∷ later) s = (λ e. cc, omega arith)
read_input-AtMost w (line text ∷ later) s =
    if-AtMost (left s) (text == codes "help") _ _
      (read_input-AtMost w later (record s { screen = s.screen ++ help_text }))
      (send_line-AtMost (typed s.last_command text) (record s { inputs = later }))

noticed-buffer : (is : List Bool) (c : DbgpClient) → (noticed is c).buffer ≡ c.buffer
unfolding signal_abort
noticed-buffer [] c = refl
noticed-buffer (true ∷ later) c = refl
noticed-buffer (false ∷ later) c = refl

module _ (w : Setting) (s : Session) where
  after_message-AtMost :
      (m : Message.Message) (screen : Bytes)
      → AtMost (left s) (after_message w m (record s { screen = screen }))
  unfolding after_message
  after_message-AtMost m screen =
      if-AtMost (left s) (Message.expect_more_responses m) _ _
        (if-AtMost (left s) (Message.is_success m) _ _ (omega arith) (λ e. cc, omega arith))
        (if-AtMost (left s) (Message.should_close_connection m) _ _ (λ e. cc, omega arith)
          (read_input-AtMost w s.inputs (record s { screen = screen })))

  on_packet-AtMost : (text : Bytes) → AtMost (left s) (on_packet w text s)
  unfolding on_packet
  on_packet-AtMost text =
      if-AtMost (left s) (is_valid_xml text) _ _
        (Option-AtMost (left s) (format_xml w.decoder s.client text) _ _ (λ e. cc, omega arith)
          (λ m. after_message-AtMost m _))
        (λ e. cc, omega arith)

  on_timeout-AtMost : AtMost (left s) (on_timeout s)
  unfolding on_timeout
  on_timeout-AtMost =
      if-AtMost (left s) (noticed s.interrupts s.client).abort_requested _ _
        (λ e. cc, rw (noticed-buffer s.interrupts s.client) (omega arith))
        (rw (noticed-buffer s.interrupts s.client) (omega arith))

-- The ends of a session after which the client of the cloud waits for the next one.
abbrev pub is_again : Ended → Bool
is_again closed = true
is_again interrupted = true
is_again e = false

-- What follows the reading of a response, by what the response leaves to read.
abbrev Ends : ℕ → Round → Type 0
Ends n (over e s) = (e ≢ unfinished) × (is_again e ≡ true → left s < n)
Ends n (going s) = left s < n

weaken : (n m : ℕ) (r : Round) → n < m → AtMost n r → Ends m r
weaken n m (over e s) h (k, less) = (k, λ _. omega (arith, h, less))
weaken n m (going s) h k = omega (arith, h, k)

on_response-Ends :
    (w : Setting) (n : ℕ) (r : Response) (s : Session)
    → (goes_on r ≡ true → left s < n)
    → Ends n (on_response w r s)
unfolding on_response
on_response-Ends w n (packet text) s h =
    weaken (left s) n (on_packet w text s) (h refl) (on_packet-AtMost w s text)
on_response-Ends w n timed_out s h =
    weaken (left s) n (on_timeout s) (h refl) (on_timeout-AtMost w s)
on_response-Ends w n (length_failed e) s h = (λ x. cc, λ again. cc)
on_response-Ends w n (data_failed e) s h = (λ x. cc, λ again. cc)

round-Ends : (w : Setting) (s : Session) → Ends (left s) (round w s)
unfolding round
round-Ends w s =
    let out = read_response s.client s.conn in
    on_response-Ends w (left s) out.response (record s { client = out.client; conn = out.conn })
      (remaining-read_response s.client s.conn)

abbrev RunEnds : ℕ → Result → Type 0
RunEnds n out = (out.ended ≢ unfinished) × (is_again out.ended ≡ true → left out.session < n)

after_round :
    (go : Session → Result) (n : ℕ)
    → ((t : Session) → left t < n → RunEnds n (go t))
    → (r : Round) → Ends n r
    → RunEnds n (elim r as (λ _. Result) [ over e t ↦ done e t | going t ↦ go t ])
after_round go n later (over e t) h = h
after_round go n later (going t) h = later t h

run_ends : (f : ℕ) (w : Setting) (s : Session) → left s < f → RunEnds (left s) (run f w s)
unfolding run
run_ends zero w s h = absurd (omega arith)
run_ends (suc f) w s h =
    after_round (run f w) (left s)
      (λ t k.
        let (ended, less) = run_ends f w t (omega (arith, h, k)) in
        (ended, λ again. omega (arith, less again, k)))
      (round w s) (round-Ends w s)

-- With more fuel than there is to read, which is the bytes and the events that the network brings, a
-- session ends by itself, whatever the engine sends, whatever is typed and whenever interrupts come.
pub handle_connection_ends :
    (fuel : ℕ) (w : Setting) (conn : Conn) (inputs : List Input) (interrupts : List Bool)
    → weight conn.events < fuel
    → (handle_connection fuel w conn inputs interrupts).ended ≢ unfinished
unfolding handle_connection
handle_connection_ends fuel w conn inputs interrupts enough =
    (run_ends fuel w (new_session conn inputs interrupts) (omega (arith, enough))).0

-- A session that leaves the connection to another one has read something.
pub handle_connection-again :
    (fuel : ℕ) (w : Setting) (conn : Conn) (inputs : List Input) (interrupts : List Bool)
    → weight conn.events < fuel
    → is_again (handle_connection fuel w conn inputs interrupts).ended ≡ true
    → weight (handle_connection fuel w conn inputs interrupts).session.conn.events
      < weight conn.events
unfolding handle_connection
handle_connection-again fuel w conn inputs interrupts enough again =
    let less =
      (run_ends fuel w (new_session conn inputs interrupts) (omega (arith, enough))).1 again in
    omega (arith, less)
