-- ===== src/Protocol/Formatting/Replies.antt =====
-- What RunCommand returns for the packet that answers its line.
use dbgp_tools.Base.{
  ◌≤◌, arith, Bytes, false, if◌then◌else◌, none, some, [], ◌∷◌, ◌++◌, Lacks, ◌≡◌, ap, ◌∙◌, Option,
  Bool-cases, inl, inr, refl,
}
use dbgp_tools.Go.Net.{Conn}
use dbgp_tools.Go.Text.{split, trim_space}
use dbgp_tools.Go.Net.Laws.{write_unfailing, events-write}
use dbgp_tools.Go.Stream.Laws.{OnlyChunks, bytes_of}
use dbgp_tools.Dbgpxml.Common.{is_valid_xml}
use dbgp_tools.Dbgpxml.Message
use dbgp_tools.Go.Stream.Measure.{weight}
use dbgp_tools.Protocol.Client.Progress.{read_response-events}
use dbgp_tools.Protocol.Server.{frame}
use dbgp_tools.Protocol.Client.{
  DbgpClient, read_response, process_line, send_command, contains, dash_i,
}
use dbgp_tools.Protocol.Client.Packets.{to_read, read_response-sent, read_response-frame}
use dbgp_tools.Protocol.Formatting.{
  Decoder, format_xml, run_command, run_sent, run_result, judge, RunResult, succeeded, refused,
  panicked, not_xml,
}

-- The result that a text leads to.
abbrev pub expected : Decoder → DbgpClient → Bytes → RunResult
expected d c text =
    if is_valid_xml text
    then elim (format_xml d c text) [
      | none ↦ panicked
      | some m ↦ if Message.is_success m then succeeded else refused (Message.get_error_message m)
    ]
    else not_xml text

pub process_line-buffer :
    (line : Bytes) (c : DbgpClient) → (process_line line c).client.buffer ≡ c.buffer
unfolding process_line
process_line-buffer line c = elim (Bool-cases (contains dash_i (split b' ' (trim_space line)))) [
  | inl has ↦ rw has
  | inr lacks ↦ rw lacks
]

pub send_command_unfailing :
    (line : Bytes) (c : DbgpClient) (conn : Conn)
    → conn.faults ≡ []
    → send_command line c conn ≡ record {
      client = (process_line line c).client;
      written = record {
        conn = record conn { sent = conn.sent ++ ((process_line line c).content ++ 0 ∷ []) };
        failed = false;
      };
    }
unfolding send_command
send_command_unfailing line c conn quiet = rw (write_unfailing _ conn quiet)

judge_lem :
    (o : Option Message.Message)
    → judge o ≡ elim o [
      | none ↦ panicked
      | some m ↦ if Message.is_success m then succeeded else refused (Message.get_error_message m)
    ]
unfolding judge
judge_lem none = refl
judge_lem (some m) = refl

-- Whatever the reply, the line is written.
pub run_command-sent :
    (d : Decoder) (line : Bytes) (c : DbgpClient) (conn : Conn)
    → conn.faults ≡ []
    → (run_command d line c conn).conn.sent ≡ conn.sent ++ ((process_line line c).content ++ 0 ∷ [])
unfolding run_command run_sent
run_command-sent d line c conn quiet =
    ap (λ s. (run_sent d s).conn.sent) (send_command_unfailing line c conn quiet)
    ∙ read_response-sent (process_line line c).client
        (record conn { sent = conn.sent ++ ((process_line line c).content ++ 0 ∷ []) })

-- If no write fails and the reply arrives framed, with no byte 0 in it and not interrupted, however the
-- network cut it, RunCommand writes the processed line with a byte 0 behind it, reads the whole reply
-- and nothing more, and returns success, the message's error text, or the error that the reply is no
-- XML, by the reply; and it panics if the reply begins as XML does and no parser accepts it.
pub run_command-frame :
    (d : Decoder) (line : Bytes) (c : DbgpClient) (conn : Conn) (xml rest : Bytes)
    → conn.faults ≡ []
    → OnlyChunks conn.events
    → Lacks 0 xml
    → to_read c conn ≡ frame xml ++ rest
    → let out = run_command d line c conn in
      (out.result ≡ expected d out.client (xml ++ 0 ∷ []))
      × (out.conn.sent ≡ conn.sent ++ ((process_line line c).content ++ 0 ∷ []))
      × (to_read out.client out.conn ≡ rest)
unfolding run_command run_sent
run_command-frame d line c conn xml rest quiet calm clean e =
    let k = (process_line line c).client in
    let conn' : Conn = record conn {
      sent = conn.sent ++ ((process_line line c).content ++ 0 ∷ []);
    } in
    let g =
      read_response-frame k conn' xml rest calm clean
        (ap (λ b. b ++ bytes_of conn.events) (process_line-buffer line c) ∙ e) in
    let out = read_response k conn' in
    let same : run_command d line c conn
        ≡ record { result = run_result d out; client = out.client; conn = out.conn } =
      ap (run_sent d) (send_command_unfailing line c conn quiet) in
    (
      rw (same, g.got, run_result, judge_lem (format_xml d out.client (xml ++ 0 ∷ []))),
      rw same (read_response-sent k conn'),
      rw same g.left,
    )

-- Whatever the reply, the network does not bring more than before.
pub run_command-events :
    (d : Decoder) (line : Bytes) (c : DbgpClient) (conn : Conn)
    → weight (run_command d line c conn).conn.events ≤ weight conn.events
unfolding run_command run_sent send_command
run_command-events d line c conn =
    let sent = send_command line c conn in
    let same = ap weight (events-write ((process_line line c).content ++ 0 ∷ []) conn) in
    let less = read_response-events sent.client sent.written.conn in
    elim (Bool-cases sent.written.failed) [
      | inl lost ↦ rw (lost, run_command, run_sent, send_command) (omega (arith, same))
      | inr fine ↦ rw (fine, run_command, run_sent, send_command) (omega (arith, same, less))
    ]
