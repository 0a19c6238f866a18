-- ===== src/Protocol/RunAndQuit/Outcome.antt =====
-- What RunAndQuit returns and prints for the packet that answers its line.
use dbgp_tools.Base.{
  Bytes, codes, Bool, if◌then◌else◌, none, some, [], ◌∷◌, ◌++◌, Lacks, ◌≡◌, ap, ◌∙◌, Option,
}
use dbgp_tools.Go.Net.{Conn}
use dbgp_tools.Go.Stream.Laws.{OnlyChunks, bytes_of}
use dbgp_tools.Dbgpxml.Common.{is_valid_xml}
use dbgp_tools.Dbgpxml.Message
use dbgp_tools.Dbgpxml.Message.{Printer}
use dbgp_tools.Protocol.Server.{frame}
use dbgp_tools.Protocol.Client.{DbgpClient, new_dbgp_client, process_line, read_response}
use dbgp_tools.Protocol.Client.Packets.{to_read, read_response-sent, read_response-frame}
use dbgp_tools.Protocol.Formatting.{Decoder, format_xml}
use dbgp_tools.Protocol.Formatting.Replies.{send_command_unfailing, process_line-buffer}
use dbgp_tools.Protocol.RunAndQuit.{
  QuitResult, succeeded, failed, run_and_quit, quit_sent, judge_response, judge_text, println, echo,
}
use dbgp_tools.Base.{Option-cases}
use dbgp_tools.Base.{inl}
use dbgp_tools.Base.{inr}

-- The result that a text leads to: an error only for a message that is understood and is no success.
abbrev pub result_of : Option Message.Message → QuitResult
result_of none = succeeded
result_of (some m) = if Message.is_success m then succeeded else failed

-- What is printed for it.
abbrev pub output_of : Printer → Option Message.Message → Bytes
output_of p none = codes "Could not interpret XML"
output_of p (some m) = println p m

abbrev pub expected : Decoder → Printer → Bool → DbgpClient → Bytes → QuitResult × Bytes
expected d p show_xml c text =
    if is_valid_xml text
    then (
      result_of (format_xml d c text),
      echo p show_xml text ++ output_of p (format_xml d c text),
    )
    else (succeeded, codes "The received XML is not valid: " ++ text)

judge_text_lem :
    (d : Decoder) (p : Printer) (show_xml : Bool) (c : DbgpClient) (text : Bytes)
    → judge_text d p show_xml c text ≡ expected d p show_xml c text
unfolding judge_text
judge_text_lem d p show_xml c text = elim (Option-cases (format_xml d c text)) [
  | inl none_fits ↦ rw (none_fits, judge_text)
  | inr (m, fits) ↦ rw (fits, judge_text)
]

module _ (d : Decoder) (p : Printer) (show_xml : Bool) (line : Bytes) (conn : Conn)
    (xml rest : Bytes) (quiet : conn.faults ≡ []) (calm : OnlyChunks conn.events)
    (clean : Lacks 0 xml) (e : bytes_of conn.events ≡ frame xml ++ rest) where
  -- If no write fails and the reply arrives framed, with no byte 0 in it and not interrupted, however
  -- the network cut it, RunAndQuit writes the processed line with a byte 0 behind it, reads the whole
  -- reply and nothing more, and returns an error exactly if the reply is XML that a parser accepts and
  -- its message is no success; it prints the reply, if that is asked for and it is XML, and then the
  -- message, or that it is no XML or not understood.
  pub run_and_quit-frame :
      let out = run_and_quit d p conn line show_xml in
      ((out.result, out.output) ≡ expected d p show_xml out.client (xml ++ 0 ∷ []))
      × (out.conn.sent ≡ conn.sent ++ ((process_line line new_dbgp_client).content ++ 0 ∷ []))
      × (to_read out.client out.conn ≡ rest)
  unfolding run_and_quit quit_sent
  run_and_quit-frame =
      let k = (process_line line new_dbgp_client).client in
      let conn' : Conn = record conn {
        sent = conn.sent ++ ((process_line line new_dbgp_client).content ++ 0 ∷ []);
      } in
      let g =
        read_response-frame k conn' xml rest calm clean
          (ap (λ b. b ++ bytes_of conn.events) (process_line-buffer line new_dbgp_client) ∙ e) in
      let out = read_response k conn' in
      let same : run_and_quit d p conn line show_xml ≡ record {
        result = (judge_response d p show_xml out.client out.response).0;
        output = (judge_response d p show_xml out.client out.response).1;
        client = out.client;
        conn = out.conn;
      } =
        ap (quit_sent d p show_xml) (send_command_unfailing line new_dbgp_client conn quiet) in
      (
        rw (same, g.got, judge_response) (judge_text_lem d p show_xml out.client (xml ++ 0 ∷ [])),
        rw same (read_response-sent k conn'),
        rw same g.left,
      )
