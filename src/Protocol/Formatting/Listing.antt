-- ===== src/Protocol/Formatting/Listing.antt =====
-- From the command "source" to the lines that are printed.
use dbgp_tools.Base.{
  Bytes, codes, ◌==◌, false, none, some, [], ◌++◌, ◌≡◌, refl, ◌∙◌, ℕ, ◌+◌, ◌≤◌, length,
}
use dbgp_tools.Base.Int.{pos}
use dbgp_tools.Go.Decimal.{max_int}
use dbgp_tools.Go.Net.{Conn}
use dbgp_tools.Go.Text.{split}
use dbgp_tools.Dbgpxml.Common.{Paint}
use dbgp_tools.Dbgpxml.Breakpoint.{Base64}
use dbgp_tools.Dbgpxml.Message
use dbgp_tools.Dbgpxml.Response
use dbgp_tools.Dbgpxml.Response.Format.{first_line, to_string}
use dbgp_tools.Dbgpxml.Response.Format.Listing.{
  source_value, source_lines, listed, to_string-source,
}
use dbgp_tools.Protocol.Client.{DbgpClient, read_response, send_command, process_line}
use dbgp_tools.Protocol.Client.Lines.{space, begin_lines, last_or, process_line-last_source_begin}
use dbgp_tools.Protocol.Client.Packets.{read_response-last_source_begin}
use dbgp_tools.Protocol.Formatting.{Decoder, format_xml, parse_response_xml}

sent-last_source_begin :
    (line : Bytes) (c : DbgpClient) (conn : Conn)
    → (send_command line c conn).client.last_source_begin
      ≡ last_or (pos 1) (begin_lines [] (split space (process_line line c).content))
unfolding send_command
sent-last_source_begin line c conn = process_line-last_source_begin line c

-- Let a line be sent, and let the client then try to read. If a text is decoded after that as a response
-- with the command "source", no error, and a value that is not empty, FormatXML returns a response that
-- prints its first line and then the lines of the source, and these are numbered one by one from the
-- last positive number that follows a part "-b" in the line that was sent, and from 1 if there is none,
-- whatever lines were sent before, as long as no number leaves the range of `int`.
pub send_command-listing :
    (d : Decoder) (paint : Paint) (decode_base64 : Base64) (line : Bytes) (c : DbgpClient)
    (to from : Conn) (text : Bytes) (m : Response.Response) (n : ℕ)
    → d.response text ≡ record { value = m; failed = false }
    → m.command ≡ codes "source"
    → m.error ≡ none
    → source_value decode_base64 m == [] ≡ false
    → last_or (pos 1) (begin_lines [] (split space (process_line line c).content)) ≡ pos n
    → n + length (source_lines decode_base64 m) ≤ max_int + 1
    → (r : Response.Response) × (format_xml d
          (read_response (send_command line c to).client from).client
          text
        ≡ some (Message.response r))
      × (to_string paint decode_base64 r
          ≡ first_line paint m ++ listed paint n (source_lines decode_base64 m))
unfolding format_xml parse_response_xml first_line
send_command-listing d paint decode_base64 line c to from text m n decoded asked well filled begin
      fits =
    let client = (read_response (send_command line c to).client from).client in
    let r = record m { last_source_begin = client.last_source_begin } in
    (
      r,
      rw decoded refl,
      to_string-source paint decode_base64 r n asked well filled
          (read_response-last_source_begin (send_command line c to).client from
            ∙ sent-last_source_begin line c to
            ∙ begin)
          fits,
    )
