-- ===== src/Protocol/Tests.antt =====
-- The theorems of the client's end at concrete lines and packets.
use dbgp_tools.Dbgpxml.Message
use dbgp_tools.Dbgpxml.Response.{Response}
use dbgp_tools.Dbgpxml.Response.Format.{first_line, to_string}
use dbgp_tools.Dbgpxml.Response.Format.Listing.{listed, source_lines}
use dbgp_tools.Protocol.Formatting.{Decoder, format_xml}
use dbgp_tools.Protocol.Formatting.Listing.{send_command-listing}
use dbgp_tools.Protocol.Client.{
  send_command, DbgpClient, new_dbgp_client, process_line, read_response, data_failed,
  inject_i_if_needed, contains,
}
use dbgp_tools.Proxy.SampleSession.{decoder, answer}
use dbgp_tools.Base.{some, codes, Bytes, ◌==◌, ◌≡◌, refl, false, [], ◌∷◌, ◌++◌, List, arith}
use dbgp_tools.Base.Int.{pos}
use dbgp_tools.Go.Text.{split, join, trim_space, trim_right_set}
use dbgp_tools.Go.Decimal.{itoa, format_nat, atoi}
use dbgp_tools.Go.Net.{arriving}
use dbgp_tools.Go.Stream.{Event, chunk, deadline, timeout}
use dbgp_tools.Protocol.Client.Lines.{space, begin_lines, last_or}
use dbgp_tools.Protocol.Client.Packets.{Gets}
use dbgp_tools.Protocol.Client.Patience.{await, await-Gets, read_response-data_deadline}

abbrev c : DbgpClient
c = record new_dbgp_client { counter = 4 }

abbrev plain : Bytes
plain = codes "source -b 12 -b 0 -b 30"

-- The answer to it, and a decoder that gives it.
abbrev source : Response
source = record (answer (codes "source")) { value = codes "<?php\necho 1;\n" }

abbrev listing : Decoder
listing = record decoder { response = λ text. record { value = source; failed = false } }

plain_begin : last_or (pos 1) (begin_lines [] (split space (process_line plain c).content)) ≡ pos 30
unfolding process_line inject_i_if_needed contains split join trim_space itoa format_nat atoi ◌==◌
plain_begin = refl

send_command-listing_example :
    let client = (read_response (send_command plain c (arriving [])).client (arriving [])).client in
    (r : Response) × (format_xml listing client [] ≡ some (Message.response r))
    × (to_string (λ bold colour text. text) (λ text. text) r
        ≡ first_line (λ bold colour text. text) source
          ++ listed (λ bold colour text. text) 30 (source_lines (λ text. text) source))
unfolding ◌==◌ split trim_right_set
send_command-listing_example =
    send_command-listing listing (λ bold colour text. text) (λ text. text) plain c (arriving [])
      (arriving []) [] source 30 refl refl refl refl plain_begin (omega arith)

abbrev xml : Bytes
xml = codes "<a/>"

-- A frame with the first byte of the next one, cut in two.
abbrev cut_frame : List Event
cut_frame = chunk (codes "4") ∷ chunk (0 ∷ (xml ++ 0 ∷ b'7' ∷ [])) ∷ []

-- The first digit of the length arrives, a deadline passes, and the rest follows.
abbrev late : List Event
late = chunk (codes "1") ∷ deadline ∷ []

await-Gets_example :
    Gets (await 2 new_dbgp_client (arriving (late ++ cut_frame))) (xml ++ 0 ∷ []) (b'7' ∷ [])
await-Gets_example =
    await-Gets late 2 new_dbgp_client (arriving []) cut_frame (codes "4") xml (b'7' ∷ [])
      ((omega arith, tt), (tt, tt)) (omega arith) tt (tt, (tt, tt)) (omega arith, tt)
      (omega arith, (omega arith, (omega arith, (omega arith, tt)))) refl

abbrev half : DbgpClient
half = record new_dbgp_client { buffer = codes "4" ++ 0 ∷ codes "<a" }

read_response-data_deadline_example :
    read_response half (arriving (deadline ∷ cut_frame)) ≡ record {
      response = data_failed timeout;
      client = record half { buffer = [] };
      conn = arriving cut_frame;
    }
read_response-data_deadline_example =
    read_response-data_deadline half (arriving []) cut_frame (codes "4") (codes "<a")
      (omega arith, tt) (omega arith, (omega arith, tt)) refl
