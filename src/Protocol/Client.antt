-- ===== src/Protocol/Client.antt =====
-- lib/protocol/dbgp-client.go: reading packets, and the lines that are sent.
pub mod Lines
pub mod Packets
pub mod Patience
pub mod Progress
use dbgp_tools.Base.{
  Bytes, codes, ◌==◌, length, if◌then◌else◌, ℕ, ◌+◌, Bool, true, false, ◌||◌, Option, none, some,
  List, [], ◌∷◌, ◌++◌,
}
use dbgp_tools.Base.Int.{ℤ, pos, is_positive}
use dbgp_tools.Go.Decimal.{itoa, atoi}
use dbgp_tools.Go.Text.{split, join, trim_space}
use dbgp_tools.Go.Stream.{ReadError, eof, timeout, io_error, Read}
use dbgp_tools.Go.Net.{Conn, write, Written, read_from, ConnRead}

-- dbgpClient, but for the connection and the logger; `buffer` is that of its bufio.Reader. The
-- counter and the line number stay far below the range of `int`.
pub record DbgpClient : Type 0 where
  pub buffer : Bytes
  pub counter : ℕ
  pub last_source_begin : ℤ
  pub abort_requested : Bool
  pub commands_to_run : List Bytes

-- NewDbgpClient
abbrev pub new_dbgp_client : DbgpClient
new_dbgp_client = record {
  buffer = [];
  counter = 1;
  last_source_begin = pos 1;
  abort_requested = false;
  commands_to_run = [];
}

unfoldable pub signal_abort : DbgpClient → DbgpClient
signal_abort c = record c { abort_requested = true }

abbrev pub has_abort_been_signalled : DbgpClient → Bool
has_abort_been_signalled c = c.abort_requested

-- The three results of readResponse: a packet, a timeout (the Boolean), or an error.
pub data Response : Type 0 where
  packet : Bytes → Response
  timed_out : Response
  length_failed data_failed : ReadError → Response

pub record Reading : Type 0 where
  pub response : Response
  pub client : DbgpClient
  pub conn : Conn

abbrev length_error : ReadError → Response
length_error timeout = timed_out
length_error eof = length_failed eof
length_error io_error = length_failed io_error

abbrev data_read : Read Bytes → Response
data_read (Read.ok line) = packet line
data_read (Read.err e) = data_failed e

with_read : DbgpClient → Response → ConnRead → Reading
with_read c response out = record {
  response = response;
  client = record c { buffer = out.buffer };
  conn = out.conn;
}

read_data : DbgpClient → ConnRead → Reading
unfolding with_read
read_data c out =
    let out' = read_from 0 out.buffer out.conn in with_read c (data_read out'.result) out'

read_after_length : DbgpClient → Read Bytes → ConnRead → Reading
unfolding with_read read_data
read_after_length c (Read.err e) out = with_read c (length_error e) out
read_after_length c (Read.ok length) out = read_data c out

-- dbgp.readResponse(): the length is read and not used; the byte 0 behind the text stays in it
unfoldable pub read_response : DbgpClient → Conn → Reading
unfolding read_after_length
read_response c conn = let out = read_from 0 c.buffer conn in read_after_length c out.result out

abbrev pub dash_i : Bytes
dash_i = codes "-i"

abbrev pub dash_b : Bytes
dash_b = codes "-b"

unfoldable pub contains : Bytes → List Bytes → Bool
contains item [] = false
contains item (p ∷ ps) = p == item || contains item ps

-- The parts behind the command's name; there is always one part, by split-ne-nil.
insert_i : ℕ → List Bytes → List Bytes
insert_i n [] = []
insert_i n (name ∷ args) = name ∷ dash_i ∷ itoa (pos n) ∷ args

pub record Line (A : Type 0) : Type 0 where
  pub content : A
  pub client : DbgpClient

-- dbgp.injectIIfNeeded(parts)
unfoldable pub inject_i_if_needed : List Bytes → DbgpClient → Line (List Bytes)
unfolding contains insert_i
inject_i_if_needed parts c =
    if contains dash_i parts then record { content = parts; client = c } else record {
      content = insert_i c.counter parts;
      client = record c { counter = c.counter + 1 };
    }

source_begin_of : ℤ → Option ℤ → ℤ
source_begin_of old none = old
source_begin_of old (some value) = if is_positive value then value else old

-- The loop over the parts, with `s_found`.
source_begin : List Bytes → Bool → ℤ → ℤ
unfolding source_begin_of
source_begin [] found b = b
source_begin (item ∷ rest) found b =
    source_begin rest (item == dash_b) (if found then source_begin_of b (atoi item) else b)

-- dbgp.storeSourceBeginIfPresent(parts)
unfoldable pub store_source_begin_if_present : List Bytes → DbgpClient → Line (List Bytes)
unfolding source_begin
store_source_begin_if_present parts c = record {
  content = parts;
  client = record c { last_source_begin = source_begin parts false (pos 1) };
}

-- dbgp.processLine(line)
unfoldable pub process_line : Bytes → DbgpClient → Line Bytes
unfolding inject_i_if_needed store_source_begin_if_present
process_line line c =
    let injected = inject_i_if_needed (split b' ' (trim_space line)) c in
    let stored = store_source_begin_if_present injected.content injected.client in
    record { content = join b' ' stored.content; client = stored.client }

pub record Sent : Type 0 where
  pub client : DbgpClient
  pub written : Written

-- dbgp.SendCommand(line)
unfoldable pub send_command : Bytes → DbgpClient → Conn → Sent
unfolding process_line write
send_command line c conn =
    let processed = process_line line c in
    record { client = processed.client; written = write (processed.content ++ 0 ∷ []) conn }
