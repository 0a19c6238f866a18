-- ===== src/Go/Stream.antt =====
-- package bufio over a network connection: what arrives, and Reader.ReadBytes.
pub mod Laws
pub mod Measure
use dbgp_tools.Base.{Bytes, eqb, if◌then◌else◌, ℕ, Option, none, some, List, [], ◌∷◌, ◌++◌}

-- What reading from the connection meets next: bytes, the read deadline, or a failure. The end of
-- the list is the end of the stream.
pub data Event : Type 0 where
  chunk : Bytes → Event
  deadline : Event
  failure : Event

-- The errors of reading: io.EOF, a net.Error with Timeout() true, and any other.
pub data ReadError : Type 0 where
  eof timeout io_error : ReadError

pub data Read (A : Type 0) : Type 0 where
  ok : A → Read A
  err : ReadError → Read A

-- bufio.Reader: what is buffered. What has not arrived yet stays with the connection.
pub record Input : Type 0 where
  pub buffer : Bytes
  pub events : List Event

pub record ReadResult : Type 0 where
  pub result : Read Bytes
  pub input : Input

-- The text up to and with the first `delim`, and what follows it.
cut : ℕ → Bytes → Option (Bytes × Bytes)
cut delim [] = none
cut delim (c ∷ s) =
    if eqb c delim
    then some (c ∷ [], s)
    else elim (cut delim s) [ none ↦ none | some (line, rest) ↦ some (c ∷ line, rest) ]

found : Bytes × Bytes → List Event → ReadResult
found (line, rest) events = record {
  result = ok line;
  input = record { buffer = rest; events = events };
}

-- What is buffered is given up with an error: ReadBytes returns it beside the error, and the
-- program drops it.
failed : ReadError → List Event → ReadResult
failed e events = record { result = err e; input = record { buffer = []; events = events } }

fill : ℕ → Bytes → List Event → ReadResult
unfolding cut found failed
fill delim buffer [] = elim (cut delim buffer) [ none ↦ failed eof [] | some p ↦ found p [] ]
fill delim buffer (chunk bytes ∷ events) =
    let later = fill delim (buffer ++ bytes) events in
    elim (cut delim buffer) [ none ↦ later | some p ↦ found p (chunk bytes ∷ events) ]
fill delim buffer (deadline ∷ events) = elim (cut delim buffer) [
  | none ↦ failed timeout events
  | some p ↦ found p (deadline ∷ events)
]
fill delim buffer (failure ∷ events) = elim (cut delim buffer) [
  | none ↦ failed io_error events
  | some p ↦ found p (failure ∷ events)
]

-- reader.ReadBytes(delim)
unfoldable pub read_bytes : ℕ → Input → ReadResult
unfolding fill
read_bytes delim input = fill delim input.buffer input.events
