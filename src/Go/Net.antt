-- ===== src/Go/Net.antt =====
-- package net: one end of a connection. What the network does is an argument of the model: the
-- events that reading meets, and whether each write fails.
pub mod Laws
use dbgp_tools.Base.{Bytes, ℕ, Bool, true, false, List, [], ◌∷◌, ◌++◌}
use dbgp_tools.Go.Stream.{Event, Read, read_bytes}

pub record Conn : Type 0 where
  pub events : List Event
  pub sent : Bytes
  pub faults : List Bool
  pub closed : Bool

pub record Written : Type 0 where
  pub conn : Conn
  pub failed : Bool

write_next : List Bool → Bytes → Conn → Written
write_next [] s conn = record { conn = record conn { sent = conn.sent ++ s }; failed = false }
write_next (false ∷ fs) s conn = record {
  conn = record conn { sent = conn.sent ++ s; faults = fs };
  failed = false;
}
write_next (true ∷ fs) s conn = record { conn = record conn { faults = fs }; failed = true }

-- conn.Write(s): it fails where the next of `faults` says so; when they have run out, it succeeds
unfoldable pub write : Bytes → Conn → Written
unfolding write_next
write s conn = write_next conn.faults s conn

-- conn.Close()
unfoldable pub close : Conn → Conn
close conn = record conn { closed = true }

-- A connection that is open, has written nothing and reads these events.
abbrev pub arriving : List Event → Conn
arriving events = record { events = events; sent = []; faults = []; closed = false }

pub record ConnRead : Type 0 where
  pub result : Read Bytes
  pub buffer : Bytes
  pub conn : Conn

-- bufio's ReadBytes for a reader with this buffer on the connection
unfoldable pub read_from : ℕ → Bytes → Conn → ConnRead
read_from delim buffer conn =
    let out = read_bytes delim (record { buffer = buffer; events = conn.events }) in
    record {
      result = out.result;
      buffer = out.input.buffer;
      conn = record conn { events = out.input.events };
    }
