-- ===== src/Xdebugctl/Tests.antt =====
-- The theorems on xdebugctl, at concrete values.
use dbgp_tools.Base.{
  Bool, eqb, Bytes, codes, ◌==◌, ◌≡◌, refl, some, [], ◌∷◌, if◌then◌else◌, List, Option, ℕ, none,
}
use mathlib.Core.List.Perm
use dbgp_tools.Go.Net.{Conn, arriving}
use dbgp_tools.Base.Int.{pos, ℤ}
use dbgp_tools.Go.Decimal.{itoa}
use dbgp_tools.ClientTool.CommandTests.{proxy_decoder, printer}
use dbgp_tools.Xdebugctl.Windows.{find_files, found, entries, no_more_files, Query, FileInformation}
use dbgp_tools.Xdebugctl.Sockets.{Files}
use dbgp_tools.Xdebugctl.SendCmd.{World}
use dbgp_tools.Xdebugctl.Windows.Listing.{get, newest, find_files-Lists, page, more, last, done}

abbrev world : World
world = record {
  dial = λ socket. some (arriving []);
  decoder = proxy_decoder;
  printer = printer;
  pid_column = itoa;
  headings = [];
  usage = [];
  find_error = [];
  arrive = λ texts. texts;
}

abbrev socket : Bytes
socket = codes "@xdebug-ctrl.42"

abbrev others : Files
others = (pos 7, codes "@xdebug-ctrl.7") ∷ []

abbrev stop : Bytes
stop = codes "stop"

abbrev scan_pid : Bytes → Option ℤ
scan_pid name =
    if name == codes "xdebug-ctrl.42"
    then some (pos 42)
    else if name == codes "xdebug-ctrl.7"
    then some (pos 7)
    else none

-- Two entries: one at 0, and one 72 bytes behind it.
abbrev two_entries : ℕ → FileInformation
two_entries offset =
    if eqb offset 0
    then record { next_entry_offset = 72; file_name = codes "xdebug-ctrl.42" }
    else record { next_entry_offset = 0; file_name = codes "xdebug-ctrl.7" }

abbrev queries : List Query
queries = entries two_entries 140 ∷ no_more_files ∷ []

find_files-Lists_example :
    (v : Files) × (find_files scan_pid none queries ≡ found v none)
    × ((pid : ℤ)
        → get pid v ≡ newest scan_pid pid (codes "xdebug-ctrl.42" ∷ codes "xdebug-ctrl.7" ∷ []))
find_files-Lists_example =
    find_files-Lists scan_pid (page (more {n = 71} refl refl refl (last refl refl refl)) done)

abbrev faults_of : Option Conn → List Bool
faults_of none = []
faults_of (some c) = c.faults
