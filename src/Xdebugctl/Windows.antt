-- ===== src/Xdebugctl/Windows.antt =====
-- xdebugctl/main_windows.go: the named pipes. The calls of packages ntdll and fmt are arguments.
pub mod Listing
use dbgp_tools.Base.{
  Bytes, codes, ltb, eqb, if◌then◌else◌, ℕ, zero, suc, ◌+◌, Option, none, some, List, [], ◌∷◌, ◌++◌,
}
use dbgp_tools.Base.Int.{ℤ}
use dbgp_tools.Xdebugctl.Sockets.{Files, put}

-- ntdll.FileDirectoryInformationT, with the name as text
pub record FileInformation : Type 0 where
  pub next_entry_offset : ℕ
  pub file_name : Bytes

-- What one call of NtQueryDirectoryFile leaves: the buffer, by the offset of an entry, and
-- iosb.Information; STATUS_NO_MORE_FILES; or another status, with its Error(), which can be nil.
pub data Query : Type 0 where
  entries : (ℕ → FileInformation) → ℕ → Query
  no_more_files : Query
  failed : Option Bytes → Query

-- What findFiles returns, the map and the error; `panicked` is the index out of range of an empty name,
-- and `unfinished` is that the calls given are too few.
pub data Found : Type 0 where
  found : Files → Option Bytes → Found
  panicked unfinished : Found

abbrev pub pipe_of : Bytes → Bytes
pipe_of name = codes "\\\\.\\pipe\\" ++ name

-- The entry of the map for a name, with the PID that fmt.Sscanf finds in it, if it finds one.
abbrev pub store_as : Bytes → Files → Option ℤ → Files
store_as name v none = v
store_as name v (some pid) = put pid (pipe_of name) v

abbrev pub store : (Bytes → Option ℤ) → Bytes → Files → Files
store scan_pid name v = store_as name v (scan_pid name)

-- The end of the walk through a buffer.
pub data Walked : Type 0 where
  stored : Files → Walked
  no_name out_of_fuel : Walked

-- The loop over the entries of a buffer, on fuel.
unfoldable pub walk : (Bytes → Option ℤ) → (ℕ → FileInformation) → ℕ → ℕ → ℕ → Files → Walked
walk scan_pid buf information zero offset v = out_of_fuel
walk scan_pid buf information (suc fuel) offset v =
    let fdi = buf offset in
    let v' = store scan_pid fdi.file_name v in
    let rest = walk scan_pid buf information fuel (offset + fdi.next_entry_offset) v' in
    if ltb offset information
    then elim fdi.file_name [
      | [] ↦ no_name
      | c ∷ cs ↦ if eqb fdi.next_entry_offset 0 then stored v' else rest
    ]
    else stored v

-- The loop over the calls of NtQueryDirectoryFile; the first of them is told to restart. An entry is
-- at least one byte behind the one before it, so as much fuel as there are bytes is enough.
unfoldable pub query_all : (Bytes → Option ℤ) → List Query → Files → Found
unfolding walk
query_all scan_pid [] v = unfinished
query_all scan_pid (no_more_files ∷ qs) v = found v none
query_all scan_pid (failed e ∷ qs) v = found v e
query_all scan_pid (entries buf information ∷ qs) v =
    elim (walk scan_pid buf information (suc information) 0 v) [
      | stored v' ↦ query_all scan_pid qs v'
      | no_name ↦ panicked
      | out_of_fuel ↦ unfinished
    ]

-- findFiles() on Windows, with the error of NtOpenFile, if there is one
unfoldable pub find_files : (Bytes → Option ℤ) → Option Bytes → List Query → Found
unfolding query_all
find_files scan_pid (some e) qs = found [] (some e)
find_files scan_pid none qs = query_all scan_pid qs []
