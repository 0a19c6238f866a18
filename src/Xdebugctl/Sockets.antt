-- ===== src/Xdebugctl/Sockets.antt =====
-- xdebugctl/main_linux.go: the control sockets. The matches of the regular expression are an argument.
use dbgp_tools.Base.{Bytes, if◌then◌else◌, Option, none, some, List, [], ◌∷◌}
use dbgp_tools.Base.Int.{ℤ, pos, is_int}
use dbgp_tools.Go.Decimal.{atoi, max_int}

-- The control sockets by the scripts' PIDs: one entry for a key.
abbrev pub Files : Type 0
Files = List (ℤ × Bytes)

-- The digits of the PID and the name of the socket, the groups 2 and 1 of a line that matches.
abbrev pub Match : Type 0
Match = Bytes × Bytes

-- strconv.Atoi of digits, whose error is dropped: a number out of range becomes the largest `int`.
abbrev pid_of : Bytes → ℤ
pid_of digits = elim (atoi digits) [ none ↦ pos max_int | some n ↦ n ]

-- The map without a key.
unfoldable pub without : ℤ → Files → Files
without k [] = []
without k ((j, file) ∷ v) = let rest = without k v in if is_int j k then rest else (j, file) ∷ rest

-- v[k] = file
unfoldable pub put : ℤ → Bytes → Files → Files
unfolding without
put k file v = (k, file) ∷ without k v

collect : List Match → Files → Files
unfolding put atoi
collect [] v = v
collect ((digits, file) ∷ ms) v = collect ms (put (pid_of digits) file v)

-- findFiles() on Linux, for the lines that match, from the first on; it never fails
unfoldable pub find_files : List Match → Option Files
unfolding collect
find_files ms = some (collect ms [])
