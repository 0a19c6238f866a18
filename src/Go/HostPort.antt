-- ===== src/Go/HostPort.antt =====
-- package net: JoinHostPort.
use dbgp_tools.Base.{Bytes, ℕ, Bool, false, eqb, ◌||◌, if◌then◌else◌, [], ◌∷◌, ◌++◌, codes}

has : ℕ → Bytes → Bool
has c [] = false
has c (x ∷ s) = eqb c x || has c s

-- net.JoinHostPort(host, port): brackets around a host with a colon
unfoldable pub join_host_port : Bytes → Bytes → Bytes
unfolding has
join_host_port host port =
    if has b':' host then codes "[" ++ host ++ codes "]:" ++ port else host ++ codes ":" ++ port
