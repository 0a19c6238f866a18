-- ===== src/Listener/Laws.antt =====
-- What the accept loop starts, and how a connection ends.
use dbgp_tools.Base.{Bytes, true, false, List, [], ◌∷◌, ◌++◌, ◌≡◌, refl}
use dbgp_tools.Go.Net.{Conn}
use dbgp_tools.Listener.{Accept, Round, accept_loop, accepted, timed_out, accept_error}

-- The rounds that find `stop` not set.
abbrev pub going : List Accept → List Round
going [] = []
going (a ∷ seen) = record { stop = false; accept = a } ∷ going seen

-- The connections among what Accept returned, and the texts of the errors.
abbrev pub conns_of : List Accept → List Conn
conns_of [] = []
conns_of (accepted conn ∷ seen) = conn ∷ conns_of seen
conns_of (timed_out ∷ seen) = conns_of seen
conns_of (accept_error text ∷ seen) = conns_of seen

abbrev pub errors_of : List Accept → Bytes
errors_of [] = []
errors_of (accepted conn ∷ seen) = errors_of seen
errors_of (timed_out ∷ seen) = errors_of seen
errors_of (accept_error text ∷ seen) = text ++ errors_of seen

-- A listener serves every connection that comes in a round before the first that finds `stop` set, each
-- once and in order, prints the errors of Accept but no timeout, and neither an error nor a timeout
-- ends the loop; the first round that finds `stop` set ends it, and what would come later is not served.
pub accept_loop_stopped :
    (seen : List Accept) (a : Accept) (later : List Round)
    → accept_loop (going seen ++ record { stop = true; accept = a } ∷ later)
      ≡ record { started = conns_of seen; output = errors_of seen; returned = true }
unfolding accept_loop
accept_loop_stopped [] a later = refl
accept_loop_stopped (accepted conn ∷ seen) a later = rw (accept_loop_stopped seen a later) refl
accept_loop_stopped (timed_out ∷ seen) a later = accept_loop_stopped seen a later
accept_loop_stopped (accept_error text ∷ seen) a later = rw (accept_loop_stopped seen a later) refl
