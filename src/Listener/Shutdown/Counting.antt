-- ===== src/Listener/Shutdown/Counting.antt =====
-- What the wait group counts.
use dbgp_tools.Base.{
  true, false, ℕ, zero, suc, ◌+◌, Bool, List, [], ◌∷◌, ◌++◌, ◌≡◌, refl, ap, sym, ◌∙◌, arith,
}
use dbgp_tools.Listener.Shutdown.{
  Task, System, Move, turn, stop_servers, wait, listeners, Reach, start, later, new_listener,
  testing, accepting, new_connection, handling, ended, add_listener, go_on, leave, no_connection,
  connection, add_connection, finish,
}

-- Whether a goroutine is between its Add and its Done.
abbrev pub weight : Task → ℕ
weight new_listener = 0
weight testing = 1
weight accepting = 1
weight new_connection = 0
weight handling = 1
weight ended = 0

-- How many are.
abbrev pub inside : List Task → ℕ
inside [] = 0
inside (t ∷ ts) = weight t + inside ts

pub inside-append : (ts us : List Task) → inside (ts ++ us) ≡ inside ts + inside us
inside-append [] us = omega arith
inside-append (t ∷ ts) us = omega (arith, inside-append ts us)

inside-listeners : (n : ℕ) → inside (listeners n) ≡ 0
inside-listeners zero = refl
inside-listeners (suc n) = omega (arith, inside-listeners n)

move-weight :
    {stop : Bool} {n m : ℕ} {t t' : Task} {started : List Task} (k : ℕ)
    → Move stop n t m t' started
    → n ≡ weight t + k
    → m ≡ weight t' + inside started + k
move-weight k add_listener e = omega arith
move-weight k (go_on h) e = omega arith
move-weight k (leave h) e = omega arith
move-weight k no_connection e = omega arith
move-weight k connection e = omega arith
move-weight k add_connection e = omega arith
move-weight k finish e = omega arith

pub inside-split :
    (before after : List Task) (t : Task) (started : List Task)
    → inside (before ++ t ∷ (after ++ started))
      ≡ weight t + inside started + (inside before + inside after)
inside-split before after t started =
    omega (arith, inside-append before (t ∷ (after ++ started)), inside-append after started)

inside-tasks :
    (before after : List Task) (t : Task)
    → inside (before ++ t ∷ after) ≡ weight t + (inside before + inside after)
inside-tasks before after t = omega (arith, inside-append before (t ∷ after))

-- In every state that can be reached, the wait group's counter is the number of goroutines that have
-- called Add and not yet Done.
pub counter-inside :
    {cloud : Bool} {n : ℕ} {s : System} → Reach cloud n s → s.counter ≡ inside s.tasks
counter-inside {cloud = true} {n} start = omega (arith, inside-listeners n)
counter-inside {cloud = false} {n} start = sym (inside-listeners n)
counter-inside (later r (turn before after {t} {t'} {n} {started} e m)) =
    move-weight (inside before + inside after) m
      (counter-inside r ∙ ap inside e ∙ inside-tasks before after t)
    ∙ sym (inside-split before after t' started)
counter-inside (later r stop_servers) = counter-inside r
counter-inside (later r (wait h z)) = counter-inside r
