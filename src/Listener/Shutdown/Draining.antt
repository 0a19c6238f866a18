-- ===== src/Listener/Shutdown/Draining.antt =====
-- How the proxy's goroutines end once the servers are stopped.
use mathlib.Core.Path.{subst}
use dbgp_tools.Base.{
  append-cons, append-nil, ℕ, zero, suc, ◌+◌, Bool, true, false, List, [], ◌∷◌, ◌++◌, ◌≡◌, refl, ap,
  sym, ◌∙◌, ◌<◌, ◌≤◌, ◌⊎◌, inl, inr, arith, ◌≢◌,
}
use dbgp_tools.Listener.Shutdown.{
  Task, System, Move, turn, stop_servers, wait, Reach, start, later, new_listener, testing,
  accepting, new_connection, handling, ended, add_listener, go_on, leave, no_connection, connection,
  add_connection, finish,
}
use dbgp_tools.Listener.Shutdown.Counting.{counter-inside, inside}

-- How many moves a goroutine has left at most once `stop` is set, with those of what it starts.
abbrev pub moves_left : Task → ℕ
moves_left new_listener = 2
moves_left testing = 1
moves_left accepting = 4
moves_left new_connection = 2
moves_left handling = 1
moves_left ended = 0

abbrev pub all_left : List Task → ℕ
all_left [] = 0
all_left (t ∷ ts) = moves_left t + all_left ts

all_left-append : (ts us : List Task) → all_left (ts ++ us) ≡ all_left ts + all_left us
all_left-append [] us = omega arith
all_left-append (t ∷ ts) us = omega (arith, all_left-append ts us)

-- `k` moves of goroutines, one after the other.
pub data Moves : ℕ → System → System → Type 0 where
  none_made : {s : System} → Moves zero s s
  and_move :
      {k : ℕ} {s u : System}
      → Moves k s u
      → (before after : List Task) {t t' : Task} {n : ℕ} {started : List Task}
      → u.tasks ≡ before ++ t ∷ after
      → Move u.stop u.counter t n t' started
      → Moves (suc k) s (record u { counter = n; tasks = before ++ t' ∷ (after ++ started) })

move-left :
    {stop : Bool} {n m : ℕ} {t t' : Task} {started : List Task}
    → stop ≡ true
    → Move stop n t m t' started
    → moves_left t' + all_left started < moves_left t
move-left s add_listener = omega arith
move-left s (go_on h) = cc
move-left s (leave h) = omega arith
move-left s no_connection = omega arith
move-left s connection = omega arith
move-left s add_connection = omega arith
move-left s finish = omega arith

left-split :
    (before after : List Task) (t : Task) (started : List Task)
    → all_left (before ++ t ∷ (after ++ started))
      ≡ moves_left t + all_left started + (all_left before + all_left after)
left-split before after t started =
    omega (arith, all_left-append before (t ∷ (after ++ started)), all_left-append after started)

left-tasks :
    (before after : List Task) (t : Task)
    → all_left (before ++ t ∷ after) ≡ moves_left t + (all_left before + all_left after)
left-tasks before after t = omega (arith, all_left-append before (t ∷ after))

stop_kept : {k : ℕ} {s u : System} → Moves k s u → u.stop ≡ s.stop
stop_kept none_made = refl
stop_kept (and_move ms before after e m) = stop_kept ms

left_bound :
    {k : ℕ} {s u : System} → s.stop ≡ true → Moves k s u → k + all_left u.tasks ≤ all_left s.tasks
left_bound h none_made = omega arith
left_bound h (and_move ms before after {t} {t'} {n} {started} e m) =
    let fewer = move-left (stop_kept ms ∙ h) m in
    let here : all_left _ ≡ all_left _ = ap all_left e in
    omega (
      arith,
      fewer,
      left_bound h ms,
      here,
      left-tasks before after t,
      left-split before after t' started,
    )

-- Some goroutine can move that is not in Handle.
pub record CanMove (s : System) : Type 0 where
  pub before : List Task
  pub task : Task
  pub after : List Task
  pub here : s.tasks ≡ before ++ task ∷ after
  pub outside : task ≢ handling
  pub counter : ℕ
  pub task' : Task
  pub started : List Task
  pub move : Move s.stop s.counter task counter task' started

-- Some goroutine is in Handle.
pub record IsServing (s : System) : Type 0 where
  pub before : List Task
  pub after : List Task
  pub here : s.tasks ≡ before ++ handling ∷ after

module _ (s : System) where
  can_move :
      (before after : List Task) {t t' : Task} {n : ℕ} {started : List Task}
      → s.tasks ≡ before ++ t ∷ after
      → t ≢ handling
      → Move s.stop s.counter t n t' started
      → CanMove s
  can_move before after {t} {t'} {n} {started} e o m = record {
    before = before;
    task = t;
    after = after;
    here = e;
    outside = o;
    counter = n;
    task' = t';
    started = started;
    move = m;
  }

  find-CanMove :
      (before after : List Task)
      → s.stop ≡ true
      → s.tasks ≡ before ++ after
      → (inside after ≡ 0) ⊎ (CanMove s ⊎ IsServing s)
  find-CanMove before [] h e = inl refl
  find-CanMove before (testing ∷ after) h e =
      inr (inl (can_move before after e (λ x. cc) (leave h)))
  find-CanMove before (accepting ∷ after) h e =
      inr (inl (can_move before after e (λ x. cc) no_connection))
  find-CanMove before (handling ∷ after) h e =
      inr (inr (record { before = before; after = after; here = e }))
  find-CanMove before (new_listener ∷ after) h e =
      inr (inl (can_move before after e (λ x. cc) add_listener))
  find-CanMove before (new_connection ∷ after) h e =
      inr (inl (can_move before after e (λ x. cc) add_connection))
  find-CanMove before (ended ∷ after) h e =
      elim (find-CanMove (before ++ ended ∷ []) after h
        (e ∙ sym (append-cons before ended after))) [
          | inl z ↦ inl (omega (arith, z))
          | inr m ↦ inr m
        ]

reach-moves :
    {cloud : Bool} {n k : ℕ} {s u : System} → Reach cloud n s → Moves k s u → Reach cloud n u
reach-moves r none_made = r
reach-moves r (and_move ms before after e m) = later (reach-moves r ms) (turn before after e m)

-- Once the servers are stopped, the goroutines make no more moves than `all_left` of the state says, in
-- whatever order they take turns and whatever the network brings, where a call of Handle that returns is
-- one move. Wherever they stand then, the counter of the wait group is 0, so that Wait returns, or a
-- goroutine that is not in Handle can move, or one is in Handle: Wait is held up by nothing else than a
-- Handle that does not return.
pub shutdown_ends :
    {cloud : Bool} {n k : ℕ} {s u : System}
    → Reach cloud n s
    → s.stop ≡ true
    → Moves k s u
    → (k + all_left u.tasks ≤ all_left s.tasks) × ((u.counter ≡ 0) ⊎ (CanMove u ⊎ IsServing u))
shutdown_ends {u = u} r h ms = (
  left_bound h ms,
  elim (find-CanMove u [] u.tasks (stop_kept ms ∙ h) refl) [
    | inl z ↦ inl (counter-inside (reach-moves r ms) ∙ z)
    | inr m ↦ inr m
  ],
)

-- `n` connections whose goroutines have not called Add
abbrev pub connections : ℕ → List Task
connections zero = []
connections (suc n) = new_connection ∷ connections n

one_more : (k : ℕ) → new_connection ∷ connections k ≡ (connections k ++ []) ++ new_connection ∷ []
one_more zero = refl
one_more (suc k) = ap (λ ts. new_connection ∷ ts) (one_more k)

-- Two listeners, one of which has accepted `k` connections.
abbrev busy : List Task → System
busy ts = record { counter = 1; stop = false; tasks = testing ∷ new_listener ∷ ts; waited = false }

reach-busy : (k : ℕ) → Reach false 2 (busy (connections k))
reach-busy zero = later start (turn [] (new_listener ∷ []) refl add_listener)
reach-busy (suc k) =
    subst (λ ts. Reach false 2 (busy ts)) (sym (one_more k))
      (later (later (reach-busy k) (turn [] (new_listener ∷ connections k) refl (go_on refl)))
        (turn [] (new_listener ∷ (connections k ++ [])) refl connection))

-- Both listeners are at their test, and the servers have been stopped.
abbrev told : List Task → System
told ts = record { counter = 2; stop = true; tasks = testing ∷ testing ∷ ts; waited = false }

reach-told : (k : ℕ) → Reach false 2 (told (connections k))
reach-told k =
    subst (λ ts. Reach false 2 (told ts)) (append-nil (connections k))
      (later (later (reach-busy k) (turn (testing ∷ []) (connections k) refl add_listener))
        stop_servers)

-- Wait can return although connections that were accepted are not served yet. From the start of
-- dbgpProxy without SSL and without a user of the cloud, with one listener for Xdebug and one for IDEs,
-- for every number `k` a state can be reached in which Wait has returned, both listeners have ended, and
-- the goroutines of `k` connections have not called Add.
pub wait_early :
    (k : ℕ)
    → (s : System) × Reach false 2 s × (s.waited ≡ true) × (s.tasks ≡ ended ∷ ended ∷ connections k)
wait_early k = (
  _,
  later
      (later (later (reach-told k) (turn [] (testing ∷ connections k) refl (leave refl)))
        (turn (ended ∷ []) (connections k ++ []) refl (leave refl)))
      (wait refl refl),
  refl,
  ap (λ ts. ended ∷ ended ∷ ts) (append-nil (connections k ++ []) ∙ append-nil (connections k)),
)
