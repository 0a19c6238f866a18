-- ===== src/Listener/Shutdown.antt =====
-- lib/server/server.go and dbgpProxy/main.go: the goroutines of the proxy, its wait group and the flag
-- `stop`, as a step relation in which any goroutine may move next. The servers are stopped together.
pub mod Counting
pub mod Draining
use dbgp_tools.Base.{ℕ, zero, suc, ◌-◌, Bool, true, false, List, [], ◌∷◌, ◌++◌, ◌≡◌}

-- Where a goroutine is. A listener has not called Add yet, is at the test of `stop`, or in Accept; a
-- connection's goroutine has not called Add yet, or is in Handle; `ended` is after Done.
pub data Task : Type 0 where
  new_listener testing accepting new_connection handling ended : Task

-- The counter of the wait group, the flag, the goroutines, and whether Wait has returned in main.
pub record System : Type 0 where
  pub counter : ℕ
  pub stop : Bool
  pub tasks : List Task
  pub waited : Bool

-- One move of a goroutine, with the counter before and after it and the goroutines it starts. `finish`
-- is the whole of Handle, which may return and need not: that depends on its connection.
pub data Move (stop : Bool) (n : ℕ) : Task → ℕ → Task → List Task → Type 0 where
  add_listener : Move stop n new_listener (suc n) testing []
  go_on : stop ≡ false → Move stop n testing n accepting []
  leave : stop ≡ true → Move stop n testing (n - 1) ended []
  no_connection : Move stop n accepting n testing []
  connection : Move stop n accepting n testing (new_connection ∷ [])
  add_connection : Move stop n new_connection (suc n) handling []
  finish : Move stop n handling (n - 1) ended []

pub data Step (s : System) : System → Type 0 where
  turn :
      (before after : List Task) {t t' : Task} {n : ℕ} {started : List Task}
      → s.tasks ≡ before ++ t ∷ after
      → Move s.stop s.counter t n t' started
      → Step s (record s { counter = n; tasks = before ++ t' ∷ (after ++ started) })
  -- Stop, of all servers
  stop_servers : Step s (record s { stop = true })
  -- Wait, behind Stop
  wait : s.stop ≡ true → s.counter ≡ 0 → Step s (record s { waited = true })

-- `n` listeners that main has started with `go`: without a user of the cloud one for Xdebug and one for
-- IDEs, or two of each with SSL; with one, those for IDEs
abbrev pub listeners : ℕ → List Task
listeners zero = []
listeners (suc n) = new_listener ∷ listeners n

-- With a user of the cloud, CloudConnect has started the goroutine of its connection before.
abbrev pub initial_tasks : Bool → ℕ → List Task
initial_tasks true n = new_connection ∷ listeners n
initial_tasks false n = listeners n

abbrev pub init : Bool → ℕ → System
init cloud n = record { counter = 0; stop = false; tasks = initial_tasks cloud n; waited = false }

pub data Reach (cloud : Bool) (n : ℕ) : System → Type 0 where
  start : Reach cloud n (init cloud n)
  later : {s t : System} → Reach cloud n s → Step s t → Reach cloud n t
