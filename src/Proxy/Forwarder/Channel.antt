-- ===== src/Proxy/Forwarder/Channel.antt =====
-- lib/proxy/client.go: the two goroutines of setupForwarder and `serverChan`, as a step relation. One
-- goroutine copies from the IDE to Xdebug with io.Copy; the other reads from Xdebug. io.Copy can always
-- return, for what the IDE does or, behind the Close, for the connection that is closed.
use dbgp_tools.Base.{
  ℕ, zero, suc, ◌+◌, ◌≤◌, ◌<◌, Bool, true, false, ◌≡◌, ◌⊎◌, refl, inl, inr, arith,
}

-- The goroutine that copies: in io.Copy, at the sending of its error, which waits for a receiver, in
-- front of close(serverChan), or behind it.
pub data Copier : Type 0 where
  copying reporting finishing gone : Copier

-- The other one: reading from Xdebug, at the select behind a timeout, in front of the deferred calls, at
-- the receive behind Close, or at the end.
pub data Reader : Type 0 where
  reading polling leaving waiting returned : Reader

-- Whether a receive from `serverChan` does not block.
abbrev is_ready : Copier → Bool
is_ready copying = false
is_ready reporting = true
is_ready finishing = false
is_ready gone = true

-- A move of one goroutine, or of both where an error is handed over.
pub data Move : Copier → Reader → Copier → Reader → Type 0 where
  copy_failed : {r : Reader} → Move copying r reporting r
  copy_ended : {r : Reader} → Move copying r finishing r
  close_channel : {r : Reader} → Move finishing r gone r
  forward_packet : {c : Copier} → Move c reading c reading
  time_out : {c : Copier} → Move c reading c polling
  go_on : {c : Copier} → is_ready c ≡ false → Move c polling c reading
  error_seen : Move reporting polling finishing leaving
  end_seen : Move gone polling gone leaving
  session_over : {c : Copier} → Move c reading c leaving
  close_ide : {c : Copier} → Move c leaving c waiting
  error_taken : Move reporting waiting finishing returned
  end_taken : Move gone waiting gone returned

pub data Reach : Copier → Reader → Type 0 where
  start : Reach copying reading
  later : {c c' : Copier} {r r' : Reader} → Reach c r → Move c r c' r' → Reach c' r'

-- `k` moves, one after the other.
pub data Moves (c : Copier) (r : Reader) : ℕ → Copier → Reader → Type 0 where
  none_made : Moves c r zero c r
  and_move :
      {k : ℕ} {c' c'' : Copier} {r' r'' : Reader}
      → Moves c r k c' r'
      → Move c' r' c'' r''
      → Moves c r (suc k) c'' r''

-- setupForwarder is at its end.
abbrev pub has_left : Reader → Bool
has_left reading = false
has_left polling = false
has_left leaving = true
has_left waiting = true
has_left returned = true

abbrev copies_left : Copier → ℕ
copies_left copying = 3
copies_left reporting = 2
copies_left finishing = 1
copies_left gone = 0

abbrev reads_left : Reader → ℕ
reads_left leaving = 2
reads_left waiting = 1
reads_left r = 0

-- The goroutine that copies has handed its error over, or had none.
abbrev has_reported : Copier → Bool
has_reported copying = false
has_reported reporting = false
has_reported finishing = true
has_reported gone = true

-- Behind the last receive nothing is left to be handed over.
abbrev is_served : Copier → Reader → Bool
is_served c reading = true
is_served c polling = true
is_served c leaving = true
is_served c waiting = true
is_served c returned = has_reported c

is_served-reported : (c : Copier) (r : Reader) → has_reported c ≡ true → is_served c r ≡ true
is_served-reported c reading h = refl
is_served-reported c polling h = refl
is_served-reported c leaving h = refl
is_served-reported c waiting h = refl
is_served-reported c returned h = h

is_served-failed : (r : Reader) → is_served copying r ≡ true → is_served reporting r ≡ true
is_served-failed reading h = refl
is_served-failed polling h = refl
is_served-failed leaving h = refl
is_served-failed waiting h = refl
is_served-failed returned h = cc

reach_served : {c : Copier} {r : Reader} → Reach c r → is_served c r ≡ true
reach_served start = refl
reach_served (later s (copy_failed {r})) = is_served-failed r (reach_served s)
reach_served (later s (copy_ended {r})) = is_served-reported finishing r refl
reach_served (later s (close_channel {r})) = is_served-reported gone r refl
reach_served (later s forward_packet) = refl
reach_served (later s time_out) = refl
reach_served (later s (go_on h)) = refl
reach_served (later s error_seen) = refl
reach_served (later s end_seen) = refl
reach_served (later s session_over) = refl
reach_served (later s close_ide) = refl
reach_served (later s error_taken) = refl
reach_served (later s end_taken) = refl

-- At the end of setupForwarder every move brings both goroutines nearer to theirs.
step_left :
    {c c' : Copier} {r r' : Reader}
    → has_left r ≡ true
    → Move c r c' r'
    → (has_left r' ≡ true) × (copies_left c' + reads_left r' < copies_left c + reads_left r)
step_left h copy_failed = (h, omega arith)
step_left h copy_ended = (h, omega arith)
step_left h close_channel = (h, omega arith)
step_left h forward_packet = cc
step_left h time_out = cc
step_left h (go_on x) = cc
step_left h error_seen = cc
step_left h end_seen = cc
step_left h session_over = cc
step_left h close_ide = (refl, omega arith)
step_left h error_taken = (refl, omega arith)
step_left h end_taken = (refl, omega arith)

fewer_left :
    {c : Copier} {r : Reader} {c' : Copier} {r' : Reader} {k : ℕ}
    → has_left r ≡ true
    → Moves c r k c' r'
    → (has_left r' ≡ true) × (k + (copies_left c' + reads_left r') ≤ copies_left c + reads_left r)
fewer_left h none_made = (h, omega arith)
fewer_left h (and_move ms m) =
    let (left, less) = fewer_left h ms in
    let (left', less') = step_left left m in (left', omega (arith, less, less'))

reach_moves :
    {c : Copier} {r : Reader} {c' : Copier} {r' : Reader} {k : ℕ}
    → Reach c r
    → Moves c r k c' r'
    → Reach c' r'
reach_moves s none_made = s
reach_moves s (and_move ms m) = later (reach_moves s ms) m

copies_left_bound : (c : Copier) → copies_left c ≤ 3
copies_left_bound copying = omega arith
copies_left_bound reporting = omega arith
copies_left_bound finishing = omega arith
copies_left_bound gone = omega arith

reads_left_bound : (r : Reader) → reads_left r ≤ 2
reads_left_bound leaving = omega arith
reads_left_bound waiting = omega arith
reads_left_bound reading = omega arith
reads_left_bound polling = omega arith
reads_left_bound returned = omega arith

-- Some goroutine can move.
abbrev pub CanMove : Copier → Reader → Type 0
CanMove c r = (c' : Copier) × (r' : Reader) × Move c r c' r'

ended_or-CanMove :
    (c : Copier) (r : Reader)
    → has_left r ≡ true
    → is_served c r ≡ true
    → ((c ≡ gone) × (r ≡ returned)) ⊎ CanMove c r
ended_or-CanMove copying r h s = inr (reporting, r, copy_failed)
ended_or-CanMove finishing r h s = inr (gone, r, close_channel)
ended_or-CanMove c leaving h s = inr (c, waiting, close_ide)
ended_or-CanMove reporting waiting h s = inr (finishing, returned, error_taken)
ended_or-CanMove gone waiting h s = inr (gone, returned, end_taken)
ended_or-CanMove gone returned h s = inl (refl, refl)
ended_or-CanMove reporting returned h s = cc
ended_or-CanMove c reading h s = cc
ended_or-CanMove c polling h s = cc

-- Once setupForwarder is at its end, for whatever reason, the two goroutines make at most five moves,
-- in whatever order they take turns; and wherever they stand then, setupForwarder has returned and the
-- goroutine that copies has ended, or one of the two can move: neither waits for the other in vain.
pub session_ends :
    {c : Copier} {r : Reader} {c' : Copier} {r' : Reader} {k : ℕ}
    → Reach c r
    → has_left r ≡ true
    → Moves c r k c' r'
    → (k ≤ 5) × (((c' ≡ gone) × (r' ≡ returned)) ⊎ CanMove c' r')
session_ends {c} {r} {c'} {r'} s h ms =
    let (left, less) = fewer_left h ms in
    (
      omega (arith, less, copies_left_bound c, reads_left_bound r),
      ended_or-CanMove c' r' left (reach_served (reach_moves s ms)),
    )
