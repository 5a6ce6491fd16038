-- ===== src/Udp/Waiting.antt =====
-- The calls of `udp_recv` that wait on one listener, one access at a time: the condition variable
-- between them, the thread of the listener, and `stop_listen`. The test of the wait and the blocking
-- are one hold of the mutex, as are the test and the taking of a datagram; a datagram is queued under
-- the mutex too, while `stop` is set without it.
pub mod Alert
mod Tests
use ngx_lua_cpp.Prelude.{
  ℕ, ◌+◌, ◌-◌, ◌≡◌, ◌≢◌, Bool, true, false, ◌||◌, ◌==◌, ltb, min, if◌then◌else◌,
}

-- How many calls are awake, in front of the test of the wait or of the queue; how many are between that
-- test and the blocking, with the mutex; and how many are blocked. `queued` datagrams; `notices` counts
-- the datagrams whose `cv.notify_one` is still to come, `closing` tells whether the `cv.notify_all` of
-- a stop is.
pub record WaitState : Type 0 where
  pub awake : ℕ
  pub deciding : ℕ
  pub blocked : ℕ
  pub queued : ℕ
  pub notices : ℕ
  pub stop : Bool
  pub closing : Bool

-- A call of `udp_recv`, of any timeout, comes to the queue.
unfoldable pub enter : WaitState → WaitState
enter s = record s { awake = s.awake + 1 }

-- The predicate of `wait_for`, and the taking of a datagram if it holds: a call that finds a datagram
-- or the stop does not wait.
unfoldable pub test_wait : WaitState → WaitState
test_wait s =
    if ltb 0 s.queued || s.stop
    then record s { awake = s.awake - 1; queued = s.queued - 1 }
    else record s { awake = s.awake - 1; deciding = s.deciding + 1 }

unfoldable pub block : WaitState → WaitState
block s = record s { deciding = s.deciding - 1; blocked = s.blocked + 1 }

-- A call ends its wait, since its timeout is over or for no reason, and comes back to the queue.
unfoldable pub wake_up : WaitState → WaitState
wake_up s = record s { awake = s.awake + 1; blocked = s.blocked - 1 }

-- A call whose timeout is over takes a datagram if there is one.
unfoldable pub leave : WaitState → WaitState
leave s = record s { awake = s.awake - 1; queued = s.queued - 1 }

-- `queue.emplace_back`, with the bound of the queue, and, behind the mutex, `cv.notify_one`.
unfoldable pub arrive : WaitState → WaitState
arrive s = record s { queued = min (s.queued + 1) 4096; notices = s.notices + 1 }

-- It wakes one of the blocked calls, whichever, if there is one.
unfoldable pub notify_one : WaitState → WaitState
notify_one s =
    if s.blocked == 0
    then record s { notices = s.notices - 1 }
    else record s { notices = s.notices - 1; awake = s.awake + 1; blocked = s.blocked - 1 }

-- `stop.exchange(true)`, and `cv.notify_all`.
unfoldable pub set_stop : WaitState → WaitState
set_stop s = record s { stop = true; closing = true }

unfoldable pub notify_all : WaitState → WaitState
notify_all s = record s { closing = false; awake = s.awake + s.blocked; blocked = 0 }

pub data Step (s : WaitState) : WaitState → Type 0 where
  enters : Step s (enter s)
  tests : s.awake ≢ 0 → s.deciding ≡ 0 → Step s (test_wait s)
  blocks : s.deciding ≢ 0 → Step s (block s)
  wakes : s.blocked ≢ 0 → Step s (wake_up s)
  leaves : s.awake ≢ 0 → s.deciding ≡ 0 → Step s (leave s)
  arrives : s.deciding ≡ 0 → Step s (arrive s)
  notifies : s.notices ≢ 0 → Step s (notify_one s)
  stops : s.stop ≡ false → Step s (set_stop s)
  closes : s.closing ≡ true → Step s (notify_all s)

-- A new listener.
abbrev pub idle_listener : WaitState
idle_listener = record {
  awake = 0;
  deciding = 0;
  blocked = 0;
  queued = 0;
  notices = 0;
  stop = false;
  closing = false;
}

pub data Reach : WaitState → Type 0 where
  start : Reach idle_listener
  later : {s s' : WaitState} → Reach s → Step s s' → Reach s'
