-- ===== src/Udp/Waiting/Tests.antt =====
-- A datagram that arrives while two calls wait, and a stop that is slept through.
use ngx_lua_cpp.Prelude.{◌+◌, ◌≤◌, ◌≡◌, refl, true, false, arith}
use ngx_lua_cpp.Udp.Waiting.{
  WaitState, enter, test_wait, block, arrive, notify_one, set_stop, notify_all, enters, tests,
  blocks, arrives, notifies, stops, closes, idle_listener, Reach, start, later,
}
use ngx_lua_cpp.Udp.Waiting.Alert

program : Unit {0}
unfolding enter test_wait block arrive notify_one set_stop notify_all
program = tt

abbrev one_waits : WaitState
one_waits = block (test_wait (enter idle_listener))

abbrev two_wait : WaitState
two_wait = block (test_wait (enter one_waits))

two_wait-Reach : Reach two_wait
unfolding program
two_wait-Reach =
    later
      (later
        (later
          (later (later (later start enters) (tests (omega arith) refl)) (blocks (omega arith)))
          enters)
        (tests (omega arith) refl))
      (blocks (omega arith))

-- The notice wakes one of the two.
abbrev one_woken : WaitState
one_woken = notify_one (arrive two_wait)

Reach-notices_example : one_woken.queued ≤ one_woken.notices + one_woken.awake
unfolding program
Reach-notices_example =
    Alert.Reach-notices (later (later two_wait-Reach (arrives refl)) (notifies (omega arith)))
      (omega arith)

-- The flag is set between the test and the blocking: the notice comes too early, and the wait lasts
-- until its timeout.
abbrev slept : WaitState
slept = block (notify_all (set_stop (test_wait (enter idle_listener))))

slept_through : Reach slept × (slept.blocked ≡ 1) × (slept.stop ≡ true) × (slept.closing ≡ false)
unfolding program
slept_through = (
  later
      (later (later (later (later start enters) (tests (omega arith) refl)) (stops refl))
        (closes refl))
      (blocks (omega arith)),
  refl,
  refl,
  refl,
)
