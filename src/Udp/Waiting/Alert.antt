-- ===== src/Udp/Waiting/Alert.antt =====
-- No datagram is slept through; a stop may be.
use ngx_lua_cpp.Prelude.{◌+◌, ◌≤◌, ◌<◌, ◌≡◌, refl, ltb, ◌==◌, ◌||◌, if_cases, arith}
use ngx_lua_cpp.Udp.Waiting.{
  WaitState, enter, test_wait, block, wake_up, leave, arrive, notify_one, set_stop, notify_all,
  Step, enters, tests, blocks, wakes, leaves, arrives, notifies, stops, closes, Reach, start, later,
}

-- Nothing is queued where a call is about to block, and where calls are blocked, each datagram has its
-- notice to come or a call that is awake.
pub record IsAlert (s : WaitState) : Type 0 where
  pub empty : 0 < s.deciding → s.queued ≡ 0
  pub covered : 0 < s.blocked → s.queued ≤ s.notices + s.awake

Step-IsAlert : {s s' : WaitState} → Step s s' → IsAlert s → IsAlert s'
unfolding enter test_wait block wake_up leave arrive notify_one set_stop notify_all
Step-IsAlert enters h = record {
  empty = h.empty;
  covered = λ b. let c = h.covered b in omega arith;
}
Step-IsAlert {s} (tests n free) h =
    if_cases IsAlert (ltb 0 s.queued || s.stop) _ _
      (λ found. record {
        empty = λ d. absurd (omega arith);
        covered = λ b. let c = h.covered b in omega arith;
      })
      (λ nothing.
        let none_queued : s.queued ≡ 0 = ground arith in
        record { empty = λ d. none_queued; covered = λ b. omega arith })
Step-IsAlert {s} (blocks n) h =
    let none_queued : s.queued ≡ 0 = h.empty (omega arith) in
    record { empty = λ d. none_queued; covered = λ b. omega arith }
Step-IsAlert (wakes n) h = record {
  empty = h.empty;
  covered = λ b. let c = h.covered (omega arith) in omega arith;
}
Step-IsAlert (leaves n free) h = record {
  empty = λ d. absurd (omega arith);
  covered = λ b. let c = h.covered b in omega arith;
}
Step-IsAlert (arrives free) h = record {
  empty = λ d. absurd (omega arith);
  covered = λ b. let c = h.covered b in omega arith;
}
Step-IsAlert {s} (notifies n) h =
    if_cases IsAlert (s.blocked == 0) _ _
      (λ nobody. record { empty = h.empty; covered = λ b. absurd (ground arith) })
      (λ somebody. record {
        empty = h.empty;
        covered = λ b. let c = h.covered (omega arith) in omega arith;
      })
Step-IsAlert (stops e) h = record { empty = h.empty; covered = h.covered }
Step-IsAlert (closes e) h = record { empty = h.empty; covered = λ b. absurd (omega arith) }

Reach-IsAlert : {s : WaitState} → Reach s → IsAlert s
Reach-IsAlert start = record { empty = λ d. refl; covered = λ b. omega arith }
Reach-IsAlert (later r st) = Step-IsAlert st (Reach-IsAlert r)

-- While a call of `udp_recv` is blocked, there are at least as many notices to come and calls awake as
-- datagrams wait, however many calls there are, and whichever of them a notice wakes: no datagram is
-- slept through by all of them.
pub Reach-notices : {s : WaitState} → Reach s → 0 < s.blocked → s.queued ≤ s.notices + s.awake
Reach-notices r b = (Reach-IsAlert r).covered b
