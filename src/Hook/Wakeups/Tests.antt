-- ===== src/Hook/Wakeups/Tests.antt =====
-- A task that another thread queues while nginx waits, and one that it queues in a pass.
use ngx_lua_cpp.Prelude.{ℕ, ◌+◌, ◌*◌, ◌≤◌, length, ◌<◌, ◌≡◌, refl, ◌⊎◌, true, List, [], ◌∷◌, arith}
use ngx_lua_cpp.Hook.Wakeups.{
  World, queue_task, exchange_one, wake, poll_next, tell, Reach, start, later, idle_world, queued,
  exchanged, tells, run,
}
use ngx_lua_cpp.Hook.Wakeups.NoLoss
use ngx_lua_cpp.Hook.Wakeups.Served

abbrev one_instance : List ℕ
one_instance = 7 ∷ []

-- Another thread has queued a task and is about to tell nginx, which waits.
abbrev about_to_tell : World
about_to_tell = exchange_one (queue_task 7 true (idle_world true one_instance))

about_to_tell-Reach : Reach true one_instance about_to_tell
unfolding queue_task
about_to_tell-Reach = later (later start (queued 7)) (exchanged (omega arith))

no_lost_wakeup_example :
    (0 < about_to_tell.told + about_to_tell.telling)
    ⊎ ((0 < about_to_tell.entering) × (about_to_tell.notified ≡ 0))
unfolding queue_task exchange_one
no_lost_wakeup_example =
    NoLoss.no_lost_wakeup 7 about_to_tell-Reach (omega arith) refl (omega arith)

abbrev told_world : World
told_world = tell about_to_tell

told_world-Reach : Reach true one_instance told_world
unfolding exchange_one queue_task
told_world-Reach = later about_to_tell-Reach (tells (omega arith))

run-Served_example : (n : ℕ) × (n ≤ 2 * length one_instance + 3) × ((run n told_world).tasks 7 ≡ 0)
unfolding queue_task exchange_one tell
run-Served_example = Served.run-Served 7 told_world-Reach (omega arith) refl refl (omega arith)

served_in_two : (run 2 told_world).tasks 7 ≡ 0
unfolding queue_task exchange_one tell wake poll_next
served_in_two = refl
