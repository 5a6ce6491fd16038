-- ===== src/Lifecycle/Tests.antt =====
-- A pool in miniature, and the theorems at concrete inputs.
use ngx_lua_cpp.Prelude.{
  ℕ, ◌+◌, ◌≡◌, refl, Bool, true, false, Option, none, some, List, [], ◌∷◌, arith,
}
use ngx_lua_cpp.Lifecycle.{
  AsyncWorker, Instance, reset_main_warp, construct, start, stop, process_events,
}
use ngx_lua_cpp.Lifecycle.Stopping
use ngx_lua_cpp.Lifecycle.Pool.{IsAsyncWorker}
use ngx_lua_cpp.Lifecycle.Reachable
use ngx_lua_cpp.Lifecycle.Destruction
use ngx_lua_cpp.Lifecycle.Stopping.{IsStopped}
use ngx_lua_cpp.Udp.Ports
use ngx_lua_cpp.Udp.Listener.{new_listener}
use ngx_lua_cpp.Lifecycle.Reachable.{
  Step, started, stopping, processed, Reach, here, after, IsValid,
}

-- How many threads there are, and whether the pool is at rest.
abbrev pool : AsyncWorker (ℕ × Bool)
pool = record {
  get_current_thread_index = λ w. none;
  get_thread_count = λ w. w.0;
  is_terminated = λ w. w.1;
  resize = λ n w. (n, w.1);
  append = λ w. ((w.0 + 1, w.1), w.0);
  start = λ w. (w.0, false);
  terminate = λ w. (w.0, true);
  join = λ w. (0, w.1);
  make_current = λ i w. w;
  poll = λ w. w;
  poll_warp = λ w. (w, false);
  poll_warp_only = λ w. w;
}

pool-IsAsyncWorker : IsAsyncWorker pool
pool-IsAsyncWorker = record {
  count_resize = λ n w. refl;
  append_lem = λ w. (refl, refl);
  start_lem = λ w. (refl, refl);
  terminate_lem = λ w. refl;
  make_current_lem = λ i w. (refl, refl);
  poll_lem = λ w. (refl, refl);
  poll_warp_lem = λ w. (refl, refl);
  poll_warp_only_lem = λ w. (refl, refl);
}

abbrev Tiny : Type 0
Tiny = Instance (ℕ × Bool) ℕ ℕ

abbrev idle : ℕ → ℕ × Bool
idle p = (0, true)

abbrev fresh : Tiny
fresh = construct pool 7 idle

abbrev running : Tiny
running = (start pool 2 9 fresh).1

program : Unit {0}
unfolding construct start stop reset_main_warp
program = tt

capped_at_eight : running.main_thread_index ≡ some 8
unfolding program
capped_at_eight = refl

-- With a listener, on the socket 4.
abbrev listening : Tiny
listening = record running { udp_listeners = (9, new_listener 9 4) ∷ [] }

one_listener-IsValid : Ports.IsValid listening.udp_listeners
unfolding new_listener
one_listener-IsValid = ((tt, tt), ((refl, omega arith, omega arith, refl, (4, refl)), tt))

stop_lem_example :
    (s' : Tiny) × (closed : List (Option ℕ)) × (stop pool 1 listening ≡ some (none, s', closed))
    × IsStopped pool 0 listening s' closed
unfolding program
stop_lem_example =
    Stopping.stop_lem pool pool-IsAsyncWorker 0 1 listening refl one_listener-IsValid (omega arith)
      refl

Reach-IsValid_example : IsValid pool (process_events pool running)
Reach-IsValid_example =
    Reachable.Reach-IsValid pool pool-IsAsyncWorker 7 idle (process_events pool running)
      (after (after here (started 2 9 fresh)) (processed running))

-- An instance that was never started, with a listener.
abbrev never_started : Tiny
never_started = record fresh { udp_listeners = (9, new_listener 9 4) ∷ [] }
