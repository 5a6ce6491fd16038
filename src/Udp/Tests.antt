-- ===== src/Udp/Tests.antt =====
-- The theorems about UDP at concrete inputs; sockets and addresses are numbers.
use ngx_lua_cpp.Prelude.{
  ℕ, ◌+◌, ◌≤◌, arith, ◌≡◌, refl, true, false, none, some, List, [], ◌∷◌, length,
}
use ngx_lua_cpp.Prelude.Order.{nat_ord}
use ngx_lua_cpp.Prelude.Text.{codes}
use ngx_lua_cpp.Prelude.Double.{whole_double}
use ngx_lua_cpp.Udp.Listener.{
  Listener, Received, nothing, datagram, receive, enqueue, take_front, stop_listen, udp_recv_wait,
  wait_for, arrival,
}
use ngx_lua_cpp.Udp.Client.{Answers, udp_echo}
use ngx_lua_cpp.Udp.Delivery
use ngx_lua_cpp.Udp.Delivery.{
  newest, named, delivered, receive_all, take_many, first_arrival, outcome,
}
use ngx_lua_cpp.Udp.Resources
use ngx_lua_cpp.Udp.Resources.{held, nothing_held}
use ngx_lua_cpp.Udp.Thread.{receiving, Running, can_join, stop_running, run_round, here, ran}
use ngx_lua_cpp.Udp.Thread.Ending

abbrev fresh : Listener ℕ ℕ
fresh = record { port = 9; sock = some 4; stop = false; queue = []; sender = none }

abbrev incoming : List (Received ℕ ℕ)
incoming =
    datagram (codes "a") 1 (some (codes "h", 5))
    ∷ nothing
    ∷ datagram (codes "x") 2 none
    ∷ datagram (codes "b") 3 (some (codes "h", 6))
    ∷ []

waits :
    (udp_recv_wait
      (arrival nothing ∷ arrival (datagram (codes "a") 1 (some (codes "h", 5))) ∷ [])
      fresh).0
    ≡ (true, codes "a", codes "h", 5, [])
unfolding udp_recv_wait wait_for receive enqueue take_front stop_listen
waits = refl

receive_all-take_many_example :
    let q = newest (named incoming) in
    let r = take_many (length q) (receive_all incoming fresh) in
    (r.0 ≡ delivered q) × ((take_front r.1).0 ≡ (false, [], [], 0, codes "timeout"))
receive_all-take_many_example = Delivery.receive_all-take_many incoming fresh refl

abbrev answers : Answers
answers = record {
  windows = true;
  starts_up = true;
  resolves = true;
  opens = true;
  sends = false;
  receives = none;
}

held-udp_echo_example :
    held answers (udp_echo whole_double answers 1 2 (codes "h") 9 (codes "a") 70).1 nothing_held
    ≡ some nothing_held
held-udp_echo_example =
    Resources.held-udp_echo whole_double answers 1 2 (codes "h") 9 (codes "a") 70

-- The thread waits in `recvfrom` when the listener is stopped.
abbrev busy : Running ℕ ℕ
busy = record { listener = fresh; place = receiving }

abbrev last_datagram : Received ℕ ℕ
last_datagram = datagram (codes "a") 1 (some (codes "h", 5))

abbrev after_stop : Running ℕ ℕ
after_stop = run_round nothing (run_round last_datagram (stop_running busy))

stop_running-IsEnded_example :
    (can_join after_stop.place ≡ true)
    × (after_stop.listener.sock ≡ none)
    × (length after_stop.listener.queue ≤ length busy.listener.queue + 1)
stop_running-IsEnded_example =
    Ending.stop_running-IsEnded busy refl (ran nothing (ran last_datagram here)) (omega arith)

one_more : length after_stop.listener.queue ≡ 1
unfolding run_round stop_running stop_listen receive enqueue
one_more = refl
