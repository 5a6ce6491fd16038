-- ===== src/Udp/Thread/Ending.antt =====
-- Stopping a listener ends its thread.
use ngx_lua_cpp.Prelude.{
  ℕ, ◌+◌, ◌-◌, ◌∙◌, false, ◌≤◌, ◌≡◌, refl, true, false, none, some, List, [], ◌∷◌, ◌++◌, length,
  length-append, length-pop_front, arith,
}
use ngx_lua_cpp.Udp.Listener.{
  Listener, Received, nothing, datagram, enqueue, Datagram, receive, stop_listen, take_front,
}
use ngx_lua_cpp.Udp.Thread.{
  Place, at_test, receiving, ended, Running, run_round, stop_running, take_running, can_join,
  History, here, ran, taken, stopped,
}

-- The steps that a thread has left when the listener is stopped, and the datagrams.
abbrev steps_left : Place → ℕ
steps_left at_test = 1
steps_left receiving = 2
steps_left ended = 0

abbrev to_receive : Place → ℕ
to_receive at_test = 0
to_receive receiving = 1
to_receive ended = 0

few_steps : (place : Place) → steps_left place ≤ 2
few_steps at_test = omega arith
few_steps receiving = omega arith
few_steps ended = omega arith

few_packets : (n : ℕ) (place : Place) → n + to_receive place ≤ n + 1
few_packets n at_test = omega arith
few_packets n receiving = omega arith
few_packets n ended = omega arith

no_steps : (place : Place) → steps_left place ≤ 0 → can_join place ≡ true
no_steps at_test h = absurd (omega arith)
no_steps receiving h = absurd (omega arith)
no_steps ended h = refl

length-enqueue :
    (packet : Datagram) (queue : List Datagram) → length (enqueue packet queue) ≤ length queue + 1
unfolding enqueue
length-enqueue packet queue =
    let longer = length-append queue (packet ∷ []) in
    ground (arith, length-pop_front (queue ++ packet ∷ []))

module _ {Socket Address : Type 0} where
  -- A stopped listener stays stopped, and its socket closed; the thread's steps run out.
  abbrev Ending : ℕ → ℕ → Running Socket Address → Type 0
  Ending steps packets w =
      (w.listener.stop ≡ true)
      × (w.listener.sock ≡ none)
      × (steps_left w.place ≤ steps)
      × (length w.listener.queue + to_receive w.place ≤ packets)

  receive_lem :
      (r : Received Socket Address) (l : Listener Socket Address)
      → ((receive r l).stop ≡ l.stop)
        × ((receive r l).sock ≡ l.sock)
        × (length (receive r l).queue ≤ length l.queue + 1)
  unfolding receive
  receive_lem nothing l = (refl, refl, omega arith)
  receive_lem (datagram payload from none) l = (refl, refl, omega arith)
  receive_lem (datagram payload from (some (host, port))) l =
      (refl, refl, length-enqueue (payload, host, port) l.queue)

  run_round-Ending :
      (r : Received Socket Address) (steps packets : ℕ) (w : Running Socket Address) (place : Place)
      → w.place ≡ place
      → Ending steps packets w
      → Ending (steps - 1) packets (run_round r w)
  unfolding run_round
  run_round-Ending r steps packets w at_test e (stop, sock, left, count) =
      let quiet : length w.listener.queue ≤ packets = omega (arith, count) in
      rw e (rw stop (refl, sock, omega arith, omega arith))
  run_round-Ending r steps packets w receiving e (stop, sock, left, count) =
      let (stop', sock', count') = receive_lem r w.listener in
      let left' : 2 ≤ steps = rw e at left in
      let few : length w.listener.queue + 1 ≤ packets = rw e at count in
      rw e (stop' ∙ stop, sock' ∙ sock, omega arith, omega arith)
  run_round-Ending r steps packets w ended e (stop, sock, left, count) =
      let few : length w.listener.queue + 0 ≤ packets = rw e at count in
      rw e (stop, sock, omega arith, omega arith)

  take_front_lem :
      (l : Listener Socket Address)
      → ((take_front l).1.stop ≡ l.stop)
        × ((take_front l).1.sock ≡ l.sock)
        × (length (take_front l).1.queue ≤ length l.queue)
  unfolding take_front
  take_front_lem l = (ground arith, ground arith, ground arith)

  take_running-Ending :
      (steps packets : ℕ) (w : Running Socket Address)
      → Ending steps packets w
      → Ending steps packets (take_running w)
  unfolding take_running
  take_running-Ending steps packets w (stop, sock, left, count) =
      let (stop', sock', count') = take_front_lem w.listener in
      (stop' ∙ stop, sock' ∙ sock, left, omega arith)

  stop_running-Ending :
      (steps packets : ℕ) (w : Running Socket Address)
      → Ending steps packets w
      → Ending steps packets (stop_running w)
  unfolding stop_running stop_listen
  stop_running-Ending steps packets w (stop, sock, left, count) = rw stop (refl, sock, left, count)

  History-Ending :
      (packets : ℕ) {w w' : Running Socket Address} {n : ℕ}
      → Ending 2 packets w
      → History w n w'
      → Ending (2 - n) packets w'
  History-Ending packets h here = h
  History-Ending packets h (ran r {n} {w'} history) =
      let (stop, sock, left, count) =
        run_round-Ending r (2 - n) packets w' w'.place refl (History-Ending packets h history) in
      (stop, sock, omega arith, count)
  History-Ending packets h (taken {n} {w'} history) =
      take_running-Ending (2 - n) packets w' (History-Ending packets h history)
  History-Ending packets h (stopped {n} {w'} history) =
      stop_running-Ending (2 - n) packets w' (History-Ending packets h history)

  stops :
      (w : Running Socket Address)
      → w.listener.stop ≡ false
      → Ending 2 (length w.listener.queue + 1) (stop_running w)
  unfolding stop_running stop_listen
  stops w running =
      rw running (refl, refl, few_steps w.place, few_packets (length w.listener.queue) w.place)

  -- Once a listener is stopped, its thread has ended after two of its own steps, so that a join
  -- returns: whatever `recvfrom` gives, and whoever else takes datagrams or stops it. Its socket
  -- is closed, and one datagram at most was added to those that waited.
  pub stop_running-IsEnded :
      (w : Running Socket Address) {w' : Running Socket Address} {n : ℕ}
      → w.listener.stop ≡ false
      → History (stop_running w) n w'
      → 2 ≤ n
      → (can_join w'.place ≡ true)
        × (w'.listener.sock ≡ none)
        × (length w'.listener.queue ≤ length w.listener.queue + 1)
  stop_running-IsEnded w {w'} running history enough =
      let (stop, sock, left, count) =
        History-Ending (length w.listener.queue + 1) (stops w running) history in
      (no_steps w'.place (omega arith), sock, omega arith)
