-- ===== src/Udp/Thread.antt =====
-- The thread of a listener: the loop of `run`, with what other threads do to the listener between any
-- two accesses, and `stop_listen`, which joins the thread.
pub mod Ending
use ngx_lua_cpp.Prelude.{ℕ, zero, suc, ◌≡◌, Bool, true, false, Option, none, some, if◌then◌else◌}
use ngx_lua_cpp.Udp.Listener.{
  Listener, Received, nothing, datagram, receive, stop_listen, take_front,
}

-- In front of the test of `stop`, in `recvfrom`, or out of the loop.
pub data Place : Type 0 where
  at_test : Place
  receiving : Place
  ended : Place

abbrev pub can_join : Place → Bool
can_join at_test = false
can_join receiving = false
can_join ended = true

module _ (Socket Address : Type 0) where
  pub record Running : Type 0 where
    pub listener : Listener Socket Address
    pub place : Place

module _ {Socket Address : Type 0} where
  -- A step of the thread. A datagram may still come from a `recvfrom` that began before the socket
  -- was closed.
  abbrev pub advance :
      Place → Received Socket Address → Running Socket Address → Running Socket Address
  advance at_test r w = record w { place = if w.listener.stop then ended else receiving }
  advance receiving r w = record { listener = receive r w.listener; place = at_test }
  advance ended r w = w

  unfoldable pub run_round :
      Received Socket Address → Running Socket Address → Running Socket Address
  run_round r w = advance w.place r w

  -- `stop_listen` up to the join, which returns when the thread has ended (`can_join`).
  unfoldable pub stop_running : Running Socket Address → Running Socket Address
  stop_running w = record w { listener = (stop_listen w.listener).0 }

  unfoldable pub take_running : Running Socket Address → Running Socket Address
  take_running w = record w { listener = (take_front w.listener).1 }

  -- What happens to a listener from one state to another; the number counts the thread's own steps.
  pub data History (w : Running Socket Address) : ℕ → Running Socket Address → Type 0 where
    here : History w zero w
    ran :
        (r : Received Socket Address) {n : ℕ} {w' : Running Socket Address}
        → History w n w'
        → History w (suc n) (run_round r w')
    taken : {n : ℕ} {w' : Running Socket Address} → History w n w' → History w n (take_running w')
    stopped : {n : ℕ} {w' : Running Socket Address} → History w n w' → History w n (stop_running w')
