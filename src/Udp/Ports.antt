-- ===== src/Udp/Ports.antt =====
-- The map of listeners: what `udp_listen` returns and changes, and what stopping closes.
use ngx_lua_cpp.Prelude.{
  ℕ, ◌≤◌, ◌<◌, ◌≡◌, refl, ap, sym, subst, ◌≢◌, ◌⊎◌, ◌∙◌, Bool, true, false, ◌||◌, ◌==◌, Option,
  none, some, List, [], ◌∷◌, ltb, arith, All, if◌then◌else◌, Bool-cases, Option-cases, inl, inr,
}
use ngx_lua_cpp.Prelude.Order.{nat_ord}
use ngx_lua_cpp.Prelude.Text.{Bytes, codes}
use ngx_lua_cpp.Prelude.Map.{lookup, insert, lookup-insert_self}
use ngx_lua_cpp.Prelude.Map.Sorted.{IsSorted, insert-IsSorted, All-insert}
use ngx_lua_cpp.Udp.Listener.{
  Listener, Listeners, Opened, no_startup, no_socket, no_bind, bound, datagram, receive,
  stop_listen, new_listener, udp_listen, udp_reply, stop_listeners,
}

module _ {Socket Address : Type 0} where
  -- A listener stands under its port, which is a valid one, and has an open socket.
  abbrev pub IsListening : ℕ × Listener Socket Address → Type 0
  IsListening (port, l) =
      (l.port ≡ port)
      × (0 < port)
      × (port ≤ 65535)
      × (l.stop ≡ false)
      × ((s : Socket) × (l.sock ≡ some s))

  abbrev pub IsValid : Listeners Socket Address → Type 0
  IsValid listeners = IsSorted listeners × All IsListening listeners

  -- Success, and failure that changes nothing.
  abbrev pub Listens : ℕ → Opened Socket Address → Listeners Socket Address → Type 0
  Listens port opened listeners =
      (s : Socket) × ((udp_listen port opened listeners).0 ≡ [])
      × (0 < port)
      × (port ≤ 65535)
      × (lookup port listeners ≡ none)
      × (opened ≡ bound s)
      × ((udp_listen port opened listeners).1 ≡ insert port (new_listener port s) listeners)

  abbrev pub Refuses : ℕ → Opened Socket Address → Listeners Socket Address → Type 0
  Refuses port opened listeners =
      ((udp_listen port opened listeners).0 ≢ [])
      × ((udp_listen port opened listeners).1 ≡ listeners)

  listen_free :
      (port : ℕ) (opened : Opened Socket Address) (listeners : Listeners Socket Address)
      → (port == 0 || ltb 65535 port) ≡ false
      → lookup port listeners ≡ none
      → Listens port opened listeners ⊎ Refuses port opened listeners
  unfolding udp_listen
  listen_free port no_startup listeners good free =
      inr (rw (udp_listen, good, free) (λ e. ground arith), rw (udp_listen, good, free))
  listen_free port no_socket listeners good free =
      inr (rw (udp_listen, good, free) (λ e. ground arith), rw (udp_listen, good, free))
  listen_free port (no_bind s) listeners good free =
      inr (rw (udp_listen, good, free) (λ e. ground arith), rw (udp_listen, good, free))
  listen_free port (bound s) listeners good free = inl (
    s,
    rw (udp_listen, good, free),
    ground arith,
    ground arith,
    free,
    refl,
    rw (udp_listen, good, free),
  )

  -- `udp_listen` succeeds only when the port is valid, nothing listens on it yet and the system
  -- binds a socket to it, and the map then has a fresh listener there; otherwise it reports an error
  -- and leaves the map alone.
  pub udp_listen_lem :
      (port : ℕ) (opened : Opened Socket Address) (listeners : Listeners Socket Address)
      → Listens port opened listeners ⊎ Refuses port opened listeners
  unfolding udp_listen
  udp_listen_lem port opened listeners = elim (Bool-cases (port == 0 || ltb 65535 port)) [
    | inl bad ↦ inr (rw (udp_listen, bad) (λ e. ground arith), rw (udp_listen, bad))
    | inr good ↦ elim (Option-cases (lookup port listeners)) [
      | inl free ↦ listen_free port opened listeners good free
      | inr (l, taken) ↦
          inr (rw (udp_listen, good, taken) (λ e. ground arith), rw (udp_listen, good, taken))
    ]
  ]

  -- Every listener stands under its port, which is a valid one, and has an open socket: whatever the
  -- system answers, `udp_listen` keeps it so.
  pub udp_listen-IsValid :
      (port : ℕ) (opened : Opened Socket Address) (listeners : Listeners Socket Address)
      → IsValid listeners
      → IsValid (udp_listen port opened listeners).1
  udp_listen-IsValid port opened listeners v = elim (udp_listen_lem port opened listeners) [
    | inr (err, unchanged) ↦ subst IsValid (sym unchanged) v
    | inl (s, ok, low, high, free, at, added) ↦
        let fresh : IsListening (port, new_listener port s) =
          unfold new_listener in (refl, low, high, refl, (s, refl)) in
        subst IsValid (sym added) (
          insert-IsSorted port (new_listener port s) listeners v.0,
          All-insert IsListening port (new_listener port s) listeners fresh v.1,
        )
  ]

  -- The sockets of the listeners.
  abbrev pub sockets : Listeners Socket Address → List (Option Socket)
  sockets [] = []
  sockets ((port, l) ∷ listeners) = l.sock ∷ sockets listeners

  stop_listen_stopped : (l : Listener Socket Address) → l.stop ≡ true → stop_listen l ≡ (l, none)
  unfolding stop_listen
  stop_listen_stopped l h = rw (stop_listen, h)

  pub stop_listen_open :
      (l : Listener Socket Address)
      → l.stop ≡ false
      → stop_listen l ≡ (record l { stop = true; sock = none }, l.sock)
  unfolding stop_listen
  stop_listen_open l h = rw (stop_listen, h)

  -- A stopped listener stays stopped: a second stop closes nothing and changes nothing.
  pub stop_listen_twice :
      (l : Listener Socket Address)
      → ((stop_listen l).0.stop ≡ true)
        × (stop_listen (stop_listen l).0 ≡ ((stop_listen l).0, none))
  stop_listen_twice l = elim (Bool-cases l.stop) [
    | inl stopped ↦
        let e = stop_listen_stopped l stopped in
        (
          ap (λ r. r.0.stop) e ∙ stopped,
          ap (λ r. stop_listen r.0) e ∙ e ∙ sym (ap (λ r. (r.0, none)) e),
        )
    | inr running ↦
        let e = stop_listen_open l running in
        (
          ap (λ r. r.0.stop) e,
          ap (λ r. stop_listen r.0) e
              ∙ stop_listen_stopped (record l { stop = true; sock = none }) refl
              ∙ sym (ap (λ r. (r.0, none)) e),
        )
  ]

  -- `stop_impl` closes the socket of every listener.
  pub stop_listeners_lem :
      (listeners : Listeners Socket Address)
      → IsValid listeners
      → stop_listeners listeners ≡ sockets listeners
  unfolding stop_listeners stop_listen
  stop_listeners_lem [] v = refl
  stop_listeners_lem ((port, l) ∷ listeners) v =
      rw (stop_listen, v.1.0.3) (ap (◌∷◌ l.sock) (stop_listeners_lem listeners (v.0.1, v.1.1)))

  -- After a datagram whose sender has a name, a reply goes from the port's own socket to that
  -- sender, and succeeds when the system takes it.
  pub udp_reply-receive :
      (send : Socket → Address → Bytes → Bool) (port : ℕ) (reply payload host : Bytes)
      (from : Address) (from_port : ℕ) (s : Socket) (l : Listener Socket Address)
      (listeners : Listeners Socket Address)
      → l.sock ≡ some s
      → let l' = receive (datagram payload from (some (host, from_port))) l in
        udp_reply send port reply (insert port l' listeners)
        ≡ (if send s from reply then (true, []) else (false, codes "sendto failed"))
  unfolding udp_reply receive
  udp_reply-receive send port reply payload host from from_port s l listeners h =
      let l' = receive (datagram payload from (some (host, from_port))) l in
      rw (udp_reply, lookup-insert_self port l' listeners, h)
