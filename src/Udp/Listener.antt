-- ===== src/Udp/Listener.antt =====
-- A listener: `udp_listener_t`, and what `udp_listen`, `udp_recv`, `udp_reply` and `stop_impl` do
-- with the map of them.
use ngx_lua_cpp.Prelude.{
  ℕ, ◌==◌, ◌||◌, Bool, true, false, Option, none, some, List, [], ◌∷◌, ◌++◌, length, ltb, pop_front,
  if◌then◌else◌,
}
use ngx_lua_cpp.Prelude.Order.{nat_ord}
use ngx_lua_cpp.Prelude.Text.{Bytes, codes, decimal}
use ngx_lua_cpp.Prelude.Map.{Map, lookup, insert}

-- (payload, from_host, from_port)
abbrev pub Datagram : Type 0
Datagram = Bytes × Bytes × ℕ

-- `udp_packet_result_t`: (ok, payload, from_host, from_port, err)
abbrev pub PacketResult : Type 0
PacketResult = Bool × Bytes × Bytes × ℕ × Bytes

-- `emplace_back`, and the oldest datagram goes where there are more than 4096.
unfoldable pub enqueue : Datagram → List Datagram → List Datagram
enqueue packet queue =
    let queue' = queue ++ packet ∷ [] in
    if ltb 4096 (length queue') then pop_front queue' else queue'

-- A socket is the system's descriptor, a sender the system's address of it.
module _ (Socket Address : Type 0) where
  pub record Listener : Type 0 where
    pub port : ℕ
    pub sock : Option Socket
    pub stop : Bool
    pub queue : List Datagram
    pub sender : Option Address

  -- `udp_listeners`
  abbrev pub Listeners : Type 0
  Listeners = Map ℕ Listener

  -- What the system did with `WSAStartup`, on Windows, `socket` and `bind`.
  pub data Opened : Type 0 where
    no_startup : Opened
    no_socket : Opened
    no_bind : Socket → Opened
    bound : Socket → Opened

  -- What `recvfrom` returned to the receiving thread; `none` for the host and the port is a failure
  -- of `getnameinfo`.
  pub data Received : Type 0 where
    nothing : Received
    datagram : Bytes → Address → Option (Bytes × ℕ) → Received

  -- What can happen to a listener that is waited for.
  pub data Wake : Type 0 where
    arrival : Received → Wake
    shutdown : Wake

module _ {Socket Address : Type 0} where
  -- One round of the loop of `run`.
  unfoldable pub receive :
      Received Socket Address → Listener Socket Address → Listener Socket Address
  receive nothing l = l
  receive (datagram payload from none) l = l
  receive (datagram payload from (some (host, port))) l = record l {
    queue = enqueue (payload, host, port) l.queue;
    sender = some from;
  }

  -- `stop_listen`: the listener, and the socket that it closes.
  unfoldable pub stop_listen : Listener Socket Address → Listener Socket Address × Option Socket
  stop_listen l = if l.stop then (l, none) else (record l { stop = true; sock = none }, l.sock)

  unfoldable pub new_listener : ℕ → Socket → Listener Socket Address
  new_listener port sock = record {
    port = port;
    sock = some sock;
    stop = false;
    queue = [];
    sender = none;
  }

  -- The result is a text, empty for success, with the map and the socket that was closed.
  unfoldable pub udp_listen :
      ℕ
      → Opened Socket Address
      → Listeners Socket Address
      → Bytes × Listeners Socket Address × Option Socket
  udp_listen port opened listeners =
      let result : Bytes × Listeners Socket Address × Option Socket = elim opened [
        | no_startup ↦ (codes "WSAStartup failed", listeners, none)
        | no_socket ↦ (codes "socket() failed", listeners, none)
        | no_bind sock ↦ (
          codes "bind() failed on port " ++ decimal port ++ codes " (already in use?)",
          listeners,
          some sock,
        )
        | bound sock ↦ (codes "", insert port (new_listener port sock) listeners, none)
      ] in
      if port == 0 || ltb 65535 port
      then (codes "invalid port", listeners, none)
      else elim (lookup port listeners) [
        | none ↦ result
        | some l ↦ (codes "already listening on port " ++ decimal port, listeners, none)
      ]

  -- What both paths of `udp_recv` do with the queue under the listener's mutex.
  unfoldable pub take_front : Listener Socket Address → PacketResult × Listener Socket Address
  take_front l = elim l.queue [
    | [] ↦ ((false, [], [], 0, codes "timeout"), l)
    | (payload, host, port) ∷ queue ↦ ((true, payload, host, port, []), record l { queue = queue })
  ]

  -- The path of `udp_recv` with `timeout_ms == 0`, and the slow one when nothing came while it
  -- waited: the lookup and the queue are found in one state.
  unfoldable pub udp_recv : ℕ → Listeners Socket Address → PacketResult × Listeners Socket Address
  udp_recv port listeners = elim (lookup port listeners) [
    | none ↦ ((false, [], [], 0, codes "not listening on port " ++ decimal port), listeners)
    | some l ↦ let r = take_front l in (r.0, insert port r.1 listeners)
  ]

  -- The slow path waits on the listener that it found, until there is a datagram, the listener is
  -- stopped, or the timeout is over: the list is what happens to the listener until then.
  unfoldable pub wait_for :
      List (Wake Socket Address) → Listener Socket Address → Listener Socket Address
  wait_for [] l = l
  wait_for (wake ∷ rest) l =
      let next : Listener Socket Address = elim wake [
        | arrival r ↦ receive r l
        | shutdown ↦ (stop_listen l).0
      ] in
      let later = wait_for rest next in
      elim l.queue [ [] ↦ if l.stop then l else later | packet ∷ queue ↦ l ]

  unfoldable pub udp_recv_wait :
      List (Wake Socket Address) → Listener Socket Address → PacketResult × Listener Socket Address
  udp_recv_wait wakes l = take_front (wait_for wakes l)

  -- `send` tells whether `sendto` from that socket to that address returned 0 or more.
  unfoldable pub udp_reply :
      (Socket → Address → Bytes → Bool) → ℕ → Bytes → Listeners Socket Address → Bool × Bytes
  udp_reply send port payload listeners = elim (lookup port listeners) [
    | none ↦ (false, codes "not listening on port " ++ decimal port)
    | some l ↦ elim l.sender [
      | none ↦ (false, codes "no sender recorded for this port yet")
      | some to ↦ elim l.sock [
        | none ↦ (false, codes "sendto failed")
        | some sock ↦
            if send sock to payload then (true, codes "") else (false, codes "sendto failed")
      ]
    ]
  ]

  -- The part of `stop_impl` about listeners: all are stopped, with the sockets that are closed, and
  -- the map is empty after it.
  unfoldable pub stop_listeners : Listeners Socket Address → List (Option Socket)
  stop_listeners [] = []
  stop_listeners ((port, l) ∷ listeners) = (stop_listen l).1 ∷ stop_listeners listeners
