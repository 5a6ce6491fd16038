-- ===== src/Udp/Delivery.antt =====
-- What is taken from a listener's queue is what came in.
use ngx_lua_cpp.Prelude.{
  ℕ, zero, suc, ◌-◌, ◌≤◌, ◌≡◌, refl, ap, sym, ◌∙◌, true, false, Option, none, some, List, [], ◌∷◌,
  ◌++◌, append_assoc, append-nil, length, length-append, drop, pop_front, ltb, arith, Bool-cases,
  inl, inr,
}
use ngx_lua_cpp.Prelude.Text.{codes}
use ngx_lua_cpp.Udp.Ports.{stop_listen_open}
use ngx_lua_cpp.Udp.Listener.{
  Datagram, PacketResult, enqueue, Listener, Received, nothing, datagram, receive, take_front, Wake,
  arrival, shutdown, wait_for, udp_recv_wait, stop_listen,
}

-- Datagrams as `udp_recv` returns them.
abbrev pub delivered : List Datagram → List PacketResult
delivered [] = []
delivered ((payload, host, port) ∷ q) = (true, payload, host, port, []) ∷ delivered q

-- What a wait gives: a datagram, or a timeout.
abbrev pub outcome : Option Datagram → PacketResult
outcome none = (false, [], [], 0, codes "timeout")
outcome (some (payload, host, port)) = (true, payload, host, port, [])

-- The last 4096 datagrams.
abbrev pub newest : List Datagram → List Datagram
newest xs = drop (length xs - 4096) xs

newest_all : (xs : List Datagram) → length xs ≤ 4096 → newest xs ≡ xs
newest_all xs h = let zero' : length xs - 4096 ≡ 0 = omega arith in rw zero'

drop-snoc :
    (n : ℕ) (xs : List Datagram) (x : Datagram)
    → n ≤ length xs
    → drop n (xs ++ x ∷ []) ≡ drop n xs ++ x ∷ []
drop-snoc zero xs x h = refl
drop-snoc (suc n) [] x h = absurd (omega arith)
drop-snoc (suc n) (y ∷ xs) x h = drop-snoc n xs x (omega arith)

pop_front-drop : (n : ℕ) (xs : List Datagram) → pop_front (drop n xs) ≡ drop (suc n) xs
pop_front-drop zero [] = refl
pop_front-drop (suc n) [] = refl
pop_front-drop zero (x ∷ xs) = refl
pop_front-drop (suc n) (x ∷ xs) = pop_front-drop n xs

length-drop : (n : ℕ) (xs : List Datagram) → length (drop n xs) ≡ length xs - n
length-drop zero xs = omega arith
length-drop (suc n) [] = omega arith
length-drop (suc n) (x ∷ xs) = omega (arith, length-drop n xs)

-- One more datagram, and the queue still holds the newest ones.
enqueue-newest : (xs : List Datagram) (x : Datagram) → enqueue x (newest xs) ≡ newest (xs ++ x ∷ [])
unfolding enqueue
enqueue-newest xs x =
    let n = length xs - 4096 in
    let size : length (drop n xs ++ x ∷ []) ≡ suc (length xs - n) =
      omega (arith, length-append (drop n xs) (x ∷ []), length-drop n xs) in
    let size' : length (xs ++ x ∷ []) ≡ suc (length xs) =
      omega (arith, length-append xs (x ∷ [])) in
    elim (Bool-cases (ltb 4095 (length xs))) [
      | inl full ↦
          let over : ltb 4096 (suc (length xs - n)) ≡ true = ground arith in
          let next : suc (length xs) - 4096 ≡ suc n = ground arith in
          rw (enqueue, size, over, size', next)
            (ap pop_front (sym (drop-snoc n xs x (omega arith))) ∙ pop_front-drop n (xs ++ x ∷ []))
      | inr room ↦
          let under : ltb 4096 (suc (length xs - n)) ≡ false = ground arith in
          let next : suc (length xs) - 4096 ≡ n = ground arith in
          rw (enqueue, size, under, size', next) (sym (drop-snoc n xs x (omega arith)))
    ]

module _ {Socket Address : Type 0} where
  -- The datagrams among what `recvfrom` returned whose sender has a name.
  abbrev pub named : List (Received Socket Address) → List Datagram
  named [] = []
  named (datagram payload from (some (host, port)) ∷ rs) = (payload, host, port) ∷ named rs
  named (_ ∷ rs) = named rs

  -- The receiving thread's loop.
  abbrev pub receive_all :
      List (Received Socket Address) → Listener Socket Address → Listener Socket Address
  receive_all [] l = l
  receive_all (r ∷ rs) l = receive_all rs (receive r l)

  -- `n` calls of `udp_recv` that do not wait.
  abbrev pub take_many : ℕ → Listener Socket Address → List PacketResult × Listener Socket Address
  take_many zero l = ([], l)
  take_many (suc n) l = let r = take_front l in let rest = take_many n r.1 in (r.0 ∷ rest.0, rest.1)

  -- Whatever comes in, the queue holds the newest datagrams of those before it and those that came.
  receive_all-queue :
      (rs : List (Received Socket Address)) (xs : List Datagram) (l : Listener Socket Address)
      → l.queue ≡ newest xs
      → (receive_all rs l).queue ≡ newest (xs ++ named rs)
  unfolding receive
  receive_all-queue [] xs l h = rw (append-nil xs) h
  receive_all-queue (nothing ∷ rs) xs l h = receive_all-queue rs xs l h
  receive_all-queue (datagram payload from none ∷ rs) xs l h = receive_all-queue rs xs l h
  receive_all-queue (datagram payload from (some (host, port)) ∷ rs) xs l h =
      let packet : Datagram = (payload, host, port) in
      receive_all-queue rs (xs ++ packet ∷ [])
        (receive (datagram payload from (some (host, port))) l)
        (ap (enqueue packet) h ∙ enqueue-newest xs packet)
      ∙ ap newest (append_assoc xs (packet ∷ []) (named rs))

  take_many-queue :
      (q : List Datagram) (l : Listener Socket Address)
      → l.queue ≡ q
      → ((take_many (length q) l).0 ≡ delivered q) × ((take_many (length q) l).1.queue ≡ [])
  unfolding take_front
  take_many-queue [] l h = (refl, h)
  take_many-queue ((payload, host, port) ∷ q) l h =
      let first : take_front l ≡ ((true, payload, host, port, []), record l { queue = q }) =
        rw (take_front, h) in
      let rest = take_many-queue q (record l { queue = q }) refl in
      (rw (take_many, first, rest.0), rw (take_many, first) rest.1)

  take_front_empty :
      (l : Listener Socket Address)
      → l.queue ≡ []
      → (take_front l).0 ≡ (false, [], [], 0, codes "timeout")
  unfolding take_front
  take_front_empty l h = rw (take_front, h)

  -- Calls of `udp_recv` on a fresh listener give the datagrams that came in and whose sender
  -- `getnameinfo` could name (the others are dropped), each once and in order, the last 4096 of them
  -- when there were more; the call after those reports a timeout.
  pub receive_all-take_many :
      (rs : List (Received Socket Address)) (l : Listener Socket Address)
      → l.queue ≡ []
      → let q = newest (named rs) in
        let r = take_many (length q) (receive_all rs l) in
        (r.0 ≡ delivered q) × ((take_front r.1).0 ≡ (false, [], [], 0, codes "timeout"))
  receive_all-take_many rs l h =
      let q = newest (named rs) in
      let taken = take_many-queue q (receive_all rs l) (receive_all-queue rs [] l h) in
      (taken.0, take_front_empty (take_many (length q) (receive_all rs l)).1 taken.1)

  -- The first datagram whose sender has a name, if it comes before the listener is stopped.
  abbrev pub first_arrival : List (Wake Socket Address) → Option Datagram
  first_arrival [] = none
  first_arrival (shutdown ∷ wakes) = none
  first_arrival (arrival nothing ∷ wakes) = first_arrival wakes
  first_arrival (arrival (datagram payload from none) ∷ wakes) = first_arrival wakes
  first_arrival (arrival (datagram payload from (some (host, port))) ∷ wakes) =
      some (payload, host, port)

  ready_wait :
      (wakes : List (Wake Socket Address)) (l : Listener Socket Address) (packet : Datagram)
      → l.queue ≡ packet ∷ []
      → wait_for wakes l ≡ l
  unfolding wait_for
  ready_wait [] l packet h = refl
  ready_wait (wake ∷ wakes) l packet h = ground arith

  stopped_wait :
      (wakes : List (Wake Socket Address)) (l : Listener Socket Address)
      → l.queue ≡ []
      → l.stop ≡ true
      → wait_for wakes l ≡ l
  unfolding wait_for
  stopped_wait [] l empty h = refl
  stopped_wait (wake ∷ wakes) l empty h = ground arith

  abbrev pub after : Wake Socket Address → Listener Socket Address → Listener Socket Address
  after (arrival r) l = receive r l
  after shutdown l = (stop_listen l).0

  next_wait :
      (wake : Wake Socket Address) (wakes : List (Wake Socket Address))
      (l : Listener Socket Address)
      → l.queue ≡ []
      → l.stop ≡ false
      → wait_for (wake ∷ wakes) l ≡ wait_for wakes (after wake l)
  unfolding wait_for
  next_wait (arrival r) wakes l empty h = ground arith
  next_wait shutdown wakes l empty h = ground arith

  -- A call of `udp_recv` that waits on an empty queue gives the first datagram that comes in with
  -- the name of its sender, before the listener is stopped, and otherwise reports a timeout.
  pub udp_recv_wait_lem :
      (wakes : List (Wake Socket Address)) (l : Listener Socket Address)
      → l.queue ≡ []
      → l.stop ≡ false
      → (udp_recv_wait wakes l).0 ≡ outcome (first_arrival wakes)
  unfolding udp_recv_wait wait_for receive enqueue take_front
  udp_recv_wait_lem [] l empty h = take_front_empty l empty
  udp_recv_wait_lem (arrival nothing ∷ wakes) l empty h =
      ap (λ l'. (take_front l').0) (next_wait (arrival nothing) wakes l empty h)
      ∙ udp_recv_wait_lem wakes l empty h
  udp_recv_wait_lem (arrival (datagram payload from none) ∷ wakes) l empty h =
      ap (λ l'. (take_front l').0)
        (next_wait (arrival (datagram payload from none)) wakes l empty h)
      ∙ udp_recv_wait_lem wakes l empty h
  udp_recv_wait_lem (arrival (datagram payload from (some (host, port))) ∷ wakes) l empty h =
      let wake : Wake Socket Address = arrival (datagram payload from (some (host, port))) in
      let got : (after wake l).queue ≡ (payload, host, port) ∷ [] =
        ap (enqueue (payload, host, port)) empty in
      ap (λ l'. (take_front l').0)
        (next_wait wake wakes l empty h ∙ ready_wait wakes (after wake l) (payload, host, port) got)
      ∙ rw (take_front, got)
  udp_recv_wait_lem (shutdown ∷ wakes) l empty h =
      let stopped = stop_listen_open l h in
      let l' : Listener Socket Address = record l { stop = true; sock = none } in
      ap (λ l'. (take_front l').0)
        (next_wait shutdown wakes l empty h
          ∙ ap (λ r. wait_for wakes r.0) stopped
          ∙ stopped_wait wakes l' empty refl)
      ∙ take_front_empty l' empty
