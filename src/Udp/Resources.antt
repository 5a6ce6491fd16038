-- ===== src/Udp/Resources.antt =====
-- The client's exchanges give back what they take.
use ngx_lua_cpp.Prelude.{
  ℕ, suc, ◌-◌, ◌≡◌, Bool, true, ◌||◌, not, ltb, Option, none, some, List, [], ◌∷◌, ◌>>=◌,
  if◌then◌else◌, arith,
}
use ngx_lua_cpp.Prelude.Text.{Bytes}
use ngx_lua_cpp.Prelude.Double.{Double}
use ngx_lua_cpp.Udp.Client.{
  Call, wsa_startup, wsa_cleanup, getaddrinfo, freeaddrinfo, socket, close_socket,
  set_receive_timeout, sendto, recvfrom, Answers, udp_sendto, udp_roundtrip, udp_send, udp_echo,
}

-- What is held: lists of addresses, open sockets, and starts of Winsock.
pub record Held : Type 0 where
  pub lists : ℕ
  pub sockets : ℕ
  pub startups : ℕ

-- What a call takes or gives back. One that would give back what is not held, or use a socket when none
-- is open, has no result.
abbrev pub call_once : Answers → Call → Held → Option Held
call_once a wsa_startup h = some (if a.starts_up then record h { startups = suc h.startups } else h)
call_once a wsa_cleanup h =
    if ltb 0 h.startups then some (record h { startups = h.startups - 1 }) else none
call_once a (getaddrinfo host port) h =
    some (if a.resolves then record h { lists = suc h.lists } else h)
call_once a freeaddrinfo h = if ltb 0 h.lists then some (record h { lists = h.lists - 1 }) else none
call_once a socket h = some (if a.opens then record h { sockets = suc h.sockets } else h)
call_once a close_socket h =
    if ltb 0 h.sockets then some (record h { sockets = h.sockets - 1 }) else none
call_once a (set_receive_timeout ms) h = if ltb 0 h.sockets then some h else none
call_once a (sendto payload) h = if ltb 0 h.sockets then some h else none
call_once a recvfrom h = if ltb 0 h.sockets then some h else none

-- On Windows no call but the first works without Winsock.
abbrev pub is_ready : Answers → Call → Held → Bool
is_ready a wsa_startup h = true
is_ready a call h = not a.windows || ltb 0 h.startups

abbrev pub held : Answers → List Call → Held → Option Held
held a [] h = some h
held a (call ∷ calls) h =
    if is_ready a call h then (call_once a call h >>= λ h'. held a calls h') else none

abbrev pub nothing_held : Held
nothing_held = record { lists = 0; sockets = 0; startups = 0 }

-- However the system answers, `udp_send` uses only a socket that is open and holds nothing
-- when it returns.
pub held-udp_send :
    (a : Answers) (host : Bytes) (port : ℕ) (payload : Bytes)
    → held a (udp_send a host port payload).1 nothing_held ≡ some nothing_held
unfolding udp_send udp_sendto
held-udp_send a host port payload = ground arith

module _ {D : Type 0} (d : Double D) where
  -- On a POSIX system as on Windows, and however it answers, `udp_echo` uses only a socket that is
  -- open and, on Windows, only a Winsock that is started, and holds nothing when it returns.
  pub held-udp_echo :
      (a : Answers) (t0 now : ℕ) (host : Bytes) (port : ℕ) (payload : Bytes) (timeout_ms : ℕ)
      → held a (udp_echo d a t0 now host port payload timeout_ms).1 nothing_held ≡ some nothing_held
  unfolding udp_echo udp_roundtrip
  held-udp_echo a t0 now host port payload timeout_ms = ground arith
