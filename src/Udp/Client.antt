-- ===== src/Udp/Client.antt =====
-- The client's side: `udp_sendto_impl` behind `udp_send`, and `udp_roundtrip_impl` behind `udp_echo`.
-- The calls of the system are written as a trace, with what each returned.
use ngx_lua_cpp.Prelude.{
  clamp, ℕ, ◌-◌, ◌==◌, ◌||◌, ◌&&◌, not, Bool, true, false, Option, none, some, List, [], ◌∷◌, ◌++◌,
  length, ltb, if◌then◌else◌,
}
use ngx_lua_cpp.Prelude.Text.{Bytes, codes, decimal}
use ngx_lua_cpp.Prelude.Double.{Double}
use ngx_lua_cpp.Jobs.{millis}

-- The calls that acquire or release something, and those on a socket.
pub data Call : Type 0 where
  wsa_startup : Call
  wsa_cleanup : Call
  getaddrinfo : Bytes → Bytes → Call
  freeaddrinfo : Call
  socket : Call
  close_socket : Call
  set_receive_timeout : ℕ → Call
  sendto : Bytes → Call
  recvfrom : Call

-- The system, and how it answers in one exchange: `starts_up` is for WSAStartup, on Windows.
pub record Answers : Type 0 where
  pub windows : Bool
  pub starts_up : Bool
  pub resolves : Bool
  pub opens : Bool
  pub sends : Bool
  pub receives : Option Bytes

-- `host.empty() || port == 0 || port > 65535`
abbrev pub invalid : Bytes → ℕ → Bool
invalid host port = length host == 0 || (port == 0 || ltb 65535 port)

-- What the Windows branches add: the start of Winsock, and its release on each way out.
abbrev pub startup : Answers → List Call
startup a = if a.windows then wsa_startup ∷ [] else []

abbrev pub cleanup : Answers → List Call
cleanup a = if a.windows then wsa_cleanup ∷ [] else []

abbrev pub no_winsock : Answers → Bool
no_winsock a = a.windows && not a.starts_up

-- The result is (ok, err), with the calls that were made.
unfoldable pub udp_sendto : Answers → Bytes → ℕ → Bytes → (Bool × Bytes) × List Call
udp_sendto a host port payload =
    let lookup_call = getaddrinfo host (decimal port) in
    if invalid host port
    then ((false, codes "invalid host or port"), [])
    else if no_winsock a
    then ((false, codes "WSAStartup failed"), startup a)
    else if a.resolves
    then (if a.opens
        then (
          (if a.sends then (true, codes "") else (false, codes "sendto failed")),
          startup a
              ++ lookup_call ∷ socket ∷ sendto payload ∷ close_socket ∷ freeaddrinfo ∷ cleanup a,
        )
        else (
          (false, codes "socket() failed"),
          startup a ++ lookup_call ∷ socket ∷ freeaddrinfo ∷ cleanup a,
        ))
    else ((false, codes "getaddrinfo failed: " ++ host), startup a ++ lookup_call ∷ cleanup a)

-- The method: what the worker thread found is what the caller gets.
unfoldable pub udp_send : Answers → Bytes → ℕ → Bytes → (Bool × Bytes) × List Call
udp_send a host port payload = udp_sendto a host port payload

module _ {D : Type 0} (d : Double D) where
  -- `udp_result_t`: (ok, reply, elapsed_ms, err)
  abbrev pub EchoResult : Type 0
  EchoResult = Bool × Bytes × D × Bytes

  abbrev pub failed_echo : Bytes → EchoResult
  failed_echo err = (false, [], d.of_nat 0, err)

  -- The clock's readings are `t0` and `now`.
  unfoldable pub udp_roundtrip : Answers → ℕ → ℕ → Bytes → ℕ → Bytes → ℕ → EchoResult × List Call
  udp_roundtrip a t0 now host port payload timeout_ms =
      let lookup_call = getaddrinfo host (decimal port) in
      let timeout = set_receive_timeout (clamp timeout_ms 50 30000) in
      let elapsed = millis d (now - t0) in
      let received : EchoResult = elim a.receives [
        | none ↦ (false, [], elapsed, codes "recvfrom failed or timed out")
        | some reply ↦ (true, reply, elapsed, [])
      ] in
      if invalid host port
      then (failed_echo (codes "invalid host or port"), [])
      else if no_winsock a
      then (failed_echo (codes "WSAStartup failed"), startup a)
      else if a.resolves
      then (if a.opens
          then (if a.sends
              then (
                received,
                startup a
                    ++ lookup_call
                      ∷ socket
                      ∷ timeout
                      ∷ sendto payload
                      ∷ recvfrom
                      ∷ close_socket
                      ∷ freeaddrinfo
                      ∷ cleanup a,
              )
              else (
                failed_echo (codes "sendto failed"),
                startup a
                    ++ lookup_call
                      ∷ socket
                      ∷ timeout
                      ∷ sendto payload
                      ∷ close_socket
                      ∷ freeaddrinfo
                      ∷ cleanup a,
              ))
          else (
            failed_echo (codes "socket() failed"),
            startup a ++ lookup_call ∷ socket ∷ freeaddrinfo ∷ cleanup a,
          ))
      else (
        failed_echo (codes "getaddrinfo failed: " ++ host),
        startup a ++ lookup_call ∷ cleanup a,
      )

  unfoldable pub udp_echo : Answers → ℕ → ℕ → Bytes → ℕ → Bytes → ℕ → EchoResult × List Call
  udp_echo a t0 now host port payload timeout_ms =
      udp_roundtrip a t0 now host port payload timeout_ms
