-- ===== src/Lifecycle.antt =====
-- The life of an instance: its worker pool, the warp of the main thread, starting and stopping, in
-- src/ngx_lua_cpp.cpp. The pool is the library's; its operations are parameters.
pub mod Pool
pub mod Stopping
pub mod Reachable
pub mod Destruction
pub mod Tasks
mod Tests
use ngx_lua_cpp.Prelude.{
  ℕ, zero, suc, ◌+◌, ◌*◌, Bool, true, false, not, ◌||◌, Option, none, some, List, [], ◌∷◌, has, ltb,
  leb, ◌==◌, if◌then◌else◌,
}
use ngx_lua_cpp.Prelude.Text.{Bytes, codes}
use ngx_lua_cpp.Udp.Listener.{Listeners, stop_listeners}

-- `iris_async_worker_t`, and the polling of the main thread's warp, with or
-- without (`poll<false>`) the worker's own tasks. The index of a thread is `none` for the
-- value ~0.
pub record AsyncWorker (W : Type 0) : Type 0 where
  pub get_current_thread_index : W → Option ℕ
  pub get_thread_count : W → ℕ
  pub is_terminated : W → Bool
  pub resize : ℕ → W → W
  pub append : W → W × ℕ
  pub start : W → W
  pub terminate : W → W
  pub join : W → W
  pub make_current : Option ℕ → W → W
  pub poll : W → W
  pub poll_warp : W → W × Bool
  pub poll_warp_only : W → W

-- A worker is shared: it is known by its address. `main_warp` is the address of the worker that the
-- warp was made for.
pub record Instance (W Socket Address : Type 0) : Type 0 where
  pub async_worker : ℕ
  pub main_warp : ℕ
  pub main_thread_index : Option ℕ
  pub udp_listeners : Listeners Socket Address
  pub workers : ℕ → W

-- `ngx_warp_t::is_strand`
abbrev pub is_strand : Bool
is_strand = false

module _ {W : Type 0} (a : AsyncWorker W) where
  -- The loop that polls the warp until nothing is left, on fuel; `none` when it is not enough.
  unfoldable pub poll_out : ℕ → W → Option W
  poll_out zero w = none
  poll_out (suc fuel) w =
      let (w', more) = a.poll_warp w in
      let rest = poll_out fuel w' in if more then rest else some w'

abbrev pub wrong_thread : Bytes
wrong_thread =
    codes
      "ngx_lua_cpp_t::start(thread_count) -> incorrect current thread, please call me in main thread."

abbrev pub already_started : Bytes
already_started = codes "ngx_lua_cpp_t::start(thread_count) -> already started."

abbrev pub not_started : Bytes
not_started = codes "ngx_lua_cpp_t::stop() -> not started."

module _ {W Socket Address : Type 0} (a : AsyncWorker W) where
  abbrev pub worker : Instance W Socket Address → W
  worker s = s.workers s.async_worker

  -- The worker after a call of one of its operations.
  abbrev pub set_worker : W → Instance W Socket Address → Instance W Socket Address
  set_worker w s = record s { workers = λ p. if p == s.async_worker then w else s.workers p }

  abbrev pub is_running : Instance W Socket Address → Bool
  is_running s = not (a.is_terminated (worker s))

  unfoldable pub reset_main_warp : Instance W Socket Address → Instance W Socket Address
  reset_main_warp s = record s { main_warp = s.async_worker }

  -- The constructor, with a worker that was just made.
  unfoldable pub construct : ℕ → (ℕ → W) → Instance W Socket Address
  construct address workers = reset_main_warp (record {
    async_worker = address;
    main_warp = 0;
    main_thread_index = none;
    udp_listeners = [];
    workers = workers;
  })

  -- The first part is the error, if there is one.
  unfoldable pub start :
      ℕ → ℕ → Instance W Socket Address → Option Bytes × Instance W Socket Address
  start hardware_concurrency thread_count s =
      let count =
        if ltb (hardware_concurrency * 4) thread_count
        then hardware_concurrency * 4
        else thread_count in
      let (w, index) = a.append (a.resize count (worker s)) in
      let started = record (set_worker (a.start w) s) { main_thread_index = some index } in
      if has (a.get_current_thread_index (worker s))
      then (some wrong_thread, s)
      else if is_running s
      then (some already_started, s)
      else (none, if not is_strand then reset_main_warp started else started)

  -- With the sockets that are closed.
  unfoldable pub stop_impl :
      ℕ → Instance W Socket Address → Option (Instance W Socket Address × List (Option Socket))
  stop_impl fuel s = elim (poll_out a fuel (a.join (a.terminate (worker s)))) [
    | none ↦ none
    | some w ↦ some (
      reset_main_warp (record (set_worker w s) { udp_listeners = []; main_thread_index = none }),
      stop_listeners s.udp_listeners,
    )
  ]

  -- The error, if there is one, and the sockets that are closed.
  unfoldable pub stop :
      ℕ
      → Instance W Socket Address
      → Option (Option Bytes × Instance W Socket Address × List (Option Socket))
  stop fuel s =
      if not (is_running s)
      then some (some not_started, s, [])
      else elim (stop_impl fuel s) [ none ↦ none | some (s', closed) ↦ some (none, s', closed) ]

  -- The destructor, up to the removal from the hook's list: with the sockets that are closed.
  unfoldable pub destruct :
      ℕ → Instance W Socket Address → Option (Instance W Socket Address × List (Option Socket))
  destruct fuel s = if is_running s then stop_impl fuel s else some (s, [])

  unfoldable pub set_async_worker : ℕ → Instance W Socket Address → Bool × Instance W Socket Address
  set_async_worker address s =
      if is_running s
      then (false, s)
      else (true, reset_main_warp (record s { async_worker = address }))

  -- `__async_worker__`: the pointer that is returned is the argument's, or the instance's own.
  unfoldable pub exchange_async_worker :
      Option ℕ → Instance W Socket Address → ℕ × Instance W Socket Address
  exchange_async_worker none s = (s.async_worker, s)
  exchange_async_worker (some address) s =
      let (done, s') = set_async_worker address s in (if done then address else s'.async_worker, s')

  unfoldable pub process_events : Instance W Socket Address → Instance W Socket Address
  process_events s =
      let w = worker s in
      let polled = a.make_current none (a.poll (a.make_current s.main_thread_index w)) in
      let w' = if leb (a.get_thread_count w) 1 || a.is_terminated w then polled else w in
      set_worker (a.poll_warp_only w') s
