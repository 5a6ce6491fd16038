-- ===== src/Hook.antt =====
-- The hook into nginx's event loop: `ngx_hooker_t` of src/ngx_lua_cpp.cpp. What nginx and lua-nginx
-- do is a parameter: the contexts of a request, `ngx.sleep`, and what an instance does with its tasks.
pub mod Queue
pub mod Rings
pub mod Views
pub mod Wakeups
pub mod Setup
pub mod Placeholders
pub mod Yielding
pub mod Sleeping
pub mod Draining
pub mod Returns
mod Tests
use ngx_lua_cpp.Prelude.{
  ℕ, zero, suc, ◌+◌, ◌-◌, ◌*◌, Bool, true, false, not, Option, none, some, List, [], ◌∷◌, ◌++◌,
  length, take, drop, min, ltb, ◌==◌, if◌then◌else◌,
}
use ngx_lua_cpp.Prelude.Order.{same, nat_ord, bytes_ord}
use ngx_lua_cpp.Prelude.Text.{Bytes, codes}
use ngx_lua_cpp.Prelude.Map.{Map, lookup, insert, erase}
use ngx_lua_cpp.Hook.Queue.{Links, ngx_queue_insert_tail, ngx_queue_remove}

-- The parts of the object that belong to one subsystem: http or stream. An offset is the distance from
-- a coroutine's context to its sleep event.
pub record Subsystem : Type 0 where
  pub yields : Option ℕ
  pub offset : ℕ
  pub pending : List ℕ

-- `links` is nginx's memory, where `ngx_posted_delayed_events` is the head of a circular list.
pub record Hooker : Type 0 where
  pub links : Links
  pub ngx_posted_delayed_events : ℕ
  pub http : Subsystem
  pub stream : Subsystem
  pub cpp_list : List ℕ

-- `registar` notes in the registry whether the subsystem is that of streams, if `ngx.config` is a
-- table; `is_http_context` reads it back, where nothing noted counts as http.
abbrev pub registar : Option Bytes → Option Bool → Option Bool
registar none noted = noted
registar (some subsystem) noted = some (same subsystem (codes "stream"))

abbrev pub is_http_context : Option Bool → Bool
is_http_context none = true
is_http_context (some is_stream) = not is_stream

-- What is found for a Lua state: no request, an error, or the context of a coroutine.
pub data Found : Type 0 where
  no_request : Found
  lua_error : Found
  co_ctx : ℕ → Found

-- `exdata` is the request; `ctx` is the module's context of a request, `get_co_ctx` the coroutine's.
unfoldable pub get_http_co_ctx : Option ℕ → (ℕ → Option ℕ) → (ℕ → Option ℕ) → Found
get_http_co_ctx none ctx get_co_ctx = no_request
get_http_co_ctx (some request) ctx get_co_ctx = elim (ctx request) [
  | none ↦ lua_error
  | some c ↦ elim (get_co_ctx c) [ none ↦ lua_error | some co ↦ co_ctx co ]
]

unfoldable pub get_stream_co_ctx : Option ℕ → (ℕ → ℕ) → (ℕ → Option ℕ) → (ℕ → Option ℕ) → Found
get_stream_co_ctx none session ctx get_co_ctx = no_request
get_stream_co_ctx (some request) session ctx get_co_ctx = elim (ctx (session request)) [
  | none ↦ lua_error
  | some c ↦ elim (get_co_ctx c) [ none ↦ lua_error | some co ↦ co_ctx co ]
]

-- `require_ngx_sleep` gives the function that it returns, null if the call of `ngx.sleep` posted no
-- event. `sleep` is the C function behind `ngx.sleep`, `call` what calling it does to the memory. The
-- function is kept even when null is returned. The event stands inside the context, so that its distance
-- from it is not negative.
unfoldable pub require_ngx_sleep :
    (Links → Links) → ℕ → ℕ → ℕ → Links → Subsystem → Option ℕ × Links × Subsystem
require_ngx_sleep call sleep head co links s = elim s.yields [
  | some f ↦ (some f, links, s)
  | none ↦
      let s' = record s { yields = some sleep } in
      let prev = links.prev head in
      let links' = call links in
      let current = links'.prev head in
      if current == prev
      then (none, links', s')
      else (some sleep, links', record s' { offset = current - co })
]

-- What `ngx_lua_cpp_yield` ends with: an error of Lua, or the call of the function that it got.
pub data Yield : Type 0 where
  yield_error : Yield
  yielded : ℕ → Yield

-- The two halves of `ngx_lua_cpp_yield` differ in the subsystem only. The last call, `func(L)`, runs
-- `call` again; that of a null pointer ends the process, and there is no result.
unfoldable pub yield_in :
    (ℕ → Links → Links) → ℕ → ℕ → Found → Links → Subsystem → Option (Yield × Links × Subsystem)
yield_in call sleep head (co_ctx co) links s =
    let (func, links', s') = require_ngx_sleep (call co) sleep head co links s in
    let s'' = record s' { pending = s'.pending ++ co ∷ [] } in
    elim func [ none ↦ none | some f ↦ some (yielded f, call co links', s'') ]
yield_in call sleep head found links s = some (yield_error, links, s)

unfoldable pub ngx_lua_cpp_yield :
    (ℕ → Links → Links) → ℕ → Bool → Found → Hooker → Option (Yield × Hooker)
ngx_lua_cpp_yield call sleep true found k =
    elim (yield_in call sleep k.ngx_posted_delayed_events found k.links k.http) [
      | none ↦ none
      | some (result, links, http) ↦ some (result, record k { links = links; http = http })
    ]
ngx_lua_cpp_yield call sleep false found k =
    elim (yield_in call sleep k.ngx_posted_delayed_events found k.links k.stream) [
      | none ↦ none
      | some (result, links, stream) ↦ some (result, record k { links = links; stream = stream })
    ]

-- The part of the Lua registry where return values wait, by the Lua state they are of.
abbrev pub Registry : Type 0 → Type 0
Registry V = Map ℕ (List V)

-- The values are kept when there are any, and taken from the top of the stack.
unfoldable pub keep_returns : {V : Type 0} → ℕ → ℕ → List V → Registry V → List V × Registry V
keep_returns l nrets stack registry =
    if nrets == 0
    then (stack, registry)
    else (take (length stack - nrets) stack, insert l (take nrets stack) registry)

-- `none` is LUA_ERRERR. An error that Lua raises on the way has no result either.
unfoldable pub ngx_lua_cpp_resume :
    {V : Type 0}
    → ℕ
    → Bool
    → Found
    → ℕ
    → List V
    → Registry V
    → Hooker
    → Option (Hooker × List V × Registry V)
ngx_lua_cpp_resume l is_http (co_ctx co) nrets stack registry k =
    let offset = if is_http then k.http.offset else k.stream.offset in
    let links = ngx_queue_insert_tail k.ngx_posted_delayed_events (co + offset) k.links in
    let (stack', registry') = keep_returns l nrets stack registry in
    some (record k { links = links }, stack', registry')
ngx_lua_cpp_resume l is_http found nrets stack registry k = none

-- The values that are returned to Lua, and the registry; `none` is the error "No coroutine return
-- value collected!". The stack is what the wrapped function returned.
unfoldable pub get_coroutine_returns :
    {V : Type 0} → ℕ → List V → Registry V → Option (List V × Registry V)
get_coroutine_returns l (v ∷ stack) registry = some (v ∷ stack, registry)
get_coroutine_returns l [] registry = elim (lookup l registry) [
  | none ↦ none
  | some values ↦ some (values, erase l registry)
]

-- The placeholders of a subsystem, of which none is removed while the offset is not known.
unfoldable pub remove_events : ℕ → List ℕ → Links → Links
remove_events offset [] links = links
remove_events offset (co ∷ cos) links =
    remove_events offset cos (ngx_queue_remove (co + offset) links)

unfoldable pub dig_out : Subsystem → Links → Links
dig_out s links = if s.offset == 0 then links else remove_events s.offset s.pending links

-- What the instances work on: `notified`, and anything else.
pub record Shared (S : Type 0) : Type 0 where
  pub notified : ℕ
  pub rest : S

-- `notify`, which tells nginx when it is the first and nginx has a `notify` to call.
unfoldable pub notify : {S : Type 0} → (S → S) → Bool → Shared S → Shared S
notify tell has_notify w =
    let w' = record w { notified = 1 } in
    if w.notified == 0 then (if has_notify then record w' { rest = tell w.rest } else w') else w'

module _ {S : Type 0} where
  -- A pass over the instances. `poll` is an instance's own `process_events`.
  unfoldable pub poll_all : (ℕ → Shared S → Shared S) → List ℕ → Shared S → Shared S
  poll_all poll [] w = w
  poll_all poll (p ∷ ps) w = poll_all poll ps (poll p w)

  -- The loop with its safety valve, `spins` passes before it springs; `none` is the break.
  unfoldable pub drain : (ℕ → Shared S → Shared S) → List ℕ → ℕ → Shared S → Shared S × ℕ
  drain poll cpp_list zero w = (w, 0)
  drain poll cpp_list (suc spins) w =
      let w' = poll_all poll cpp_list w in
      let quiet = record w' { notified = 0 } in
      let more = drain poll cpp_list spins quiet in
      if w'.notified == 1 then more else (quiet, suc spins)

  -- The replacement of nginx's `process_events`, up to the call of the one it replaces, which gets the
  -- timer that is returned.
  unfoldable pub process_events :
      (ℕ → Shared S → Shared S) → Bool → ℕ → Hooker → Shared S → Hooker × Shared S × ℕ
  process_events poll has_notify timer k w =
      let links = dig_out k.stream (dig_out k.http k.links) in
      let k' = record k {
        links = links;
        http = record k.http { pending = [] };
        stream = record k.stream { pending = [] };
      } in
      (k', (drain poll k.cpp_list 1000 w).0, if has_notify then timer else min timer 16)

-- `insert` and `remove` of an instance: the library's `iris_binary_insert` and `iris_binary_find`.
abbrev pub insert_bridge : (List ℕ → ℕ → List ℕ) → ℕ → Hooker → Hooker
insert_bridge binary_insert bridge k = record k { cpp_list = binary_insert k.cpp_list bridge }

abbrev pub remove_bridge : (List ℕ → ℕ → Option ℕ) → ℕ → Hooker → Hooker
remove_bridge binary_find bridge k = elim (binary_find k.cpp_list bridge) [
  | none ↦ k
  | some i ↦ record k { cpp_list = take i k.cpp_list ++ drop (i + 1) k.cpp_list }
]
