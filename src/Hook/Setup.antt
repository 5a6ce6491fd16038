-- ===== src/Hook/Setup.antt =====
-- How the hook comes between nginx's event loop and its `process_events`: the constructor of
-- `ngx_hooker_t`, `get_proc_address`, `proxy_ngx_process_events` and the end of `process_events`.
pub mod Installed
mod Tests
use ngx_lua_cpp.Prelude.{
  ℕ, Bool, true, false, Option, none, some, List, [], ◌∷◌, has, ◌>>=◌, ◌==◌, if◌then◌else◌,
}
use ngx_lua_cpp.Prelude.Text.{Bytes, codes}
use ngx_lua_cpp.Hook.{
  Hooker, Shared, Registry, get_coroutine_returns, ngx_lua_cpp_yield, ngx_lua_cpp_resume,
  process_events,
}

-- A symbol of the host is asked for only if it is not known yet; `none` is a null pointer.
unfoldable pub get_proc_address : (Bytes → Option ℕ) → Option ℕ → Bytes → Option ℕ
get_proc_address dlsym (some target) name = some target
get_proc_address dlsym none name = dlsym name

pub record Symbols : Type 0 where
  pub actions : Option ℕ
  pub ngx_posted_delayed_events : Option ℕ
  pub ngx_http_lua_module : Option ℕ
  pub ngx_stream_lua_module : Option ℕ
  pub ngx_http_lua_get_co_ctx : Option ℕ
  pub ngx_stream_lua_get_co_ctx : Option ℕ

unfoldable pub find_symbols : (Bytes → Option ℕ) → Symbols
unfolding get_proc_address
find_symbols dlsym = record {
  actions = get_proc_address dlsym none (codes "ngx_event_actions");
  ngx_posted_delayed_events = get_proc_address dlsym none (codes "ngx_posted_delayed_events");
  ngx_http_lua_module = get_proc_address dlsym none (codes "ngx_http_lua_module");
  ngx_stream_lua_module = get_proc_address dlsym none (codes "ngx_stream_lua_module");
  ngx_http_lua_get_co_ctx = get_proc_address dlsym none (codes "ngx_http_lua_get_co_ctx");
  ngx_stream_lua_get_co_ctx = get_proc_address dlsym none (codes "ngx_stream_lua_get_co_ctx");
}

-- A function that `actions->process_events` may point to: one of nginx, or the hook's proxy.
pub data Handler : Type 0 where
  nginx_own : ℕ → Handler
  proxy_ngx_process_events : Handler

-- The fields of `ngx_event_actions_t` that the hook uses.
pub record EventActions : Type 0 where
  pub notify : Option ℕ
  pub process_events : Handler

-- What is in nginx's memory at an address of such a record.
abbrev pub Memory : Type 0
Memory = ℕ → EventActions

pub record Installation : Type 0 where
  pub symbols : Symbols
  pub prev_ngx_process_events : Handler
  pub memory : Memory

-- The constructor. `actions` is read through whatever was found: with a null pointer there is no result.
unfoldable pub install : (Bytes → Option ℕ) → Memory → Option Installation
install dlsym memory =
    let symbols = find_symbols dlsym in
    symbols.actions >>= λ actions. some (record {
      symbols = symbols;
      prev_ngx_process_events = (memory actions).process_events;
      memory = λ p.
          if p == actions
          then record (memory actions) { process_events = proxy_ngx_process_events }
          else memory p;
    })

-- What a call of `actions->process_events(cycle, timer, flags)` comes to: the function of nginx that is
-- called at last and the timer that it gets, with what the hook did before. Were the proxy its own
-- predecessor, it would call itself without end: no result.
unfoldable pub call_process_events :
    {S : Type 0}
    → (ℕ → Shared S → Shared S)
    → EventActions
    → Handler
    → ℕ
    → Hooker
    → Shared S
    → Option (ℕ × ℕ × Hooker × Shared S)
call_process_events poll actions prev timer k w = elim actions.process_events [
  | nginx_own f ↦ some (f, timer, k, w)
  | proxy_ngx_process_events ↦
      let (k', w', timer') = process_events poll (has actions.notify) timer k w in
      elim prev [ nginx_own f ↦ some (f, timer', k', w') | proxy_ngx_process_events ↦ none ]
]

-- The Lua function that `registar` makes of a method that is a coroutine: what the method returns goes
-- through `get_coroutine_returns`.
unfoldable pub wrap_coroutine :
    {V : Type 0}
    → (List V → Registry V → List V × Registry V)
    → ℕ
    → List V
    → Registry V
    → Option (List V × Registry V)
wrap_coroutine func l arguments registry =
    let (returned, registry') = func arguments registry in
    get_coroutine_returns l returned registry'
