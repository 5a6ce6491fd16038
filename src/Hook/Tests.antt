-- ===== src/Hook/Tests.antt =====
-- A list of nginx's events, and the theorems at concrete inputs.
use ngx_lua_cpp.Prelude.{
  ℕ, zero, suc, ◌+◌, ◌≡◌, ◌↔◌, refl, true, false, Option, none, some, List, [], ◌∷◌, ◌==◌,
  if◌then◌else◌, arith,
}
use ngx_lua_cpp.Prelude.Order.{compare_bytes, same, nat_ord}
use ngx_lua_cpp.Prelude.Map.{lookup}
use ngx_lua_cpp.Hook.Queue.{Links, ngx_queue_insert_tail, ngx_queue_remove}
use ngx_lua_cpp.Hook.Rings
use ngx_lua_cpp.Hook.Views
use ngx_lua_cpp.Hook.Rings.{IsRing}
use ngx_lua_cpp.Hook.Placeholders
use ngx_lua_cpp.Hook.Placeholders.{without_placeholders}
use ngx_lua_cpp.Hook.Sleeping
use ngx_lua_cpp.Hook.Draining
use ngx_lua_cpp.Hook.Draining.{IsDrained}
use ngx_lua_cpp.Hook.Returns
use ngx_lua_cpp.Prelude.Text.{codes}
use ngx_lua_cpp.Hook.{
  registar, is_http_context, Hooker, Shared, Registry, co_ctx, process_events, require_ngx_sleep,
  yield_in, ngx_lua_cpp_yield, keep_returns, get_coroutine_returns,
}

-- The empty list with its head at 100.
abbrev empty_links : Links
empty_links = record { prev = λ _. 100; next = λ _. 100 }

empty-IsRing : IsRing empty_links 100 []
empty-IsRing = ((refl, refl), tt, tt)

abbrev one_event : Links
one_event = ngx_queue_insert_tail 100 7 empty_links

two-IsRing : IsRing (ngx_queue_insert_tail 100 8 one_event) 100 (7 ∷ 8 ∷ [])
two-IsRing =
    Rings.ngx_queue_insert_tail-IsRing one_event 100 8 (7 ∷ [])
      (Rings.ngx_queue_insert_tail-IsRing empty_links 100 7 [] empty-IsRing (omega arith) tt)
      (omega arith) (omega arith, tt)

abbrev kept_event : List ℕ
kept_event = 8 ∷ []

ngx_queue_remove-IsRing_iff_example :
    IsRing (ngx_queue_remove 7 (ngx_queue_insert_tail 100 8 one_event)) 100 kept_event
    ↔ (kept_event ≡ kept_event)
ngx_queue_remove-IsRing_iff_example =
    Views.ngx_queue_remove-IsRing_iff (ngx_queue_insert_tail 100 8 one_event) 100 [] 7 kept_event
      two-IsRing kept_event

stream_is_noted : is_http_context (registar (some (codes "stream")) none) ≡ false
unfolding compare_bytes
stream_is_noted = refl

-- The coroutine with its context at 3 has its event at 7.
abbrev hooker : Links → Option ℕ → List ℕ → Hooker
hooker links yields pending = record {
  links = links;
  ngx_posted_delayed_events = 100;
  http = record { yields = yields; offset = 4; pending = pending };
  stream = record { yields = none; offset = 4; pending = [] };
  cpp_list = 1 ∷ [];
}

-- An instance that is notified as long as there are tasks.
abbrev poll : ℕ → Shared ℕ → Shared ℕ
poll p w = elim w.rest [ zero ↦ w | suc tasks ↦ record { notified = 1; rest = tasks } ]

abbrev three_tasks : Shared ℕ
three_tasks = record { notified = 1; rest = 3 }

process_events-IsRing_example :
    let k' = (process_events poll true 500 (hooker one_event (some 1) (3 ∷ [])) three_tasks).0 in
    IsRing k'.links 100 [] × (k'.http.pending ≡ []) × (k'.stream.pending ≡ [])
unfolding process_events
process_events-IsRing_example =
    Placeholders.process_events-IsRing poll true 500 (hooker one_event (some 1) (3 ∷ []))
      three_tasks (7 ∷ [])
      (Rings.ngx_queue_insert_tail-IsRing empty_links 100 7 [] empty-IsRing (omega arith) tt)
      (omega arith) (omega arith) (refl, tt) tt

process_events-IsDrained_example :
    (n : ℕ) × IsDrained poll
      (1 ∷ [])
      1000
      three_tasks
      (process_events poll false 500 (hooker empty_links none []) three_tasks).1
      n
process_events-IsDrained_example =
    Draining.process_events-IsDrained poll (1 ∷ []) false 500 (hooker empty_links none [])
      three_tasks refl

-- A sleep that posts the event if it is not the last one already.
abbrev sleep_event : ℕ → Links → Links
sleep_event co q =
    let posted = ngx_queue_insert_tail 100 (co + 4) q in
    if q.prev 100 == (co + 4) then q else posted

get_coroutine_returns-keep_returns_example :
    (registry' : Registry ℕ) × (get_coroutine_returns 5 [] (keep_returns 5 2 (11 ∷ 12 ∷ []) []).1
      ≡ some (11 ∷ 12 ∷ [], registry'))
    × (get_coroutine_returns 5 [] registry' ≡ none)
    × ((other : ℕ) → same other 5 ≡ false → lookup other registry' ≡ none)
unfolding lookup
get_coroutine_returns-keep_returns_example =
    Returns.get_coroutine_returns-keep_returns 5 2 (11 ∷ 12 ∷ []) [] tt (omega arith)

-- Where `ngx.sleep` is not allowed: it raises an error, and posts nothing. The first yield then calls a
-- null pointer.
abbrev refused : ℕ → Links → Links
refused co q = q

null_call : ngx_lua_cpp_yield refused 1 true (co_ctx 3) (hooker empty_links none []) ≡ none
unfolding ngx_lua_cpp_yield yield_in require_ngx_sleep
null_call = refl
