-- ===== src/Hook/Sleeping.antt =====
-- A coroutine from its yield to its resumption.
use ngx_lua_cpp.Prelude.{ℕ, ◌+◌, ◌≡◌, Bool, true, false, Option, none, some, List, [], ◌∷◌, ◌++◌}
use ngx_lua_cpp.Hook.Queue.{Links}
use ngx_lua_cpp.Hook.Rings.{IsRing}
use ngx_lua_cpp.Hook.{
  Hooker, Subsystem, Shared, co_ctx, Yield, ngx_lua_cpp_resume, keep_returns, Registry,
  process_events,
}

-- The subsystem of a coroutine, http or stream.
abbrev pub subsystem : Bool → Hooker → Subsystem
subsystem true k = k.http
subsystem false k = k.stream

-- The hook while one coroutine is pending.
abbrev awaiting : Bool → Hooker → ℕ → ℕ → ℕ → Links → Hooker
awaiting true k f offset co q = record k {
  links = q;
  http = record { yields = some f; offset = offset; pending = co ∷ [] };
}
awaiting false k f offset co q = record k {
  links = q;
  stream = record { yields = some f; offset = offset; pending = co ∷ [] };
}

-- The hook after a yield in a subsystem, of which `r` is what `yield_in` gave.
abbrev yielded_in : Bool → Hooker → Option (Yield × Links × Subsystem) → Option (Yield × Hooker)
yielded_in true k r = elim r [
  | none ↦ none
  | some (result, links, s) ↦ some (result, record k { links = links; http = s })
]
yielded_in false k r = elim r [
  | none ↦ none
  | some (result, links, s) ↦ some (result, record k { links = links; stream = s })
]

module _ {S : Type 0} (V : Type 0) (poll : ℕ → Shared S → Shared S) (has_notify : Bool) (timer : ℕ)
    (w : Shared S) where
  -- What a pass of the event loop and a resumption leave of nginx's list.
  abbrev pub IsResumed : Bool → ℕ → ℕ → List ℕ → Hooker → Type 0
  IsResumed is_http co offset xs k =
      let k' = (process_events poll has_notify timer k w).0 in
      let h = k.ngx_posted_delayed_events in
      IsRing k'.links h xs
      × ((l nrets : ℕ) (stack : List V) (registry : Registry V)
          → (k'' : Hooker) × (ngx_lua_cpp_resume l is_http (co_ctx co) nrets stack registry k'
              ≡ some (
                k'',
                (keep_returns l nrets stack registry).0,
                (keep_returns l nrets stack registry).1,
              ))
            × IsRing k''.links h (xs ++ (co + offset) ∷ []))
