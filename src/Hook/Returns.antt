-- ===== src/Hook/Returns.antt =====
-- The return values of a coroutine on their way to Lua.
use ngx_lua_cpp.Prelude.{
  ℕ, ◌-◌, ◌≤◌, ◌≡◌, ap, ◌∙◌, false, none, some, List, [], ◌==◌, length, take, if◌then◌else◌, arith,
}
use ngx_lua_cpp.Prelude.Order.{nat_ord, same}
use ngx_lua_cpp.Prelude.Map.{lookup, insert, erase, lookup-insert, lookup-insert_self, same_refl}
use ngx_lua_cpp.Prelude.Map.Sorted.{IsSorted, insert-IsSorted, lookup-erase}
use ngx_lua_cpp.Hook.{Registry, keep_returns, get_coroutine_returns}

module _ {V : Type 0} where
  keep_returns_lem :
      (l nrets : ℕ) (stack : List V) (registry : Registry V)
      → 1 ≤ nrets
      → keep_returns l nrets stack registry
        ≡ (take (length stack - nrets) stack, insert l (take nrets stack) registry)
  unfolding keep_returns
  keep_returns_lem l nrets stack registry h =
      let some_values : (nrets == 0) ≡ false = ground (arith, h) in rw some_values

  found :
      (l : ℕ) (registry : Registry V) (values : List V)
      → lookup l registry ≡ some values
      → get_coroutine_returns l [] registry ≡ some (values, erase l registry)
  unfolding get_coroutine_returns
  found l registry values h = rw (get_coroutine_returns, h)

  missing :
      (l : ℕ) (registry : Registry V)
      → lookup l registry ≡ none
      → get_coroutine_returns l [] registry ≡ none
  unfolding get_coroutine_returns
  missing l registry h = rw (get_coroutine_returns, h)

  lookup-erase-insert :
      (l other : ℕ) (values : List V) (registry : Registry V)
      → IsSorted registry
      → lookup other (erase l (insert l values registry))
        ≡ (if same other l then none else lookup other registry)
  lookup-erase-insert l other values registry sorted =
      lookup-erase l other (insert l values registry) (insert-IsSorted l values registry sorted)
      ∙ ground (arith, lookup-insert l other values registry)

  -- The values that a resumed coroutine leaves on its stack, if there are any, are what the wrapper
  -- returns to Lua: it finds them in the registry once, and the values of the other coroutines stay.
  pub get_coroutine_returns-keep_returns :
      (l nrets : ℕ) (stack : List V) (registry : Registry V)
      → IsSorted registry
      → 1 ≤ nrets
      → (registry' : Registry V) × (get_coroutine_returns l []
            (keep_returns l nrets stack registry).1
          ≡ some (take nrets stack, registry'))
        × (get_coroutine_returns l [] registry' ≡ none)
        × ((other : ℕ) → same other l ≡ false → lookup other registry' ≡ lookup other registry)
  get_coroutine_returns-keep_returns l nrets stack registry sorted h =
      let values = take nrets stack in
      let kept = insert l values registry in
      let stored = keep_returns_lem l nrets stack registry h in
      let gone : lookup l (erase l kept) ≡ none =
        lookup-erase-insert l l values registry sorted ∙ rw (same_refl l) in
      (
        erase l kept,
        ap (λ (r : List V × Registry V). get_coroutine_returns l [] r.1) stored
            ∙ found l kept values (lookup-insert_self l values registry),
        missing l (erase l kept) gone,
        λ other apart. lookup-erase-insert l other values registry sorted ∙ rw apart,
      )
