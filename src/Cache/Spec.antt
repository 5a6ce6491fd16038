-- ===== src/Cache/Spec.antt =====
-- What the cache promises, with the list nodes, the iterators and the two maps forgotten: an order
-- of use on the keys, and what is stored under each.
use ngx_lua_cpp.Prelude.{
  ℕ, List, [], ◌∷◌, Bool, true, false, Option, none, some, take, if◌then◌else◌,
}
use ngx_lua_cpp.Prelude.Order.{same, bytes_ord}
use ngx_lua_cpp.Prelude.Text.{Bytes}
use ngx_lua_cpp.Prelude.Map.{lookup}
use ngx_lua_cpp.Prelude.Double.{Double}
use ngx_lua_cpp.Cache.{LruCache, expiry, is_expired}
use ngx_lua_cpp.Cache.Nodes.{keys, remove, contains}

-- The keys, most recently used first, and the value with its expiry under each of them.
pub record View (D : Type 0) : Type 0 where
  pub order : List Bytes
  pub find : Bytes → Option (Bytes × D)

abbrev pub view : {D : Type 0} → LruCache D → View D
view c = record { order = keys c.lru; find = λ j. lookup j c.entries }

module _ {D : Type 0} (d : Double D) where
  -- A store makes the key the most recent one, and keeps the `capacity` most recent keys.
  unfoldable pub spec_set : ℕ → D → Bytes → Bytes → D → View D → View D
  spec_set capacity now key value ttl_ms w =
      let order = take capacity (key ∷ remove key w.order) in
      record {
        order = order;
        find = λ j.
            if same j key
            then some (value, expiry d now ttl_ms)
            else if contains j order
            then w.find j
            else none;
      }

  -- A read drops an expired key, and makes a live one the most recent.
  unfoldable pub spec_get : D → Bytes → View D → View D × (Bool × Bytes × D)
  spec_get now key w = elim (w.find key) [
    | none ↦ (w, (false, [], d.of_nat 0))
    | some (value, expire) ↦
        if is_expired d now expire
        then (
          record { order = remove key w.order; find = λ j. if same j key then none else w.find j },
          (false, [], d.of_nat 0),
        )
        else (
          record w { order = key ∷ remove key w.order },
          (true, value, if d.lt (d.of_nat 0) expire then d.sub expire now else d.of_nat 0),
        )
  ]
