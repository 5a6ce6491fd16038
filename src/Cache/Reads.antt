-- ===== src/Cache/Reads.antt =====
-- `get` never meets a dangling iterator, keeps the cache well-formed, and does what the
-- specification says.
use ngx_lua_cpp.Prelude.{
  ◌≡◌, refl, ap, Bool, true, false, none, some, [], ◌∷◌, if◌then◌else◌, Bool-cases, Option-cases,
  inl, inr,
}
use ngx_lua_cpp.Prelude.Order.{nat_ord, bytes_ord}
use ngx_lua_cpp.Prelude.Text.{Bytes}
use ngx_lua_cpp.Prelude.Double.{Double}
use ngx_lua_cpp.Prelude.Map.{lookup, erase}
use ngx_lua_cpp.Prelude.Map.Sorted.{lookup-erase}
use ngx_lua_cpp.Cache.{LruCache, splice, get, is_expired, increment}
use ngx_lua_cpp.Cache.Nodes.{unlink-erase, keys-erase}
use ngx_lua_cpp.Cache.Valid.{
  IsValid, coherent, iter_of_entry, drop_key-IsValid, splice-IsValid, count-IsValid,
}
use ngx_lua_cpp.Cache.Spec.{view, spec_get}
use ngx_lua_cpp.Cache.Order.{view_path}

module _ {D : Type 0} (d : Double D) (now : D) (k : Bytes) (c : LruCache D) (v : IsValid c) where
  abbrev Reads : Type 0
  Reads =
      (c' : LruCache D) × (r : Bool × Bytes × D) × (get d now k c ≡ some (c', r))
      × IsValid c'
      × ((view c', r) ≡ spec_get d now k (view c))

  get_miss : lookup k c.entries ≡ none → Reads
  unfolding get spec_get
  get_miss absent = (
    record c { misses = increment c.misses },
    (false, [], d.of_nat 0),
    rw (absent, get),
    count-IsValid c c.hits (increment c.misses) c.evictions v,
    rw (absent, spec_get),
  )

  module _ (b : Bytes × D) (stored : lookup k c.entries ≡ some b) where
    get_expired : is_expired d now b.1 ≡ true → Reads
    unfolding get spec_get
    get_expired old =
        let (n, at) = iter_of_entry v k b stored in
        let c' : LruCache D = record c { misses = increment c.misses } in
        let v' = count-IsValid c c.hits (increment c.misses) c.evictions v in
        (
          record c' { entries = erase k c.entries; lru = erase n c.lru; iters = erase k c.iters },
          (false, [], d.of_nat 0),
          rw (stored, get, old, at, unlink-erase n k c.lru (v.iters_live k n at)),
          drop_key-IsValid c' v' k n at b stored,
          rw (stored, spec_get, old)
              (ap (λ w. (w, (false, [], d.of_nat 0)))
                (view_path _ _ (keys-erase n k c.lru (coherent v k n at))
                  (λ j. lookup-erase k j c.entries v.entries_sorted))),
        )

    get_live : is_expired d now b.1 ≡ false → Reads
    unfolding get spec_get splice
    get_live live =
        let (n, at) = iter_of_entry v k b stored in
        let c' : LruCache D = record c { hits = increment c.hits } in
        let v' = count-IsValid c (increment c.hits) c.misses c.evictions v in
        (
          record c' { lru = (n, k) ∷ erase n c.lru },
          (true, b.0, if d.lt (d.of_nat 0) b.1 then d.sub b.1 now else d.of_nat 0),
          rw (stored, get, live, splice, at, unlink-erase n k c.lru (v.iters_live k n at)),
          splice-IsValid c' v' k n at,
          rw (stored, spec_get, live)
              (ap
                (λ w. (w, (true, b.0, if d.lt (d.of_nat 0) b.1 then d.sub b.1 now else d.of_nat 0)))
                (view_path _ _ (ap (◌∷◌ k) (keys-erase n k c.lru (coherent v k n at)))
                  (λ j. refl))),
        )

-- A read of a well-formed cache runs to its end, leaves a well-formed cache, and does what the
-- specification says.
pub get-refines :
    {D : Type 0} (d : Double D) (now : D) (k : Bytes) (c : LruCache D)
    → IsValid c
    → (c' : LruCache D) × (r : Bool × Bytes × D) × (get d now k c ≡ some (c', r))
      × IsValid c'
      × ((view c', r) ≡ spec_get d now k (view c))
get-refines d now k c v = elim (Option-cases (lookup k c.entries)) [
  | inl absent ↦ get_miss d now k c v absent
  | inr (b, stored) ↦ elim (Bool-cases (is_expired d now b.1)) [
    | inl old ↦ get_expired d now k c v b stored old
    | inr live ↦ get_live d now k c v b stored live
  ]
]
