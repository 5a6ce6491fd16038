-- ===== src/Cache/Stores.antt =====
-- `set` never meets a dangling iterator, keeps the cache well-formed, and does what the
-- specification says.
use ngx_lua_cpp.Prelude.{
  ℕ, suc, ◌+◌, ◌-◌, ◌≤◌, ◌<◌, ◌≡◌, refl, subst, ap, sym, ◌∙◌, true, none, some, List, [], ◌∷◌,
  length, take, arith, leb, le→leb, leb→le, if◌then◌else◌, Bool-cases, Option-cases, inl, inr,
  take_of_length-le,
}
use ngx_lua_cpp.Prelude.Order.{same, nat_ord, bytes_ord}
use ngx_lua_cpp.Prelude.Text.{Bytes}
use ngx_lua_cpp.Prelude.Double.{Double}
use ngx_lua_cpp.Prelude.Map.{lookup, insert, erase, lookup-insert}
use ngx_lua_cpp.Prelude.Map.Sorted.{lookup-erase, length-erase}
use ngx_lua_cpp.Cache.{Node, LruCache, pop_back, evict, set, expiry, increment}
use ngx_lua_cpp.Cache.Nodes.{
  Distinct, keys, remove, contains, unlink-erase, keys-erase, length-keys, last, pop_back-last,
  All-lookup,
}
use ngx_lua_cpp.Cache.Valid.{
  IsValid, coherent, iter_of_entry, entry_of_iter, drop_key-IsValid, splice-IsValid, count-IsValid,
  assign-IsValid, push-IsValid,
}
use ngx_lua_cpp.Cache.Spec.{view, spec_set}
use ngx_lua_cpp.Cache.Order.{contains-has, remove_absent, length-remove, contains_head, view_path}

-- A full cache drops its last node, with the entry and the iterator of its key.
record Evicted {D : Type 0} (d : Double D) (c : LruCache D) : Type 0 where
  node : ℕ
  victim : Bytes
  kept : LruCache D
  runs : evict d c ≡ some kept
  capacity : kept.max_entries ≡ c.max_entries
  valid : IsValid kept
  room : length kept.entries < kept.max_entries
  entries : kept.entries ≡ erase victim c.entries
  order : keys kept.lru ≡ take (c.max_entries - 1) (keys c.lru)

evict_pops :
    {D : Type 0} (d : Double D) (c : LruCache D) (z : Node) (rest : List Node)
    → c.max_entries ≤ length c.entries
    → pop_back c.lru ≡ some (z, rest)
    → evict d c
      ≡ some (record c {
        lru = rest;
        entries = erase z.1 c.entries;
        iters = erase z.1 c.iters;
        evictions = increment c.evictions;
      })
unfolding evict
evict_pops d c z rest full popped = rw (le→leb c.max_entries (length c.entries) full, popped)

evict_full :
    {D : Type 0} (d : Double D) (c : LruCache D)
    → IsValid c
    → c.max_entries ≤ length c.entries
    → Evicted d c
evict_full {D} d c v full = go c.lru refl
  where
    go : (l : List Node) → c.lru ≡ l → Evicted d c
    go [] e = absurd (omega (arith, ap length e, v.same_size, v.positive))
    go (x ∷ l) e =
        let (popped, found, order) = pop_back-last x l (subst Distinct e v.distinct) in
        let z : Node = last x l in
        let found' : lookup z.0 c.lru ≡ some z.1 = rw e found in
        let at : lookup z.1 c.iters ≡ some z.0 =
          All-lookup (λ y. lookup y.1 c.iters ≡ some y.0) z.0 z.1 c.lru found' v.nodes_known in
        let (b, stored) = entry_of_iter v z.1 z.0 at in
        let counted : LruCache D = record c { evictions = increment c.evictions } in
        let valid =
          drop_key-IsValid counted (count-IsValid c c.hits c.misses (increment c.evictions) v) z.1
            z.0 at b stored in
        record {
          node = z.0;
          victim = z.1;
          kept = record counted {
            lru = erase z.0 c.lru;
            entries = erase z.1 c.entries;
            iters = erase z.1 c.iters;
          };
          runs = evict_pops d c z (erase z.0 c.lru) full (rw e popped);
          capacity = refl;
          valid = valid;
          room = omega (arith, length-erase z.1 b c.entries stored, v.bounded);
          entries = refl;
          order =
              let most : c.max_entries - 1 ≡ length l =
                omega (arith, ap length e, v.same_size, v.bounded) in
              rw (most, e) order;
        }

module _ {D : Type 0} (d : Double D) (now ttl : D) (k val : Bytes) (c : LruCache D)
    (v : IsValid c) where
  abbrev Stores : Type 0
  Stores =
      (c' : LruCache D) × (set d now k val ttl c ≡ some (c', true))
      × IsValid c'
      × (view c' ≡ spec_set d c.max_entries now k val ttl (view c))

  abbrev entry : Bytes × D
  entry = (val, expiry d now ttl)

  -- Whatever the order lists is bound, so the map may be described through the order.
  stored_view :
      (c' : LruCache D) (order : List Bytes)
      → IsValid c'
      → keys c'.lru ≡ k ∷ order
      → k ∷ order ≡ take c.max_entries (k ∷ remove k (keys c.lru))
      → ((j : Bytes)
          → contains j (keys c'.lru) ≡ true
          → lookup j c'.entries ≡ (if same j k then some entry else lookup j c.entries))
      → view c' ≡ spec_set d c.max_entries now k val ttl (view c)
  unfolding spec_set
  stored_view c' order v' p p' q =
      view_path _ _ (p ∙ p') λ j. rw (← (p ∙ p')) (ground (arith, q j, contains-has v' j, head j))
    where
      head : (j : Bytes) → same j k ≡ true → contains j (keys c'.lru) ≡ true
      head j h = rw p (contains_head j k order h)

  set_old : (b : Bytes × D) → lookup k c.entries ≡ some b → Stores
  unfolding set
  set_old b stored =
      let (n, at) = iter_of_entry v k b stored in
      let c' : LruCache D = record c { lru = (n, k) ∷ erase n c.lru } in
      let c'' : LruCache D = record c' { entries = insert k entry c.entries } in
      let v' = assign-IsValid c' k b entry (splice-IsValid c v k n at) stored in
      let order = keys-erase n k c.lru (coherent v k n at) in
      let fits : length (k ∷ remove k (keys c.lru)) ≤ c.max_entries = omega (
        arith,
        length-remove k (keys c.lru) (ground (arith, contains-has v k)),
        length-keys c.lru,
        v.same_size,
        v.bounded,
      ) in
      (
        c'',
        rw (stored, set, at, unlink-erase n k c.lru (v.iters_live k n at)),
        v',
        stored_view c'' (remove k (keys c.lru)) v' (rw order)
            (sym (take_of_length-le c.max_entries (k ∷ remove k (keys c.lru)) fits))
            (λ j _. lookup-insert k j entry c.entries),
      )

  set_room : lookup k c.entries ≡ none → length c.entries < c.max_entries → Stores
  unfolding set
  set_room absent room =
      let c' : LruCache D = record c {
        entries = insert k entry c.entries;
        lru = (c.next_node, k) ∷ c.lru;
        iters = insert k c.next_node c.iters;
        next_node = c.next_node + 1;
      } in
      let v' = push-IsValid c k entry v absent room in
      let gone = remove_absent k (keys c.lru) (ground (arith, contains-has v k)) in
      let fits : length (k ∷ keys c.lru) ≤ c.max_entries =
        omega (arith, length-keys c.lru, v.same_size) in
      (
        c',
        rw (absent, set) (unfold evict in ground arith),
        v',
        stored_view c' (keys c.lru) v' refl
            (rw gone (sym (take_of_length-le c.max_entries (k ∷ keys c.lru) fits)))
            (λ j _. lookup-insert k j entry c.entries),
      )

  set_full : lookup k c.entries ≡ none → c.max_entries ≤ length c.entries → Stores
  unfolding set
  set_full absent full =
      let z = evict_full d c v full in
      let old : LruCache D = z.kept in
      let absent' : lookup k old.entries ≡ none =
        ground (arith, z.entries, lookup-erase z.victim k c.entries v.entries_sorted) in
      let c' : LruCache D = record old {
        entries = insert k entry old.entries;
        lru = (old.next_node, k) ∷ old.lru;
        iters = insert k old.next_node old.iters;
        next_node = old.next_node + 1;
      } in
      let v' = push-IsValid old k entry z.valid absent' z.room in
      (
        c',
        rw (absent, set, z.runs),
        v',
        stored_view c' (keys old.lru) v' refl order (λ j h. ground (
          arith,
          z.entries,
          lookup-insert k j entry old.entries,
          lookup-erase z.victim j c.entries v.entries_sorted,
          contains-has v' j,
        )),
      )
    where
      order :
          k ∷ keys (evict_full d c v full).kept.lru ≡ take c.max_entries (k ∷ remove k (keys c.lru))
      order =
          let gone = remove_absent k (keys c.lru) (ground (arith, contains-has v k)) in
          let positive : c.max_entries ≡ suc (c.max_entries - 1) = omega (arith, v.positive) in
          rw (gone, positive, (evict_full d c v full).order) refl

-- A store at a well-formed cache runs to its end, leaves a well-formed cache, and does what the
-- specification says.
pub set-refines :
    {D : Type 0} (d : Double D) (now ttl : D) (k val : Bytes) (c : LruCache D)
    → IsValid c
    → (c' : LruCache D) × (set d now k val ttl c ≡ some (c', true))
      × IsValid c'
      × (view c' ≡ spec_set d c.max_entries now k val ttl (view c))
set-refines d now ttl k val c v = elim (Option-cases (lookup k c.entries)) [
  | inr (b, stored) ↦ set_old d now ttl k val c v b stored
  | inl absent ↦ elim (Bool-cases (leb c.max_entries (length c.entries))) [
    | inl full ↦ set_full d now ttl k val c v absent (leb→le _ _ full)
    | inr room ↦ set_room d now ttl k val c v absent (ground arith)
  ]
]
