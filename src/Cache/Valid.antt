-- ===== src/Cache/Valid.antt =====
-- The well-formedness of the cache: the list, the values and the iterators describe the same keys,
-- every iterator points at the live node of its key, and the bound is kept.
use ngx_lua_cpp.Prelude.{
  ℕ, ◌+◌, ◌≤◌, ◌<◌, ◌≡◌, false, none, some, ◌∷◌, length, All, All-map, All-zip, has, some_of_has,
  ap, ◌∙◌, arith,
}
use ngx_lua_cpp.Prelude.Order.{same, nat_ord, bytes_ord}
use ngx_lua_cpp.Prelude.Text.{Bytes}
use ngx_lua_cpp.Prelude.Map.{
  lookup, insert, erase, same_refl, same_comm, eq_of_same, lookup-insert, lookup-insert_self,
}
use ngx_lua_cpp.Prelude.Map.Sorted.{
  IsSorted, insert-IsSorted, erase-IsSorted, lookup-erase, length-erase, length-insert_new,
  length-insert_old,
}
use ngx_lua_cpp.Cache.{Node, LruCache}
use ngx_lua_cpp.Cache.Nodes.{
  Distinct, All-lookup, All-erase, All-erase_ne, erase-Distinct, lookup-erase_node,
}

pub record IsValid {D : Type 0} (c : LruCache D) : Type 0 where
  pub positive : 0 < c.max_entries
  pub bounded : length c.entries ≤ c.max_entries
  pub entries_sorted : IsSorted c.entries
  pub iters_sorted : IsSorted c.iters
  pub nodes_known : All (λ x. lookup x.1 c.iters ≡ some x.0) c.lru
  pub iters_live : (k : Bytes) (n : ℕ) → lookup k c.iters ≡ some n → lookup n c.lru ≡ some k
  pub distinct : Distinct c.lru
  pub fresh : All (λ x. x.0 < c.next_node) c.lru
  pub domain : (k : Bytes) → has (lookup k c.entries) ≡ has (lookup k c.iters)
  pub same_size : length c.lru ≡ length c.entries

module _ {D : Type 0} {c : LruCache D} (v : IsValid c) where
  -- A key and the address of its node determine one another.
  pub coherent :
      (k : Bytes) (n : ℕ) → lookup k c.iters ≡ some n → All (λ x. same n x.0 ≡ same k x.1) c.lru
  coherent k n h = All-map agree c.lru v.nodes_known
    where
      agree : (x : Node) → lookup x.1 c.iters ≡ some x.0 → same n x.0 ≡ same k x.1
      agree x known = ground (
        arith,
        v.iters_live k n h,
        v.iters_live x.1 x.0 known,
        eq_of_same n x.0,
        eq_of_same k x.1,
        same_refl n,
        same_refl k,
      )

  -- An entry has its iterator.
  pub iter_of_entry :
      (k : Bytes) (e : Bytes × D)
      → lookup k c.entries ≡ some e
      → (n : ℕ) × (lookup k c.iters ≡ some n)
  iter_of_entry k e h = ground (arith, v.domain k)

  pub entry_of_iter :
      (k : Bytes) (n : ℕ)
      → lookup k c.iters ≡ some n
      → (e : Bytes × D) × (lookup k c.entries ≡ some e)
  entry_of_iter k n h = some_of_has (lookup k c.entries) (v.domain k ∙ ap has h)

module _ {D : Type 0} (c : LruCache D) (v : IsValid c) (k : Bytes) (n : ℕ)
    (at : lookup k c.iters ≡ some n) where
  known_erase : All (λ x. lookup x.1 (erase k c.iters) ≡ some x.0) (erase n c.lru)
  known_erase = All-map step (erase n c.lru) (
      All-erase_ne (λ x. (lookup x.1 c.iters ≡ some x.0) × (same n x.0 ≡ same k x.1)) n c.lru
        v.distinct (All-zip _ _ c.lru v.nodes_known (coherent v k n at)))
    where
      step :
          (x : Node)
          → ((lookup x.1 c.iters ≡ some x.0) × (same n x.0 ≡ same k x.1)) × (same n x.0 ≡ false)
          → lookup x.1 (erase k c.iters) ≡ some x.0
      step x h = rw (lookup-erase k x.1 c.iters v.iters_sorted) (ground (arith, same_comm x.1 k))

  -- Dropping the entry of a key with its node, as an eviction and an expiry do.
  pub drop_key-IsValid :
      (b : Bytes × D)
      → lookup k c.entries ≡ some b
      → IsValid
          (record c { entries = erase k c.entries; lru = erase n c.lru; iters = erase k c.iters })
  drop_key-IsValid b stored = record {
    positive = v.positive;
    bounded = omega (arith, length-erase k b c.entries stored, v.bounded);
    entries_sorted = erase-IsSorted k c.entries v.entries_sorted;
    iters_sorted = erase-IsSorted k c.iters v.iters_sorted;
    nodes_known = known_erase;
    iters_live = λ j m h. ground (
      arith,
      lookup-erase k j c.iters v.iters_sorted,
      lookup-erase_node n m c.lru v.distinct,
      v.iters_live j m,
      v.iters_live k n at,
      eq_of_same m n,
      same_refl k,
    );
    distinct = erase-Distinct n c.lru v.distinct;
    fresh = All-erase (λ x. x.0 < c.next_node) n c.lru v.fresh;
    domain = λ j. ground (
      arith,
      lookup-erase k j c.entries v.entries_sorted,
      lookup-erase k j c.iters v.iters_sorted,
      v.domain j,
    );
    same_size = omega (
      arith,
      length-erase k b c.entries stored,
      length-erase n k c.lru (v.iters_live k n at),
      v.same_size,
    );
  }

  -- Moving the node of a key to the front.
  pub splice-IsValid : IsValid (record c { lru = (n, k) ∷ erase n c.lru })
  splice-IsValid = record {
    positive = v.positive;
    bounded = v.bounded;
    entries_sorted = v.entries_sorted;
    iters_sorted = v.iters_sorted;
    nodes_known = (at, All-erase (λ x. lookup x.1 c.iters ≡ some x.0) n c.lru v.nodes_known);
    iters_live = λ j m h.
        unfold lookup in
        ground (
          arith,
          lookup-erase_node n m c.lru v.distinct,
          v.iters_live j m,
          v.iters_live k n at,
          eq_of_same m n,
        );
    distinct = (
      All-map (λ x h. rw (same_comm x.0 n) h.1) (erase n c.lru)
          (All-erase_ne (λ x. x.0 < c.next_node) n c.lru v.distinct v.fresh),
      erase-Distinct n c.lru v.distinct,
    );
    fresh = (
      All-lookup (λ x. x.0 < c.next_node) n k c.lru (v.iters_live k n at) v.fresh,
      All-erase (λ x. x.0 < c.next_node) n c.lru v.fresh,
    );
    domain = v.domain;
    same_size = omega (arith, length-erase n k c.lru (v.iters_live k n at), v.same_size);
  }

-- The counters are free.
pub count-IsValid :
    {D : Type 0} (c : LruCache D) (h m e : ℕ)
    → IsValid c
    → IsValid (record c { hits = h; misses = m; evictions = e })
count-IsValid c h m e v = record {
  positive = v.positive;
  bounded = v.bounded;
  entries_sorted = v.entries_sorted;
  iters_sorted = v.iters_sorted;
  nodes_known = v.nodes_known;
  iters_live = v.iters_live;
  distinct = v.distinct;
  fresh = v.fresh;
  domain = v.domain;
  same_size = v.same_size;
}

-- Storing a value under a key that is present.
pub assign-IsValid :
    {D : Type 0} (c : LruCache D) (k : Bytes) (b b' : Bytes × D)
    → IsValid c
    → lookup k c.entries ≡ some b
    → IsValid (record c { entries = insert k b' c.entries })
assign-IsValid c k b b' v stored = record {
  positive = v.positive;
  bounded = omega (arith, length-insert_old k b' b c.entries v.entries_sorted stored, v.bounded);
  entries_sorted = insert-IsSorted k b' c.entries v.entries_sorted;
  iters_sorted = v.iters_sorted;
  nodes_known = v.nodes_known;
  iters_live = v.iters_live;
  distinct = v.distinct;
  fresh = v.fresh;
  domain = λ j. ground (arith, lookup-insert k j b' c.entries, v.domain j, eq_of_same j k);
  same_size =
      omega (arith, length-insert_old k b' b c.entries v.entries_sorted stored, v.same_size);
}

-- Storing a value under a new key, with a new node, where there is room.
pub push-IsValid :
    {D : Type 0} (c : LruCache D) (k : Bytes) (b : Bytes × D)
    → IsValid c
    → lookup k c.entries ≡ none
    → length c.entries < c.max_entries
    → IsValid (record c {
      entries = insert k b c.entries;
      lru = (c.next_node, k) ∷ c.lru;
      iters = insert k c.next_node c.iters;
      next_node = c.next_node + 1;
    })
push-IsValid c k b v absent room = record {
  positive = v.positive;
  bounded = omega (arith, length-insert_new k b c.entries absent);
  entries_sorted = insert-IsSorted k b c.entries v.entries_sorted;
  iters_sorted = insert-IsSorted k c.next_node c.iters v.iters_sorted;
  nodes_known = (
    lookup-insert_self k c.next_node c.iters,
    All-map
        (λ x known.
          ground (arith, lookup-insert k x.1 c.next_node c.iters, eq_of_same x.1 k, v.domain k))
        c.lru v.nodes_known,
  );
  iters_live = λ j m h.
      unfold lookup in
      ground (
        arith,
        lookup-insert k j c.next_node c.iters,
        eq_of_same j k,
        eq_of_same m c.next_node,
        same_refl c.next_node,
        v.iters_live j m,
        live_below j m,
      );
  distinct = (All-map (λ x h. ground arith) c.lru v.fresh, v.distinct);
  fresh = (omega arith, All-map (λ x h. omega arith) c.lru v.fresh);
  domain = λ j.
      ground
        (arith, lookup-insert k j b c.entries, lookup-insert k j c.next_node c.iters, v.domain j);
  same_size = omega (arith, length-insert_new k b c.entries absent, v.same_size);
}
  where
    live_below : (j : Bytes) (m : ℕ) → lookup m c.lru ≡ some j → m < c.next_node
    live_below j m h = All-lookup (λ x. x.0 < c.next_node) m j c.lru h v.fresh
