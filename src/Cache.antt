-- ===== src/Cache.antt =====
-- The LRU cache with expiry: `lru_cache_t` and the methods `cache_set`, `cache_get` and
-- `cache_stats` of src/ngx_lua_cpp.cpp. The mutex makes each call one atomic step, so a call is a
-- function from the state to the state. The time that `now_ms` reads is an argument.
pub mod Nodes
pub mod Valid
pub mod Spec
pub mod Order
pub mod Stores
pub mod Reads
pub mod Runs
mod Tests
use ngx_lua_cpp.Prelude.{
  ℕ, zero, suc, ◌+◌, ◌%◌, ◌^◌, Bool, true, false, ◌&&◌, Option, none, some, List, [], ◌∷◌, length,
  leb, if◌then◌else◌, ◌>>=◌,
}
use ngx_lua_cpp.Prelude.Order.{same, nat_ord, bytes_ord}
use ngx_lua_cpp.Prelude.Text.{Bytes, codes}
use ngx_lua_cpp.Prelude.Map.{Map, lookup, insert, erase}
use ngx_lua_cpp.Prelude.Double.{Double, clamp_double}

-- A node of the `std::list`: its address, and the key that it holds.
abbrev pub Node : Type 0
Node = ℕ × Bytes

-- `entries` maps a key to its value and its expiry time (0 = never); `iters` maps it to the node
-- that its iterator points at. `next_node` is the address of the next node to be allocated.
pub record LruCache (D : Type 0) : Type 0 where
  pub max_entries : ℕ
  pub hits : ℕ
  pub misses : ℕ
  pub evictions : ℕ
  pub lru : List Node
  pub entries : Map Bytes (Bytes × D)
  pub iters : Map Bytes ℕ
  pub next_node : ℕ

-- `n++` on a `size_t`
abbrev pub increment : ℕ → ℕ
increment n = (n + 1) % 2 ^ 64

-- The node at an address, and the list without it; `none` if the iterator is not of this list.
unfoldable pub unlink : ℕ → List Node → Option (Node × List Node)
unlink n [] = none
unlink n (e ∷ l) =
    if same n e.0
    then some (e, l)
    else elim (unlink n l) [ none ↦ none | some (x, rest) ↦ some (x, e ∷ rest) ]

-- `back` and `pop_back`; `none` on an empty list, where both are undefined.
unfoldable pub pop_back : List Node → Option (Node × List Node)
pop_back [] = none
pop_back (e ∷ l) = elim (pop_back l) [ none ↦ some (e, []) | some (x, rest) ↦ some (x, e ∷ rest) ]

-- `lru.splice(lru.begin(), lru, it)`
unfoldable pub splice : ℕ → List Node → Option (List Node)
splice n l = do (e, rest) ← unlink n l; some (e ∷ rest)

module _ {D : Type 0} (d : Double D) where
  -- The constructor of the cache.
  unfoldable pub init : LruCache D
  init = record {
    max_entries = 1024;
    hits = 0;
    misses = 0;
    evictions = 0;
    lru = [];
    entries = [];
    iters = [];
    next_node = 0;
  }

  -- The block of `set` that makes room for a new key.
  unfoldable pub evict : LruCache D → Option (LruCache D)
  evict c =
      if leb c.max_entries (length c.entries)
      then (do
        (victim, rest) ← pop_back c.lru
        some (record c {
          lru = rest;
          entries = erase victim.1 c.entries;
          iters = erase victim.1 c.iters;
          evictions = increment c.evictions;
        }))
      else some c

  abbrev pub expiry : D → D → D
  expiry now ttl_ms = if d.lt (d.of_nat 0) ttl_ms then d.add now ttl_ms else d.of_nat 0

  -- `set` at the time `now`. `none` is undefined behaviour: an iterator that points at no node.
  unfoldable pub set : D → Bytes → Bytes → D → LruCache D → Option (LruCache D × Bool)
  unfolding evict splice
  set now key value ttl_ms c =
      let expire = expiry now ttl_ms in
      elim (lookup key c.entries) [
        | some _ ↦ do
          it ← lookup key c.iters
          lru ← splice it c.lru
          some (record c { entries = insert key (value, expire) c.entries; lru = lru }, true)
        | none ↦ do
          c' ← evict c
          some (
            record c' {
              entries = insert key (value, expire) c'.entries;
              lru = (c'.next_node, key) ∷ c'.lru;
              iters = insert key c'.next_node c'.iters;
              next_node = c'.next_node + 1;
            },
            true,
          )
      ]

  abbrev pub is_expired : D → D → Bool
  is_expired now expire = d.lt (d.of_nat 0) expire && d.le expire now

  abbrev pub missed : LruCache D → LruCache D × (Bool × Bytes × D)
  missed c = (record c { misses = increment c.misses }, (false, [], d.of_nat 0))

  -- `get` at the time `now`: found or not, the value, and the time that is left to it.
  unfoldable pub get : D → Bytes → LruCache D → Option (LruCache D × (Bool × Bytes × D))
  unfolding splice
  get now key c = elim (lookup key c.entries) [
    | none ↦ some (missed c)
    | some (value, expire) ↦
        if is_expired now expire
        then (do
          it ← lookup key c.iters
          (_, rest) ← unlink it c.lru
          some (
              missed (record c {
                entries = erase key c.entries;
                lru = rest;
                iters = erase key c.iters;
              })))
        else (do
          it ← lookup key c.iters
          lru ← splice it c.lru
          let remain = if d.lt (d.of_nat 0) expire then d.sub expire now else d.of_nat 0
          some (record c { hits = increment c.hits; lru = lru }, (true, value, remain)))
  ]

  -- `stats`
  unfoldable pub stats : LruCache D → Map Bytes D
  stats c = insert (codes "entries") (d.of_nat (length c.entries)) (
      insert (codes "max_entries") (d.of_nat c.max_entries) (
        insert (codes "hits") (d.of_nat c.hits) (
          insert (codes "misses") (d.of_nat c.misses)
            (insert (codes "evictions") (d.of_nat c.evictions) []))))

  -- `cache_set`: the time to live is at most a day.
  unfoldable pub cache_set : D → Bytes → Bytes → D → LruCache D → Option (LruCache D × Bool)
  cache_set now key value ttl_ms =
      set now key value (clamp_double d ttl_ms (d.of_nat 0) (d.of_nat 86400000))

  unfoldable pub cache_get : D → Bytes → LruCache D → Option (LruCache D × (Bool × Bytes × D))
  cache_get now key = get now key

  unfoldable pub cache_stats : LruCache D → Map Bytes D
  cache_stats c = stats c
