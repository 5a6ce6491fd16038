-- ===== src/Cache/Tests.antt =====
-- Runs of the cache, and the theorems at concrete inputs. The clock and the times to live are whole
-- milliseconds.
use ngx_lua_cpp.Prelude.{ℕ, ◌≤◌, ◌≡◌, refl, Bool, true, false, some, List, [], ◌∷◌, length, arith}
use ngx_lua_cpp.Prelude.Order.{bytes_ord, compare_bytes}
use ngx_lua_cpp.Prelude.Text.{Bytes, codes}
use ngx_lua_cpp.Prelude.Double.{whole_double}
use ngx_lua_cpp.Prelude.Map.{eq_of_same, lookup, insert, erase}
use ngx_lua_cpp.Cache.{
  LruCache, init, set, get, unlink, splice, pop_back, evict, cache_set, cache_get,
}
use ngx_lua_cpp.Cache.Valid.{IsValid}
use ngx_lua_cpp.Cache.Spec.{view, spec_set, spec_get}
use ngx_lua_cpp.Cache.Stores
use ngx_lua_cpp.Cache.Reads
use ngx_lua_cpp.Cache.Runs
use ngx_lua_cpp.Cache.Runs.{Call, run, step}

program : Unit {0}
unfolding init set get unlink splice pop_back evict cache_set cache_get lookup insert erase
    compare_bytes run step
program = tt

abbrev a : Bytes
a = codes "a"

abbrev b : Bytes
b = codes "b"

-- A cache that holds two entries at most; `a` was stored first, and expires at time 15.
abbrev two : LruCache ℕ
two = record {
  max_entries = 2;
  hits = 0;
  misses = 0;
  evictions = 0;
  lru = (1, b) ∷ (0, a) ∷ [];
  entries = (a, (codes "x", 15)) ∷ (b, (codes "y", 0)) ∷ [];
  iters = (a, 0) ∷ (b, 1) ∷ [];
  next_node = 2;
}

two_stores :
    run whole_double
      (Call.store 5 a (codes "x") 10 ∷ Call.store 5 b (codes "y") 0 ∷ [])
      (record (init whole_double) { max_entries = 2 })
    ≡ some two
unfolding program
two_stores = refl

evicts :
    set whole_double 5 (codes "c") (codes "z") 0 two
    ≡ some (
      record two {
        evictions = 1;
        lru = (2, codes "c") ∷ (1, b) ∷ [];
        entries = (b, (codes "y", 0)) ∷ (codes "c", (codes "z", 0)) ∷ [];
        iters = (b, 1) ∷ (codes "c", 2) ∷ [];
        next_node = 3;
      },
      true,
    )
unfolding program
evicts = refl

expires :
    get whole_double 15 a two
    ≡ some (
      record two {
        misses = 1;
        lru = (1, b) ∷ [];
        entries = (b, (codes "y", 0)) ∷ [];
        iters = (b, 1) ∷ [];
      },
      (false, [], 0),
    )
unfolding program
expires = refl

two-IsValid : IsValid two
unfolding program
two-IsValid = record {
  positive = omega arith;
  bounded = omega arith;
  entries_sorted = ((refl, tt), (tt, tt));
  iters_sorted = ((refl, tt), (tt, tt));
  nodes_known = (refl, (refl, tt));
  iters_live = λ k n h. ground (arith, eq_of_same k a, eq_of_same k b);
  distinct = ((refl, tt), (tt, tt));
  fresh = omega arith;
  domain = λ k. ground arith;
  same_size = refl;
}

set-refines_example :
    (c' : LruCache ℕ) × (set whole_double 7 (codes "c") (codes "z") 0 two ≡ some (c', true))
    × IsValid c'
    × (view c' ≡ spec_set whole_double 2 7 (codes "c") (codes "z") 0 (view two))
set-refines_example = Stores.set-refines whole_double 7 0 (codes "c") (codes "z") two two-IsValid

get-refines_example :
    (c' : LruCache ℕ) × (r : Bool × Bytes × ℕ) × (get whole_double 15 a two ≡ some (c', r))
    × IsValid c'
    × ((view c', r) ≡ spec_get whole_double 15 a (view two))
get-refines_example = Reads.get-refines whole_double 15 a two two-IsValid

abbrev calls : List (Call ℕ)
calls = Call.store 5 a (codes "x") 10 ∷ Call.read 9 a ∷ Call.read 20 b ∷ []

run-init-IsValid_example :
    (c : LruCache ℕ) × (run whole_double calls (init whole_double) ≡ some c)
    × IsValid c
    × (length c.entries ≤ 1024)
run-init-IsValid_example = Runs.run-init-IsValid whole_double calls

abbrev stored : LruCache ℕ
stored = record two {
  lru = (0, a) ∷ (1, b) ∷ [];
  entries = (a, (codes "z", 12)) ∷ (b, (codes "y", 0)) ∷ [];
}

stores_again : set whole_double 7 a (codes "z") 5 two ≡ some (stored, true)
unfolding program
stores_again = refl
