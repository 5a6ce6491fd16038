-- ===== src/Cache/Order.antt =====
-- The order of use against the maps: the keys of the list are the keys that are stored.
use ngx_lua_cpp.Prelude.{
  ℕ, ◌+◌, ◌≡◌, refl, true, false, some, List, [], ◌∷◌, length, All, has, arith, Option-cases, inl,
  inr,
}
use ngx_lua_cpp.Prelude.Order.{same, nat_ord, bytes_ord}
use ngx_lua_cpp.Prelude.Text.{Bytes}
use ngx_lua_cpp.Prelude.Map.{lookup, same_refl, eq_of_same}
use ngx_lua_cpp.Cache.{Node, LruCache}
use ngx_lua_cpp.Cache.Nodes.{keys, remove, contains}
use ngx_lua_cpp.Cache.Valid.{IsValid}
use ngx_lua_cpp.Cache.Spec.{View}

contains_of_lookup :
    (n : ℕ) (k : Bytes) (l : List Node) → lookup n l ≡ some k → contains k (keys l) ≡ true
unfolding lookup contains
contains_of_lookup n k [] h = ground arith
contains_of_lookup n k (x ∷ l) h = ground (arith, contains_of_lookup n k l, same_refl k)

has_of_contains :
    {D : Type 0} (c : LruCache D) (k : Bytes) (l : List Node)
    → All (λ x. lookup x.1 c.iters ≡ some x.0) l
    → contains k (keys l) ≡ true
    → has (lookup k c.iters) ≡ true
unfolding contains
has_of_contains c k [] a h = ground arith
has_of_contains c k (x ∷ l) a h = ground (arith, has_of_contains c k l a.1, eq_of_same k x.1)

-- The order lists exactly the keys that are stored.
pub contains-has :
    {D : Type 0} {c : LruCache D} (v : IsValid c) (k : Bytes)
    → contains k (keys c.lru) ≡ has (lookup k c.entries)
contains-has {c} v k = elim (Option-cases (lookup k c.iters)) [
  | inl out ↦ ground (arith, has_of_contains c k c.lru v.nodes_known, v.domain k)
  | inr (n, at) ↦ ground (arith, contains_of_lookup n k c.lru (v.iters_live k n at), v.domain k)
]

pub remove_absent : (k : Bytes) (l : List Bytes) → contains k l ≡ false → remove k l ≡ l
unfolding contains remove
remove_absent k [] h = refl
remove_absent k (j ∷ l) h = ground (arith, remove_absent k l)

pub length-remove :
    (k : Bytes) (l : List Bytes) → contains k l ≡ true → length (remove k l) + 1 ≡ length l
unfolding contains remove
length-remove k [] h = ground arith
length-remove k (j ∷ l) h = ground (arith, length-remove k l)

pub contains_head : (j k : Bytes) (l : List Bytes) → same j k ≡ true → contains j (k ∷ l) ≡ true
unfolding contains
contains_head j k l h = rw h

pub view_path :
    {D : Type 0} (w w' : View D)
    → w.order ≡ w'.order
    → ((j : Bytes) → w.find j ≡ w'.find j)
    → w ≡ w'
view_path w w' p q = λ i. record { order = p i; find = λ j. q j i }
