-- ===== src/Prelude/Map/Sorted.antt =====
-- What depends on the order of the keys: erasing, the size, and which key comes first.
use Prim.Native.Nat.{Ordering}
use ngx_lua_cpp.Prelude.{◌+◌, ◌≡◌, refl, [], ◌∷◌, none, some, arith, length, All, if◌then◌else◌}
use ngx_lua_cpp.Prelude.Order.{Ord, same}
use ngx_lua_cpp.Prelude.Map.{Map, lookup, insert, erase}

module _ {ℓ κ} {K : Type ℓ} {V : Type κ} ⦃o : Ord K⦄ where
  abbrev pub Above : K → K × V → Type 0
  Above k e = o.cmp k e.0 ≡ Ordering.lt

  -- Strictly increasing keys.
  abbrev pub IsSorted : Map K V → Type 0
  IsSorted [] = Unit
  IsSorted (e ∷ m) = All (Above e.0) m × IsSorted m

  pub Above-trans :
      (k j : K) (m : Map K V) → o.cmp k j ≡ Ordering.lt → All (Above j) m → All (Above k) m
  Above-trans k j [] h a = tt
  Above-trans k j (e ∷ m) h a = (o.lt_trans k j e.0 h a.0, Above-trans k j m h a.1)

  Above-insert :
      (i k : K) (v : V) (m : Map K V)
      → o.cmp i k ≡ Ordering.lt
      → All (Above i) m
      → All (Above i) (insert k v m)
  unfolding insert
  Above-insert i k v [] h a = (h, tt)
  Above-insert i k v (e ∷ m) h a = ground (arith, Above-insert i k v m)

  pub insert-IsSorted : (k : K) (v : V) (m : Map K V) → IsSorted m → IsSorted (insert k v m)
  unfolding insert
  insert-IsSorted k v [] s = (tt, tt)
  insert-IsSorted k v (e ∷ m) s = ground (
    arith,
    insert-IsSorted k v m,
    o.eq_of_cmp k e.0,
    o.lt_of_gt k e.0,
    Above-trans k e.0 m,
    Above-insert e.0 k v m,
  )

  pub lookup_of_Above : (k : K) (m : Map K V) → All (Above k) m → lookup k m ≡ none
  unfolding lookup
  lookup_of_Above k [] a = refl
  lookup_of_Above k (e ∷ m) a = ground (arith, lookup_of_Above k m)

  Above-erase : (i k : K) (m : Map K V) → All (Above i) m → All (Above i) (erase k m)
  unfolding erase
  Above-erase i k [] a = tt
  Above-erase i k (e ∷ m) a = ground (arith, Above-erase i k m)

  pub erase-IsSorted : (k : K) (m : Map K V) → IsSorted m → IsSorted (erase k m)
  unfolding erase
  erase-IsSorted k [] s = tt
  erase-IsSorted k (e ∷ m) s = ground (arith, erase-IsSorted k m, Above-erase e.0 k m)

  pub lookup-erase :
      (k j : K) (m : Map K V)
      → IsSorted m
      → lookup j (erase k m) ≡ (if same j k then none else lookup j m)
  unfolding lookup erase
  lookup-erase k j [] s = ground arith
  lookup-erase k j (e ∷ m) s = ground (
    arith,
    o.eq_of_cmp k e.0,
    o.eq_of_cmp j k,
    o.eq_of_cmp j e.0,
    o.cmp_refl k,
    lookup-erase k j m,
    lookup_of_Above e.0 m,
  )

  pub length-erase :
      (k : K) (v : V) (m : Map K V) → lookup k m ≡ some v → length (erase k m) + 1 ≡ length m
  unfolding lookup erase
  length-erase k v [] h = ground arith
  length-erase k v (e ∷ m) h = ground (arith, length-erase k v m)

  pub length-insert_new :
      (k : K) (v : V) (m : Map K V) → lookup k m ≡ none → length (insert k v m) ≡ length m + 1
  unfolding lookup insert
  length-insert_new k v [] h = omega arith
  length-insert_new k v (e ∷ m) h = ground (arith, length-insert_new k v m)

  pub length-insert_old :
      (k : K) (v w : V) (m : Map K V)
      → IsSorted m
      → lookup k m ≡ some w
      → length (insert k v m) ≡ length m
  unfolding lookup insert
  length-insert_old k v w [] s h = ground arith
  length-insert_old k v w (e ∷ m) s h =
      ground (arith, length-insert_old k v w m, Above-trans k e.0 m, lookup_of_Above k m)

  pub All-insert {μ} :
      (P : K × V → Type μ) (k : K) (v : V) (m : Map K V) → P (k, v) → All P m → All P (insert k v m)
  unfolding insert
  All-insert P k v [] p a = (p, tt)
  All-insert P k v ((j, w) ∷ m) p a = All-cases (o.cmp k j) (a.0, All-insert P k v m p a.1)
    where
      All-cases :
          (c : Ordering)
          → (P (j, w)) × All P (insert k v m)
          → All P (elim c [
            | Ordering.lt ↦ (k, v) ∷ (j, w) ∷ m
            | Ordering.eq ↦ (k, v) ∷ m
            | Ordering.gt ↦ (j, w) ∷ insert k v m
          ])
      All-cases Ordering.lt h = (p, a)
      All-cases Ordering.eq h = (p, a.1)
      All-cases Ordering.gt h = h
