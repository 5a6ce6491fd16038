-- ===== src/Prelude/Map.antt =====
-- `std::map` as an association list that is kept sorted by its key.
pub mod Sorted
use Prim.Native.Nat.{Ordering}
use ngx_lua_cpp.Prelude.{
  ℕ, suc, ◌+◌, ◌≤◌, ◌≡◌, refl, ◌≢◌, Bool, true, false, List, [], ◌∷◌, Option, none, some, arith,
  length, if◌then◌else◌,
}
use ngx_lua_cpp.Prelude.Order.{Ord, same}

abbrev pub Map {ℓ κ} : Type ℓ → Type κ → Type (ℓ ⊔ κ)
Map K V = List (K × V)

module _ {ℓ} {K : Type ℓ} ⦃o : Ord K⦄ where
  pub same_refl : (k : K) → same k k ≡ true
  same_refl k = rw (same, o.cmp_refl k)

  pub eq_of_same : (k j : K) → same k j ≡ true → k ≡ j
  eq_of_same k j h = ground (arith, o.eq_of_cmp k j)

  pub same_comm : (k j : K) → same k j ≡ same j k
  same_comm k j = ground (arith, o.eq_of_cmp k j, o.eq_of_cmp j k, o.cmp_refl k, o.cmp_refl j)

  pub same_of_ne : (k j : K) → k ≢ j → same k j ≡ false
  same_of_ne k j h = ground (arith, o.eq_of_cmp k j)

module _ {ℓ κ} {K : Type ℓ} {V : Type κ} ⦃o : Ord K⦄ where
  -- `find`
  unfoldable pub lookup : K → Map K V → Option V
  lookup k [] = none
  lookup k ((j, w) ∷ m) = if same k j then some w else lookup k m

  -- `m[k] = v`
  unfoldable pub insert : K → V → Map K V → Map K V
  insert k v [] = (k, v) ∷ []
  insert k v ((j, w) ∷ m) = elim (o.cmp k j) [
    | Ordering.lt ↦ (k, v) ∷ (j, w) ∷ m
    | Ordering.eq ↦ (k, v) ∷ m
    | Ordering.gt ↦ (j, w) ∷ insert k v m
  ]

  -- `m.erase(k)`
  unfoldable pub erase : K → Map K V → Map K V
  erase k [] = []
  erase k ((j, w) ∷ m) = if same k j then m else (j, w) ∷ erase k m

  pub lookup-insert :
      (k j : K) (v : V) (m : Map K V)
      → lookup j (insert k v m) ≡ (if same j k then some v else lookup j m)
  unfolding lookup insert
  lookup-insert k j v [] = refl
  lookup-insert k j v ((i, w) ∷ m) = ground (
    arith,
    o.eq_of_cmp k i,
    o.eq_of_cmp j k,
    o.eq_of_cmp j i,
    o.cmp_refl k,
    lookup-insert k j v m,
  )

  pub lookup-insert_self : (k : K) (v : V) (m : Map K V) → lookup k (insert k v m) ≡ some v
  lookup-insert_self k v m = rw (lookup-insert k k v m, same_refl k)
