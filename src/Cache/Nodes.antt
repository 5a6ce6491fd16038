-- ===== src/Cache/Nodes.antt =====
-- The linked list of the cache: what `unlink` and `pop_back` leave.
use ngx_lua_cpp.Prelude.{
  ℕ, suc, ◌≡◌, refl, Bool, true, false, none, some, List, [], ◌∷◌, length, All, subst, arith,
  All-map, All-zip, take, ap, if◌then◌else◌, map, Bool-cases, inl, inr,
}
use ngx_lua_cpp.Prelude.Order.{same, nat_ord, bytes_ord}
use ngx_lua_cpp.Prelude.Text.{Bytes}
use ngx_lua_cpp.Prelude.Map.{lookup, erase, same_refl, eq_of_same}
use ngx_lua_cpp.Cache.{Node, unlink, pop_back}

-- No two nodes share an address.
abbrev pub Distinct : List Node → Type 0
Distinct [] = Unit
Distinct (e ∷ l) = All (λ x. same x.0 e.0 ≡ false) l × Distinct l

-- The keys, most recently used first.
abbrev pub keys : List Node → List Bytes
keys = map (λ e. e.1)

-- The first occurrence of a key is dropped.
unfoldable pub remove : Bytes → List Bytes → List Bytes
remove k [] = []
remove k (j ∷ l) = if same k j then l else j ∷ remove k l

unfoldable pub contains : Bytes → List Bytes → Bool
contains k [] = false
contains k (j ∷ l) = if same k j then true else contains k l

-- A live address is unlinked, and gives its key.
pub unlink-erase :
    (n : ℕ) (k : Bytes) (l : List Node)
    → lookup n l ≡ some k
    → unlink n l ≡ some ((n, k), erase n l)
unfolding lookup unlink erase
unlink-erase n k [] h = ground arith
unlink-erase n k (e ∷ l) h = ground (arith, eq_of_same n e.0, unlink-erase n k l)

pub All-erase {ℓ} : (P : Node → Type ℓ) (n : ℕ) (l : List Node) → All P l → All P (erase n l)
unfolding erase
All-erase P n [] a = a
All-erase P n (e ∷ l) a = elim (Bool-cases (same n e.0)) [
  | inl here ↦ rw (here, erase) a.1
  | inr there ↦ rw (there, erase) (a.0, All-erase P n l a.1)
]

pub erase-Distinct : (n : ℕ) (l : List Node) → Distinct l → Distinct (erase n l)
unfolding erase
erase-Distinct n [] a = tt
erase-Distinct n (e ∷ l) a =
    ground (arith, erase-Distinct n l, All-erase (λ x. same x.0 e.0 ≡ false) n l)

lookup_of_fresh : (n : ℕ) (l : List Node) → All (λ x. same x.0 n ≡ false) l → lookup n l ≡ none
unfolding lookup
lookup_of_fresh n [] a = refl
lookup_of_fresh n (e ∷ l) a = ground (arith, lookup_of_fresh n l a.1)

pub lookup-erase_node :
    (n m : ℕ) (l : List Node)
    → Distinct l
    → lookup m (erase n l) ≡ (if same m n then none else lookup m l)
unfolding lookup erase
lookup-erase_node n m [] a = ground arith
lookup-erase_node n m (e ∷ l) a =
    ground (arith, lookup-erase_node n m l a.1, lookup_of_fresh e.0 l a.0)

-- Unlinking the only node of a key drops the key from the order.
pub keys-erase :
    (n : ℕ) (k : Bytes) (l : List Node)
    → All (λ x. same n x.0 ≡ same k x.1) l
    → keys (erase n l) ≡ remove k (keys l)
unfolding erase remove
keys-erase n k [] a = refl
keys-erase n k (e ∷ l) a = ground (arith, keys-erase n k l a.1)

pub length-keys : (l : List Node) → length (keys l) ≡ length l
length-keys [] = refl
length-keys (e ∷ l) = ap suc (length-keys l)

-- The last node of a list that is not empty.
abbrev pub last : Node → List Node → Node
last e [] = e
last e (x ∷ l) = last x l

pub All-last {ℓ} : (P : Node → Type ℓ) (e : Node) (l : List Node) → All P (e ∷ l) → P (last e l)
All-last P e [] a = a.0
All-last P e (x ∷ l) a = All-last P x l a.1

pub pop_back-last :
    (e : Node) (l : List Node)
    → Distinct (e ∷ l)
    → (pop_back (e ∷ l) ≡ some (last e l, erase (last e l).0 (e ∷ l)))
      × (lookup (last e l).0 (e ∷ l) ≡ some (last e l).1)
      × (keys (erase (last e l).0 (e ∷ l)) ≡ take (length l) (keys (e ∷ l)))
unfolding pop_back erase lookup
pop_back-last e [] a = ground (arith, same_refl e.0)
pop_back-last e (x ∷ l) a =
    let (popped, found, order) = pop_back-last x l a.1 in
    let other = All-last (λ y. same y.0 e.0 ≡ false) x l a.0 in
    (rw (other, erase, popped), rw (other, lookup) found, rw (other, erase) (ap (◌∷◌ e.1) order))

-- What is left after the unlinking has another address.
pub All-erase_ne {ℓ} :
    (P : Node → Type ℓ) (n : ℕ) (l : List Node)
    → Distinct l
    → All P l
    → All (λ x. P x × (same n x.0 ≡ false)) (erase n l)
unfolding erase
All-erase_ne P n [] d a = tt
All-erase_ne P n (e ∷ l) d a = elim (Bool-cases (same n e.0)) [
  | inl here ↦ rw (here, erase) (All-map (λ x h. (h.0, other x h.1 here)) l (All-zip P _ l a.1 d.0))
  | inr there ↦ rw (there, erase) ((a.0, there), All-erase_ne P n l d.1 a.1)
]
  where
    other : (x : Node) → same x.0 e.0 ≡ false → same n e.0 ≡ true → same n x.0 ≡ false
    other x p q = ground arith

pub All-lookup {ℓ} :
    (P : Node → Type ℓ) (n : ℕ) (k : Bytes) (l : List Node)
    → lookup n l ≡ some k
    → All P l
    → P (n, k)
unfolding lookup
All-lookup P n k [] h a = absurd (ground arith)
All-lookup P n k (e ∷ l) h a = elim (Bool-cases (same n e.0)) [
  | inl here ↦ let at : (e.0, e.1) ≡ (n, k) = ground (arith, eq_of_same n e.0) in subst P at a.0
  | inr there ↦ All-lookup P n k l (rw there at h) a.1
]
