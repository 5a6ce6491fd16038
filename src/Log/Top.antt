-- ===== src/Log/Top.antt =====
-- The lists that a report shows.
use ngx_lua_cpp.Prelude.{
  ℕ, zero, suc, ◌≤◌, ◌≡◌, refl, ap, sym, ◌∙◌, Bool, List, [], ◌∷◌, ◌++◌, length, take, drop,
  length-take, take-append-drop, subst, All, ltb, arith, Bool-cases, inl, inr,
}
use mathlib.Core.List.{Perm}
use mathlib.Core.List.Perm
use ngx_lua_cpp.Prelude.Map.{Map}
use ngx_lua_cpp.Prelude.Text.{Bytes}
use ngx_lua_cpp.Log.{sort_in, sort, top_urls}

abbrev Below : ℕ → Bytes × ℕ → Type 0
Below n e = e.1 ≤ n

-- Each entry counts as much as any that follows.
abbrev pub IsDescending : List (Bytes × ℕ) → Type 0
IsDescending [] = Unit
IsDescending (e ∷ es) = All (λ (f : Bytes × ℕ). f.1 ≤ e.1) es × IsDescending es

abbrev more : Bytes × ℕ → Bytes × ℕ → Bool
more a b = ltb b.1 a.1

length-sort_in :
    {A : Type 0} (before : A → A → Bool) (a : A) (bs : List A)
    → length (sort_in before a bs) ≡ suc (length bs)
unfolding sort_in
length-sort_in before a [] = refl
length-sort_in before a (b ∷ bs) = ground (arith, length-sort_in before a bs)

pub length-sort :
    {A : Type 0} (before : A → A → Bool) (bs : List A) → length (sort before bs) ≡ length bs
unfolding sort
length-sort before [] = refl
length-sort before (b ∷ bs) =
    length-sort_in before b (sort before bs) ∙ ap suc (length-sort before bs)

Below-sort_in :
    (n : ℕ) (a : Bytes × ℕ) (bs : List (Bytes × ℕ))
    → a.1 ≤ n
    → All (Below n) bs
    → All (Below n) (sort_in more a bs)
unfolding sort_in
Below-sort_in n a [] p h = (p, tt)
Below-sort_in n a (b ∷ bs) p h = ground (arith, Below-sort_in n a bs)

Below-trans : (m n : ℕ) (bs : List (Bytes × ℕ)) → m ≤ n → All (Below m) bs → All (Below n) bs
Below-trans m n [] p h = tt
Below-trans m n (b ∷ bs) p h = (omega (arith, h.0), Below-trans m n bs p h.1)

sort_in-IsDescending :
    (a : Bytes × ℕ) (bs : List (Bytes × ℕ)) → IsDescending bs → IsDescending (sort_in more a bs)
unfolding sort_in
sort_in-IsDescending a [] h = (tt, tt)
sort_in-IsDescending a (b ∷ bs) h = elim (Bool-cases (ltb a.1 b.1)) [
  | inl after ↦
      rw after (Below-sort_in b.1 a bs (ground (arith, after)) h.0, sort_in-IsDescending a bs h.1)
  | inr first ↦ rw first (
      let above : b.1 ≤ a.1 = ground (arith, first) in
      ((above, Below-trans b.1 a.1 bs above h.0), h))
]

sort-IsDescending : (bs : List (Bytes × ℕ)) → IsDescending (sort more bs)
unfolding sort
sort-IsDescending [] = tt
sort-IsDescending (b ∷ bs) = sort_in-IsDescending b (sort more bs) (sort-IsDescending bs)

sort_in-Perm :
    {A : Type 0} (before : A → A → Bool) (a : A) (bs : List A) → Perm (sort_in before a bs) (a ∷ bs)
unfolding sort_in
sort_in-Perm before a [] = Perm.rfl
sort_in-Perm before a (b ∷ bs) = elim (Bool-cases (before b a)) [
  | inl after ↦ rw after (Perm.trans (Perm.cons b (sort_in-Perm before a bs)) (Perm.swap a b bs))
  | inr first ↦ rw first Perm.rfl
]

pub sort-Perm : {A : Type 0} (before : A → A → Bool) (bs : List A) → Perm (sort before bs) bs
unfolding sort
sort-Perm before [] = Perm.rfl
sort-Perm before (b ∷ bs) =
    Perm.trans (sort_in-Perm before b (sort before bs)) (Perm.cons b (sort-Perm before bs))

All-take : {A : Type 0} (P : A → Type 0) (n : ℕ) (xs : List A) → All P xs → All P (take n xs)
All-take P zero xs h = tt
All-take P (suc n) [] h = tt
All-take P (suc n) (x ∷ xs) h = (h.0, All-take P n xs h.1)

All-drop : {A : Type 0} (P : A → Type 0) (n : ℕ) (xs : List A) → All P xs → All P (drop n xs)
All-drop P zero xs h = h
All-drop P (suc n) [] h = tt
All-drop P (suc n) (x ∷ xs) h = All-drop P n xs h.1

take-IsDescending : (n : ℕ) (es : List (Bytes × ℕ)) → IsDescending es → IsDescending (take n es)
take-IsDescending zero es h = tt
take-IsDescending (suc n) [] h = tt
take-IsDescending (suc n) (e ∷ es) h = (All-take (Below e.1) n es h.0, take-IsDescending n es h.1)

-- What is left out of the first `n` counts no more than what is in.
abbrev pub Exceed : List (Bytes × ℕ) → List (Bytes × ℕ) → Type 0
Exceed shown hidden = All (λ (e : Bytes × ℕ). All (λ (f : Bytes × ℕ). f.1 ≤ e.1) hidden) shown

take-Exceed : (n : ℕ) (es : List (Bytes × ℕ)) → IsDescending es → Exceed (take n es) (drop n es)
take-Exceed zero es h = tt
take-Exceed (suc n) [] h = tt
take-Exceed (suc n) (e ∷ es) h = (All-drop (Below e.1) n es h.0, take-Exceed n es h.1)

-- The addresses that a report shows are at most twenty, each counts as much as any after it, and with
-- the ones that are left out, each of which counts no more than any shown, they are all the counted
-- addresses.
pub top_urls-IsDescending :
    (counts : Map Bytes ℕ)
    → (length (top_urls counts) ≤ 20)
      × IsDescending (top_urls counts)
      × ((hidden : List (Bytes × ℕ)) × Perm (top_urls counts ++ hidden) counts
          × Exceed (top_urls counts) hidden)
unfolding top_urls
top_urls-IsDescending counts =
    let sorted = sort more counts in
    let order = sort-IsDescending counts in
    (
      omega (arith, length-take 20 sorted),
      take-IsDescending 20 sorted order,
      (
        drop 20 sorted,
        subst (λ (l : List (Bytes × ℕ)). Perm l counts) (sym (take-append-drop 20 sorted))
            (sort-Perm more counts),
        take-Exceed 20 sorted order,
      ),
    )
