-- ===== src/Hook/Rings.antt =====
-- The circular list implements a list of events.
use ngx_lua_cpp.Prelude.{
  ℕ, ◌≢◌, ◌≡◌, refl, sym, ◌∙◌, false, List, [], ◌∷◌, ◌++◌, All, ◌==◌, arith, subst,
}
use ngx_lua_cpp.Hook.Queue.{Links, write, ngx_queue_insert_tail, ngx_queue_remove}

-- Both links of each step from `a` over the events to `b`.
abbrev pub Chain : Links → ℕ → List ℕ → ℕ → Type 0
Chain q a [] b = (q.next a ≡ b) × (q.prev b ≡ a)
Chain q a (x ∷ xs) b = (q.next a ≡ x) × (q.prev x ≡ a) × Chain q x xs b

abbrev pub Apart : ℕ → List ℕ → Type 0
Apart a xs = All (λ x. x ≢ a) xs

abbrev pub IsDistinct : List ℕ → Type 0
IsDistinct [] = Unit
IsDistinct (x ∷ xs) = Apart x xs × IsDistinct xs

-- The list with head `h` holds the events, each once.
abbrev pub IsRing : Links → ℕ → List ℕ → Type 0
IsRing q h xs = Chain q h xs h × Apart h xs × IsDistinct xs

-- The last event is the one before the head.
last-Apart :
    (q : Links) (a b : ℕ) (ys : List ℕ) (h : ℕ) → Chain q b ys h → b ≢ a → Apart a ys → q.prev h ≢ a
last-Apart q a b [] h c ne ap' = λ e. ne (sym c.1 ∙ e)
last-Apart q a b (y ∷ ys) h c ne ap' = last-Apart q a y ys h c.2 ap'.0 ap'.1

insert_Chain :
    (q : Links) (a : ℕ) (xs : List ℕ) (h x : ℕ)
    → Chain q a xs h
    → a ≢ x
    → h ≢ x
    → Apart a xs
    → Apart x xs
    → Apart h xs
    → IsDistinct xs
    → Chain (ngx_queue_insert_tail h x q) a (xs ++ x ∷ []) h
unfolding ngx_queue_insert_tail
insert_Chain q a [] h x c ax hx fa fx fh dist = (
  ground (arith, c.0, c.1, ax, hx),
  ground (arith, c.0, c.1, ax, hx),
  (ground (arith, c.0, c.1, ax, hx), ground (arith, c.0, c.1, ax, hx)),
)
insert_Chain q a (y ∷ ys) h x c ax hx fa fx fh dist =
    let far : q.prev h ≢ a = last-Apart q a y ys h c.2 fa.0 fa.1 in
    let yx : y ≢ x = fx.0 in
    let yh : y ≢ h = fh.0 in
    (
      ground (arith, c.0, ax, far),
      ground (arith, c.1, yx, yh),
      insert_Chain q y ys h x c.2 fx.0 hx dist.0 fx.1 fh.1 dist.1,
    )

-- Links that agree on the steps.
frame :
    (q r : Links) (a : ℕ) (xs : List ℕ) (b : ℕ)
    → Chain q a xs b
    → r.next a ≡ q.next a
    → All (λ u. r.next u ≡ q.next u) xs
    → All (λ u. r.prev u ≡ q.prev u) xs
    → r.prev b ≡ q.prev b
    → Chain r a xs b
frame q r a [] b c na nx px pb = (na ∙ c.0, pb ∙ c.1)
frame q r a (x ∷ xs) b c na nx px pb =
    (na ∙ c.0, px.0 ∙ c.1, frame q r x xs b c.2 nx.0 nx.1 px.1 pb)

next_kept : (f : ℕ → ℕ) (a v : ℕ) (xs : List ℕ) → Apart a xs → All (λ u. write f a v u ≡ f u) xs
next_kept f a v [] h = tt
next_kept f a v (x ∷ xs) h = (let ne : x ≢ a = h.0 in ground (arith, ne), next_kept f a v xs h.1)

-- The links after a removal: `p` and `n` are the neighbours.
abbrev unlinked : Links → ℕ → ℕ → Links
unlinked q p n = record { prev = write q.prev n p; next = write q.next p n }

ngx_queue_remove_lem :
    (q : Links) (x p n : ℕ)
    → q.prev x ≡ p
    → q.next x ≡ n
    → n ≢ x
    → ngx_queue_remove x q ≡ unlinked q p n
unfolding ngx_queue_remove
ngx_queue_remove_lem q x p n before after ne =
    let other : (x == n) ≡ false = ground (arith, ne) in rw (before, after, other)

prev-Apart :
    (q : Links) (a b : ℕ) (xs : List ℕ) (x : ℕ) (ys : List ℕ) (h : ℕ)
    → Chain q b (xs ++ x ∷ ys) h
    → b ≢ a
    → Apart a (xs ++ x ∷ ys)
    → q.prev x ≢ a
prev-Apart q a b [] x ys h c ne far = λ e. ne (sym c.1 ∙ e)
prev-Apart q a b (z ∷ xs) x ys h c ne far = prev-Apart q a z xs x ys h c.2 far.0 far.1

next-Apart :
    (q : Links) (a b : ℕ) (xs : List ℕ) (x : ℕ) (ys : List ℕ) (h : ℕ)
    → Chain q b (xs ++ x ∷ ys) h
    → h ≢ a
    → Apart a (xs ++ x ∷ ys)
    → q.next x ≢ a
next-Apart q a b [] x [] h c ne far = λ e. ne (sym c.2.0 ∙ e)
next-Apart q a b [] x (y ∷ ys) h c ne far = λ e. far.1.0 (sym c.2.0 ∙ e)
next-Apart q a b (z ∷ xs) x ys h c ne far = next-Apart q a z xs x ys h c.2 ne far.1

next_self :
    (q : Links) (b : ℕ) (xs : List ℕ) (x : ℕ) (ys : List ℕ) (h : ℕ)
    → Chain q b (xs ++ x ∷ ys) h
    → h ≢ x
    → IsDistinct (xs ++ x ∷ ys)
    → q.next x ≢ x
next_self q b [] x [] h c ne dist = λ e. ne (sym c.2.0 ∙ e)
next_self q b [] x (y ∷ ys) h c ne dist = λ e. dist.0.0 (sym c.2.0 ∙ e)
next_self q b (z ∷ xs) x ys h c ne dist = next_self q z xs x ys h c.2 ne dist.1

unlinked-Chain :
    (q : Links) (a : ℕ) (xs : List ℕ) (x : ℕ) (ys : List ℕ) (h p n : ℕ)
    → q.prev x ≡ p
    → q.next x ≡ n
    → Chain q a (xs ++ x ∷ ys) h
    → Apart a (xs ++ x ∷ ys)
    → Apart h (xs ++ x ∷ ys)
    → IsDistinct (xs ++ x ∷ ys)
    → Chain (unlinked q p n) a (xs ++ ys) h
unlinked-Chain q a [] x [] h p n before after c fa fh dist =
    let pa : p ≡ a = sym before ∙ c.1 in
    let nh : n ≡ h = sym after ∙ c.2.0 in (ground (arith, pa, nh), ground (arith, pa, nh))
unlinked-Chain q a [] x (y ∷ ys) h p n before after c fa fh dist =
    let pa : p ≡ a = sym before ∙ c.1 in
    let ny : n ≡ y = sym after ∙ c.2.0 in
    let ya : y ≢ a = fa.1.0 in
    let yh : y ≢ h = fh.1.0 in
    let r = unlinked q a y in
    let rest =
      frame q r y ys h c.2.2 (ground (arith, ya)) (next_kept q.next a y ys fa.1.1)
        (next_kept q.prev y a ys dist.1.0) (ground (arith, yh)) in
    subst (λ (m : ℕ). Chain (unlinked q m n) a (y ∷ ys) h) (sym pa)
      (subst (λ (m : ℕ). Chain (unlinked q a m) a (y ∷ ys) h) (sym ny)
        (ground arith, ground arith, rest))
unlinked-Chain q a (z ∷ xs) x ys h p n before after c fa fh dist =
    let far_p : p ≢ a = λ e. prev-Apart q a z xs x ys h c.2 fa.0 fa.1 (before ∙ e) in
    let far_n : n ≢ z =
      λ e. next-Apart q z z xs x ys h c.2 (λ hz. fh.0 (sym hz)) dist.0 (after ∙ e) in
    (
      ground (arith, c.0, far_p),
      ground (arith, c.1, far_n),
      unlinked-Chain q z xs x ys h p n before after c.2 dist.0 fh.1 dist.1,
    )

-- Parts of a list.
Apart-drop :
    (a : ℕ) (xs : List ℕ) (x : ℕ) (ys : List ℕ) → Apart a (xs ++ x ∷ ys) → Apart a (xs ++ ys)
Apart-drop a [] x ys h = h.1
Apart-drop a (z ∷ xs) x ys h = (h.0, Apart-drop a xs x ys h.1)

middle-Apart : (a : ℕ) (xs : List ℕ) (x : ℕ) (ys : List ℕ) → Apart a (xs ++ x ∷ ys) → x ≢ a
middle-Apart a [] x ys h = h.0
middle-Apart a (z ∷ xs) x ys h = middle-Apart a xs x ys h.1

IsDistinct-drop :
    (xs : List ℕ) (x : ℕ) (ys : List ℕ) → IsDistinct (xs ++ x ∷ ys) → IsDistinct (xs ++ ys)
IsDistinct-drop [] x ys h = h.1
IsDistinct-drop (z ∷ xs) x ys h = (Apart-drop z xs x ys h.0, IsDistinct-drop xs x ys h.1)

Apart-snoc : (a : ℕ) (xs : List ℕ) (x : ℕ) → Apart a xs → x ≢ a → Apart a (xs ++ x ∷ [])
Apart-snoc a [] x h ne = (ne, tt)
Apart-snoc a (z ∷ xs) x h ne = (h.0, Apart-snoc a xs x h.1 ne)

IsDistinct-snoc : (xs : List ℕ) (x : ℕ) → Apart x xs → IsDistinct xs → IsDistinct (xs ++ x ∷ [])
IsDistinct-snoc [] x far h = (tt, tt)
IsDistinct-snoc (z ∷ xs) x far h =
    (Apart-snoc z xs x h.0 (λ e. far.0 (sym e)), IsDistinct-snoc xs x far.1 h.1)

-- Where `h` heads a list of the events `xs`, inserting an event that is not one of them leaves the
-- list with it at the end.
pub ngx_queue_insert_tail-IsRing :
    (q : Links) (h x : ℕ) (xs : List ℕ)
    → IsRing q h xs
    → x ≢ h
    → Apart x xs
    → IsRing (ngx_queue_insert_tail h x q) h (xs ++ x ∷ [])
ngx_queue_insert_tail-IsRing q h x xs (c, away, dist) ne far = (
  insert_Chain q h xs h x c (λ e. ne (sym e)) (λ e. ne (sym e)) away far away dist,
  Apart-snoc h xs x away ne,
  IsDistinct-snoc xs x far dist,
)

-- Where `h` heads a list of events, removing one of them leaves the list of the others in their order.
pub ngx_queue_remove-IsRing :
    (q : Links) (h : ℕ) (xs : List ℕ) (x : ℕ) (ys : List ℕ)
    → IsRing q h (xs ++ x ∷ ys)
    → IsRing (ngx_queue_remove x q) h (xs ++ ys)
ngx_queue_remove-IsRing q h xs x ys (c, away, dist) =
    let far : q.next x ≢ x =
      next_self q h xs x ys h c (λ e. middle-Apart h xs x ys away (sym e)) dist in
    let same = ngx_queue_remove_lem q x (q.prev x) (q.next x) refl refl far in
    (
      subst (λ (r : Links). Chain r h (xs ++ ys) h) (sym same)
          (unlinked-Chain q h xs x ys h (q.prev x) (q.next x) refl refl c away away dist),
      Apart-drop h xs x ys away,
      IsDistinct-drop xs x ys dist,
    )
