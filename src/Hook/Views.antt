-- ===== src/Hook/Views.antt =====
-- nginx's list says which events it holds: one list of events at most fits the links.
use ngx_lua_cpp.Prelude.{ℕ, ◌≡◌, ◌↔◌, refl, sym, ◌∙◌, ap₂, subst, List, [], ◌∷◌, ◌++◌}
use ngx_lua_cpp.Hook.Queue.{Links, ngx_queue_remove}
use ngx_lua_cpp.Hook.Rings.{Chain, Apart, IsRing, ngx_queue_remove-IsRing}

Chain-unique :
    (q : Links) (a : ℕ) (xs ys : List ℕ) (h : ℕ)
    → Chain q a xs h
    → Chain q a ys h
    → Apart h xs
    → Apart h ys
    → xs ≡ ys
Chain-unique q a [] [] h c d f g = refl
Chain-unique q a [] (y ∷ ys) h c d f g = absurd (g.0 (sym d.0 ∙ c.0))
Chain-unique q a (x ∷ xs) [] h c d f g = absurd (f.0 (sym c.0 ∙ d.0))
Chain-unique q a (x ∷ xs) (y ∷ ys) h c d f g =
    let e : x ≡ y = sym c.0 ∙ d.0 in
    let d' : Chain q x ys h = subst (λ w. Chain q w ys h) (sym e) d.2 in
    ap₂ (λ u us. u ∷ us) e (Chain-unique q x xs ys h c.2 d' f.1 g.1)

-- Where `h` heads a list of events, removing one of them leaves links that exactly one list of events
-- fits: the others in their order.
pub ngx_queue_remove-IsRing_iff :
    (q : Links) (h : ℕ) (xs : List ℕ) (x : ℕ) (ys : List ℕ)
    → IsRing q h (xs ++ x ∷ ys)
    → (zs : List ℕ) → IsRing (ngx_queue_remove x q) h zs ↔ (zs ≡ xs ++ ys)
ngx_queue_remove-IsRing_iff q h xs x ys r zs =
    let left = ngx_queue_remove-IsRing q h xs x ys r in
    (
      λ other. Chain-unique (ngx_queue_remove x q) h zs (xs ++ ys) h other.0 left.0 other.1 left.1,
      λ e. subst (λ us. IsRing (ngx_queue_remove x q) h us) (sym e) left,
    )
