-- ===== src/Hook/Yielding.antt =====
-- A yield, which posts the coroutine's event by a sleep.
use ngx_lua_cpp.Prelude.{
  ℕ, ◌+◌, ◌-◌, ◌≡◌, ◌≢◌, ap, sym, ◌∙◌, false, ◌⊎◌, inl, inr, Option, none, some, List, [], ◌∷◌,
  ◌++◌, ◌==◌, arith,
}
use ngx_lua_cpp.Hook.Queue.{Links}
use ngx_lua_cpp.Hook.Rings.{IsRing, Apart, Chain}
use ngx_lua_cpp.Hook.{Subsystem, co_ctx, Yield, yielded, require_ngx_sleep, yield_in}

-- `ngx.sleep(0)` posts the coroutine's event, unless it is posted already.
pub record IsSleep (call : ℕ → Links → Links) (offset h : ℕ) : Type 0 where
  pub posts :
      (co : ℕ) (q : Links) (xs : List ℕ)
      → IsRing q h xs
      → Apart (co + offset) xs
      → co + offset ≢ h
      → IsRing (call co q) h (xs ++ (co + offset) ∷ [])
  pub again :
      (co : ℕ) (q : Links) (xs : List ℕ)
      → IsRing q h (xs ++ (co + offset) ∷ [])
      → IsRing (call co q) h (xs ++ (co + offset) ∷ [])

-- The function is not known yet, or it is and so is the offset.
abbrev pub IsKnown : Subsystem → ℕ → Type 0
IsKnown s offset = (s.yields ≡ none) ⊎ ((f : ℕ) × (s.yields ≡ some f) × (s.offset ≡ offset))

pub prev-snoc :
    (q : Links) (a : ℕ) (xs : List ℕ) (e h : ℕ) → Chain q a (xs ++ e ∷ []) h → q.prev h ≡ e
prev-snoc q a [] e h c = c.2.1
prev-snoc q a (x ∷ xs) e h c = prev-snoc q x xs e h c.2

pub last-Apart :
    (q : Links) (a : ℕ) (xs : List ℕ) (e h : ℕ) → Chain q a xs h → a ≢ e → Apart e xs → q.prev h ≢ e
last-Apart q a [] e h c ne far = λ p. ne (sym c.1 ∙ p)
last-Apart q a (x ∷ xs) e h c ne far = last-Apart q x xs e h c.2 far.0 far.1

require_known :
    (call : Links → Links) (sleep h co offset : ℕ) (q : Links) (s : Subsystem) (f : ℕ)
    → s.yields ≡ some f
    → s.offset ≡ offset
    → require_ngx_sleep call sleep h co q s
      ≡ (some f, q, record { yields = some f; offset = offset; pending = s.pending })
unfolding require_ngx_sleep
require_known call sleep h co offset q s f known at = rw (known, at)

require_unknown :
    (call : Links → Links) (sleep h co offset : ℕ) (q : Links) (s : Subsystem)
    → s.yields ≡ none
    → (call q).prev h ≡ co + offset
    → q.prev h ≢ co + offset
    → require_ngx_sleep call sleep h co q s
      ≡ (some sleep, call q, record { yields = some sleep; offset = offset; pending = s.pending })
unfolding require_ngx_sleep
require_unknown call sleep h co offset q s unknown new old =
    let test : ((call q).prev h == q.prev h) ≡ false = ground (arith, new, old) in
    let distance : (call q).prev h - co ≡ offset = omega (arith, new) in
    rw (unknown, test, distance)

yield_in-require_ngx_sleep :
    (call : ℕ → Links → Links) (sleep h co : ℕ) (q : Links) (s : Subsystem) (f : ℕ) (q' : Links)
    (s' : Subsystem)
    → require_ngx_sleep (call co) sleep h co q s ≡ (some f, q', s')
    → yield_in call sleep h (co_ctx co) q s
      ≡ some (yielded f, call co q', record s' { pending = s'.pending ++ co ∷ [] })
unfolding yield_in
yield_in-require_ngx_sleep call sleep h co q s f q' s' got =
    ap
      (λ (r : Option ℕ × Links × Subsystem).
        let ended : Option (Yield × Links × Subsystem) = elim r.0 [
          | none ↦ none
          | some g ↦ some (yielded g, call co r.1, record r.2 { pending = r.2.pending ++ co ∷ [] })
        ] in
        ended)
      got

pub yield_in_lem :
    (call : ℕ → Links → Links) (sleep h co offset : ℕ) (q : Links) (s : Subsystem) (xs : List ℕ)
    → IsSleep call offset h
    → IsKnown s offset
    → IsRing q h xs
    → Apart (co + offset) xs
    → co + offset ≢ h
    → (f : ℕ) × (q' : Links) × (yield_in call sleep h (co_ctx co) q s
        ≡ some (
          yielded f,
          q',
          record { yields = some f; offset = offset; pending = s.pending ++ co ∷ [] },
        ))
      × IsRing q' h (xs ++ (co + offset) ∷ [])
yield_in_lem call sleep h co offset q s xs is_sleep (inr (f, known, at)) ring far ne = (
  f,
  call co q,
  yield_in-require_ngx_sleep call sleep h co q s f q
      (record { yields = some f; offset = offset; pending = s.pending })
      (require_known (call co) sleep h co offset q s f known at),
  is_sleep.posts co q xs ring far ne,
)
yield_in_lem call sleep h co offset q s xs is_sleep (inl unknown) ring far ne =
    let q₁ = call co q in
    let ring₁ = is_sleep.posts co q xs ring far ne in
    let new : q₁.prev h ≡ co + offset = prev-snoc q₁ h xs (co + offset) h ring₁.0 in
    let old : q.prev h ≢ co + offset =
      last-Apart q h xs (co + offset) h ring.0 (λ p. ne (sym p)) far in
    (
      sleep,
      call co q₁,
      yield_in-require_ngx_sleep call sleep h co q s sleep q₁
          (record { yields = some sleep; offset = offset; pending = s.pending })
          (require_unknown (call co) sleep h co offset q s unknown new old),
      is_sleep.again co q₁ xs ring₁,
    )
