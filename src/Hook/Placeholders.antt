-- ===== src/Hook/Placeholders.antt =====
-- The events that a yielding coroutine leaves in nginx's list.
use ngx_lua_cpp.Prelude.{
  ℕ, ◌+◌, ◌≡◌, ◌≢◌, refl, ap, sym, Bool, true, false, inl, inr, List, [], ◌∷◌, ◌++◌, ◌==◌, ==_iff,
  if◌then◌else◌, arith, subst, Bool-cases,
}
use ngx_lua_cpp.Hook.Queue.{Links, ngx_queue_remove}
use ngx_lua_cpp.Hook.Rings.{IsRing, ngx_queue_remove-IsRing}
use ngx_lua_cpp.Hook.{Hooker, Subsystem, Shared, remove_events, dig_out, process_events}

abbrev pub contains : ℕ → List ℕ → Bool
contains e [] = false
contains e (x ∷ xs) = if x == e then true else contains e xs

-- The list without the event.
abbrev pub erase_event : ℕ → List ℕ → List ℕ
erase_event e [] = []
erase_event e (x ∷ xs) = if x == e then xs else x ∷ erase_event e xs

later_of : (here there : Bool) → here ≡ false → (if here then true else there) ≡ true → there ≡ true
later_of true there h k = ground arith
later_of false there h k = k

split :
    (e : ℕ) (xs : List ℕ)
    → contains e xs ≡ true
    → (before : List ℕ) × (behind : List ℕ) × (xs ≡ before ++ e ∷ behind)
      × (erase_event e xs ≡ before ++ behind)
split e [] h = ground arith
split e (x ∷ xs) h = elim (Bool-cases (x == e)) [
  | inl here ↦ ([], xs, ap (λ y. y ∷ xs) ((==_iff x e).0 here), rw here)
  | inr later ↦
      let there : contains e xs ≡ true = later_of (x == e) (contains e xs) later h in
      let (before, behind, shape, rest) = split e xs there in
      (x ∷ before, behind, ap (◌∷◌ x) shape, rw later (ap (◌∷◌ x) rest))
]

-- The placeholders of the pending coroutines are among the events, each as often as it is removed.
abbrev pub ArePosted : ℕ → List ℕ → List ℕ → Type 0
ArePosted offset [] xs = Unit
ArePosted offset (co ∷ cos) xs =
    (contains (co + offset) xs ≡ true) × ArePosted offset cos (erase_event (co + offset) xs)

abbrev pub without_placeholders : ℕ → List ℕ → List ℕ → List ℕ
without_placeholders offset [] xs = xs
without_placeholders offset (co ∷ cos) xs =
    without_placeholders offset cos (erase_event (co + offset) xs)

remove-IsRing :
    (q : Links) (h e : ℕ) (xs : List ℕ)
    → IsRing q h xs
    → contains e xs ≡ true
    → IsRing (ngx_queue_remove e q) h (erase_event e xs)
remove-IsRing q h e xs ring there =
    let (before, behind, shape, rest) = split e xs there in
    subst (IsRing (ngx_queue_remove e q) h) (sym rest)
      (ngx_queue_remove-IsRing q h before e behind (subst (IsRing q h) shape ring))

remove_events-IsRing :
    (offset : ℕ) (cos : List ℕ) (q : Links) (h : ℕ) (xs : List ℕ)
    → IsRing q h xs
    → ArePosted offset cos xs
    → IsRing (remove_events offset cos q) h (without_placeholders offset cos xs)
unfolding remove_events
remove_events-IsRing offset [] q h xs ring posted = ring
remove_events-IsRing offset (co ∷ cos) q h xs ring posted =
    remove_events-IsRing offset cos (ngx_queue_remove (co + offset) q) h
      (erase_event (co + offset) xs) (remove-IsRing q h (co + offset) xs ring posted.0) posted.1

pub dig_out-IsRing :
    (s : Subsystem) (q : Links) (h : ℕ) (xs : List ℕ)
    → IsRing q h xs
    → s.offset ≢ 0
    → ArePosted s.offset s.pending xs
    → IsRing (dig_out s q) h (without_placeholders s.offset s.pending xs)
unfolding dig_out
dig_out-IsRing s q h xs ring known posted =
    let test : (s.offset == 0) ≡ false = ground (arith, known) in
    rw test (remove_events-IsRing s.offset s.pending q h xs ring posted)

-- Taking the placeholders of both subsystems out of nginx's list leaves exactly the other events, in
-- their order, where the events of the pending coroutines are in it and the offsets are known; after
-- that no coroutine is pending.
pub process_events-IsRing :
    {S : Type 0} (poll : ℕ → Shared S → Shared S) (has_notify : Bool) (timer : ℕ) (k : Hooker)
    (w : Shared S) (xs : List ℕ)
    → IsRing k.links k.ngx_posted_delayed_events xs
    → k.http.offset ≢ 0
    → k.stream.offset ≢ 0
    → ArePosted k.http.offset k.http.pending xs
    → ArePosted k.stream.offset k.stream.pending
        (without_placeholders k.http.offset k.http.pending xs)
    → let k' = (process_events poll has_notify timer k w).0 in
      IsRing k'.links k'.ngx_posted_delayed_events (
        without_placeholders k.stream.offset k.stream.pending
          (without_placeholders k.http.offset k.http.pending xs))
      × (k'.http.pending ≡ [])
      × (k'.stream.pending ≡ [])
unfolding process_events
process_events-IsRing poll has_notify timer k w xs ring http stream posted_http posted_stream = (
  dig_out-IsRing k.stream (dig_out k.http k.links) k.ngx_posted_delayed_events
      (without_placeholders k.http.offset k.http.pending xs)
      (dig_out-IsRing k.http k.links k.ngx_posted_delayed_events xs ring http posted_http) stream
      posted_stream,
  refl,
  refl,
)
