-- ===== src/Cache/Runs.antt =====
-- Sequences of calls on one cache, and what a read after a store returns.
use ngx_lua_cpp.Prelude.{
  ◌>>=◌, ◌≤◌, ◌≡◌, refl, ap, subst, not, ◌∙◌, Bool, true, Option, some, List, [], ◌∷◌, length, has,
  Bool-cases, inl, inr, arith, if◌then◌else◌,
}
use ngx_lua_cpp.Prelude.Order.{bytes_ord}
use ngx_lua_cpp.Prelude.Text.{Bytes}
use ngx_lua_cpp.Prelude.Double.{clamp_double, Double}
use ngx_lua_cpp.Prelude.Map.{lookup, same_refl}
use ngx_lua_cpp.Cache.{LruCache, init, set, get, cache_set, cache_get, expiry, is_expired}
use ngx_lua_cpp.Cache.Valid.{IsValid}
use ngx_lua_cpp.Cache.Spec.{View, view, spec_set, spec_get}
use ngx_lua_cpp.Cache.Stores.{set-refines}
use ngx_lua_cpp.Cache.Reads.{get-refines}

-- A call that a request makes, with the time at which it is made.
pub data Call (D : Type 0) : Type 0 where
  store : D → Bytes → Bytes → D → Call D
  read : D → Bytes → Call D

module _ {D : Type 0} (d : Double D) where
  unfoldable pub step : Call D → LruCache D → Option (LruCache D)
  step (store now k val ttl) c = do (c', _) ← cache_set d now k val ttl c; some c'
  step (read now k) c = do (c', _) ← cache_get d now k c; some c'

  unfoldable pub run : List (Call D) → LruCache D → Option (LruCache D)
  run [] c = some c
  run (call ∷ calls) c = do c' ← step call c; run calls c'

  init-IsValid : IsValid (init d)
  unfolding init lookup
  init-IsValid = record {
    positive = omega arith;
    bounded = omega arith;
    entries_sorted = tt;
    iters_sorted = tt;
    nodes_known = tt;
    iters_live = λ k n h. ground arith;
    distinct = tt;
    fresh = tt;
    domain = λ k. refl;
    same_size = refl;
  }

  set_capacity :
      (now : D) (k val : Bytes) (ttl : D) (c c' : LruCache D) (b : Bool)
      → set d now k val ttl c ≡ some (c', b)
      → c'.max_entries ≡ c.max_entries
  unfolding set
  set_capacity now k val ttl c c' b h = ground arith

  get_capacity :
      (now : D) (k : Bytes) (c c' : LruCache D) (r : Bool × Bytes × D)
      → get d now k c ≡ some (c', r)
      → c'.max_entries ≡ c.max_entries
  unfolding get
  get_capacity now k c c' r h = ground arith

  step-IsValid :
      (call : Call D) (c : LruCache D)
      → IsValid c
      → (c' : LruCache D) × (step call c ≡ some c') × IsValid c' × (c'.max_entries ≡ c.max_entries)
  unfolding step cache_set cache_get
  step-IsValid (store now k val ttl) c v =
      let (c', runs, v', _) =
        set-refines d now (clamp_double d ttl (d.of_nat 0) (d.of_nat 86400000)) k val c v in
      (c', rw runs, v', set_capacity now k val _ c c' true runs)
  step-IsValid (read now k) c v =
      let (c', r, runs, v', _) = get-refines d now k c v in
      (c', rw runs, v', get_capacity now k c c' r runs)

  run-IsValid :
      (calls : List (Call D)) (c : LruCache D)
      → IsValid c
      → (c' : LruCache D) × (run calls c ≡ some c') × IsValid c' × (c'.max_entries ≡ c.max_entries)
  unfolding run
  run-IsValid [] c v = (c, refl, v, refl)
  run-IsValid (call ∷ calls) c v =
      let (c', runs, v', kept) = step-IsValid call c v in
      let (c'', rest, v'', kept') = run-IsValid calls c' v' in
      (c'', rw runs rest, v'', kept' ∙ kept)

  -- Whatever the requests call, in whatever order and at whatever times, no call meets a dangling
  -- iterator or an empty list, the cache stays well-formed, and it holds 1024 entries at most.
  pub run-init-IsValid :
      (calls : List (Call D))
      → (c : LruCache D) × (run calls (init d) ≡ some c) × IsValid c × (length c.entries ≤ 1024)
  unfolding init
  run-init-IsValid calls =
      let (c, runs, v, kept) = run-IsValid calls (init d) init-IsValid in
      (c, runs, v, rw kept at v.bounded)

-- What the specification reads of a bound key.
spec_read :
    {D : Type 0} (d : Double D) (now : D) (k val : Bytes) (expire : D) (w : View D)
    → w.find k ≡ some (val, expire)
    → let s = spec_get d now k w in
      (s.1.0 ≡ not (is_expired d now expire))
      × (s.1.1 ≡ (if is_expired d now expire then [] else val))
      × (has (s.0.find k) ≡ not (is_expired d now expire))
unfolding spec_get
spec_read d now k val expire w found = elim (Bool-cases (is_expired d now expire)) [
  | inl old ↦
      (rw (found, spec_get, old), rw (found, spec_get, old), rw (found, spec_get, old, same_refl k))
  | inr live ↦ (
    rw (found, spec_get, live),
    rw (found, spec_get, live),
    rw (found, spec_get, live) (ap has found),
  )
]

module _ {D : Type 0} (d : Double D) (now now' ttl : D) (k val : Bytes) (c c' : LruCache D)
    (v : IsValid c) (stored : set d now k val ttl c ≡ some (c', true)) where
  -- After a store the key is bound to the value, with the expiry that the store computed.
  stored_find : IsValid c' × (lookup k c'.entries ≡ some (val, expiry d now ttl))
  unfolding spec_set
  stored_find =
      let (x, runs, v', e) = set-refines d now ttl k val c v in
      let same_state : x ≡ c' = ground (arith, runs) in
      let found : lookup k x.entries ≡ some (val, expiry d now ttl) =
        ap (λ (w : View D). w.find k) e ∙ rw (same_refl k) in
      (subst IsValid same_state v', rw same_state at found)

  -- A read after a store, before the expiry, finds the value; from the expiry on it finds nothing
  -- and the key is gone.
  pub get-set :
      (c'' : LruCache D) × (r : Bool × Bytes × D) × (get d now' k c' ≡ some (c'', r))
      × (r.0 ≡ not (is_expired d now' (expiry d now ttl)))
      × (r.1 ≡ (if is_expired d now' (expiry d now ttl) then [] else val))
      × (has (lookup k c''.entries) ≡ not (is_expired d now' (expiry d now ttl)))
  get-set =
      let (v', found) = stored_find in
      let (c'', r, runs, _, e) = get-refines d now' k c' v' in
      let (hit, value, kept) = spec_read d now' k val (expiry d now ttl) (view c') found in
      (
        c'',
        r,
        runs,
        ap (λ (s : View D × (Bool × Bytes × D)). s.1.0) e ∙ hit,
        ap (λ (s : View D × (Bool × Bytes × D)). s.1.1) e ∙ value,
        ap (λ (s : View D × (Bool × Bytes × D)). has (s.0.find k)) e ∙ kept,
      )
