-- ===== src/Lifecycle/Reachable.antt =====
-- What holds of an instance whatever is called on it.
use ngx_lua_cpp.Prelude.{
  ℕ, ◌+◌, ◌*◌, ◌≡◌, refl, ap, sym, ◌∙◌, Bool, true, false, not, ◌||◌, inl, inr, Option, List, none,
  some, min, leb, arith, if_cases, subst,
}
use ngx_lua_cpp.Prelude.Text.{Bytes}
use ngx_lua_cpp.Lifecycle.{
  AsyncWorker, Instance, worker, set_worker, is_running, reset_main_warp, construct, start, stop,
  set_async_worker, exchange_async_worker, process_events,
}
use ngx_lua_cpp.Lifecycle.Pool.{IsAsyncWorker, start-IsStarted, worker-set_worker, true≢false}
use ngx_lua_cpp.Lifecycle.Stopping.{stopped, stop_cases}

no_index : {A : Type 0} (i : ℕ) → none ≡ some i → A
no_index i h = ground arith

some_injective : {i j : ℕ} → some i ≡ some j → i ≡ j
some_injective {i} h = ap (λ (o : Option ℕ). elim o [ none ↦ i | some k ↦ k ]) h

module _ {W : Type 0} (a : AsyncWorker W) where
  abbrev Kept : W → W → Type 0
  Kept w w' =
      (a.is_terminated w' ≡ a.is_terminated w) × (a.get_thread_count w' ≡ a.get_thread_count w)

  polled :
      IsAsyncWorker a
      → (i : Option ℕ) (w : W) → Kept w (a.make_current none (a.poll (a.make_current i w)))
  polled laws i w =
      let w₁ = a.make_current i w in
      let w₂ = a.poll w₁ in
      (
        (laws.make_current_lem none w₂).0 ∙ (laws.poll_lem w₁).0 ∙ (laws.make_current_lem i w).0,
        (laws.make_current_lem none w₂).1 ∙ (laws.poll_lem w₁).1 ∙ (laws.make_current_lem i w).1,
      )

module _ {W Socket Address : Type 0} (a : AsyncWorker W) where
  -- A call of a method, a pass of the event loop, or work of the pool's own threads, which neither
  -- ends the pool nor changes the number of its threads.
  pub data Step : Instance W Socket Address → Instance W Socket Address → Type 0 where
    started : (hc n : ℕ) (s : Instance W Socket Address) → Step s (start a hc n s).1
    stopping :
        (fuel : ℕ) (s : Instance W Socket Address)
        (r : Option Bytes × Instance W Socket Address × List (Option Socket))
        → stop a fuel s ≡ some r
        → Step s r.1
    exchanged :
        (address : Option ℕ) (s : Instance W Socket Address)
        → Step s (exchange_async_worker a address s).1
    processed : (s : Instance W Socket Address) → Step s (process_events a s)
    worked :
        (s : Instance W Socket Address) (w : W)
        → a.is_terminated w ≡ a.is_terminated (worker a s)
        → a.get_thread_count w ≡ a.get_thread_count (worker a s)
        → Step s (set_worker a w s)

  pub data Reach (first : Instance W Socket Address) : Instance W Socket Address → Type 0 where
    here : Reach first first
    after : {s s' : Instance W Socket Address} → Reach first s → Step s s' → Reach first s'

  -- The main thread's warp is on the instance's own worker, and the main thread has an index only
  -- while the instance runs: then it is that of the last thread of the pool.
  abbrev pub IsValid : Instance W Socket Address → Type 0
  IsValid s =
      (s.main_warp ≡ s.async_worker)
      × ((i : ℕ)
          → s.main_thread_index ≡ some i
          → (is_running a s ≡ true) × (a.get_thread_count (worker a s) ≡ i + 1))

  set_worker-IsValid :
      (s : Instance W Socket Address) (w : W)
      → a.is_terminated w ≡ a.is_terminated (worker a s)
      → a.get_thread_count w ≡ a.get_thread_count (worker a s)
      → IsValid s
      → IsValid (set_worker a w s)
  set_worker-IsValid s w same_end same_count h = (
    h.0,
    λ i at.
        let (runs, count) = h.1 i at in
        let same = worker-set_worker a w s in
        (
          ap not (ap a.is_terminated same ∙ same_end) ∙ runs,
          ap a.get_thread_count same ∙ same_count ∙ count,
        ),
  )

  stopped-IsValid : (w : W) (s : Instance W Socket Address) → IsValid (stopped a w s)
  stopped-IsValid w s = (refl, λ i at. no_index i at)

  start-IsValid :
      IsAsyncWorker a
      → (hc n : ℕ) (s : Instance W Socket Address) → IsValid s
      → IsValid (start a hc n s).1
  start-IsValid laws hc n s h = elim (start-IsStarted a laws hc n s) [
    | inl (refused, same, reason) ↦ subst IsValid (sym same) h
    | inr (done, idle, runs, count, index, warp) ↦ (
      warp,
      λ i at.
          let same_index : min n (hc * 4) ≡ i = some_injective (sym index ∙ at) in
          (runs, count ∙ ap (λ k. k + 1) same_index),
    )
  ]

  stop-IsValid :
      (fuel : ℕ) (s : Instance W Socket Address)
      (r : Option Bytes × Instance W Socket Address × List (Option Socket))
      → stop a fuel s ≡ some r
      → IsValid s
      → IsValid r.1
  stop-IsValid fuel s r returned h = elim (stop_cases a fuel s r returned) [
    | inl same ↦ subst IsValid (sym same) h
    | inr (w, same) ↦ subst IsValid (sym same) (stopped-IsValid w s)
  ]

  idle_index :
      (s : Instance W Socket Address) (address : ℕ)
      → is_running a s ≡ false
      → IsValid s
      → IsValid (reset_main_warp a (record s { async_worker = address }))
  unfolding reset_main_warp
  idle_index s address idle h = (refl, λ i at. absurd (true≢false (sym (h.1 i at).0 ∙ idle)))

  exchange-IsValid :
      (address : Option ℕ) (s : Instance W Socket Address)
      → IsValid s
      → IsValid (exchange_async_worker a address s).1
  unfolding exchange_async_worker set_async_worker
  exchange-IsValid none s h = h
  exchange-IsValid (some address) s h =
      if_cases (λ (r : Bool × Instance W Socket Address). IsValid r.1) (is_running a s) _ _
        (λ running. h) (λ idle. idle_index s address idle h)

  process_events-IsValid :
      IsAsyncWorker a → (s : Instance W Socket Address) → IsValid s → IsValid (process_events a s)
  unfolding process_events
  process_events-IsValid laws s h =
      let w = worker a s in
      let warp : (w' : W) → Kept a w w' → Kept a w (a.poll_warp_only w') =
        λ w' k. ((laws.poll_warp_only_lem w').0 ∙ k.0, (laws.poll_warp_only_lem w').1 ∙ k.1) in
      let turned =
        if_cases (Kept a w) (leb (a.get_thread_count w) 1 || a.is_terminated w) _ w
          (λ _. polled a laws s.main_thread_index w) (λ _. (refl, refl)) in
      let (ending, count) = warp _ turned in set_worker-IsValid s _ ending count h

  Step-IsValid :
      IsAsyncWorker a → (s s' : Instance W Socket Address) → Step s s' → IsValid s → IsValid s'
  Step-IsValid laws _ _ (started hc n s) h = start-IsValid laws hc n s h
  Step-IsValid laws _ _ (stopping fuel s r returned) h = stop-IsValid fuel s r returned h
  Step-IsValid laws _ _ (exchanged address s) h = exchange-IsValid address s h
  Step-IsValid laws _ _ (processed s) h = process_events-IsValid laws s h
  Step-IsValid laws _ _ (worked s w ending count) h = set_worker-IsValid s w ending count h

  -- Whatever is called on an instance, in whatever order, and however the pool's threads work between
  -- the calls: the main thread's warp is on the instance's own worker, and if the main thread has an
  -- index in the pool, the pool runs and the index is that of its last thread.
  pub Reach-IsValid :
      IsAsyncWorker a
      → (address : ℕ) (workers : ℕ → W) (s : Instance W Socket Address)
      → Reach (construct a address workers) s
      → IsValid s
  unfolding construct reset_main_warp
  Reach-IsValid laws address workers s here = (refl, λ i at. no_index i at)
  Reach-IsValid laws address workers s (after reach step) =
      Step-IsValid laws _ s step (Reach-IsValid laws address workers _ reach)
