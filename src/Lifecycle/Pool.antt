-- ===== src/Lifecycle/Pool.antt =====
-- Starting and stopping.
use ngx_lua_cpp.Prelude.{
  ℕ, ◌+◌, ◌*◌, ◌≡◌, ◌≢◌, refl, ap, ◌∙◌, true, false, not, ◌⊎◌, inl, inr, Option, none, some, has,
  min, ltb, ◌==◌, if◌then◌else◌, arith, if_cases,
}
use ngx_lua_cpp.Prelude.Text.{Bytes}
use ngx_lua_cpp.Lifecycle.{
  AsyncWorker, Instance, worker, set_worker, is_running, reset_main_warp, start,
}

-- What the pool does: its threads are those that it was resized to and the one that was appended, it
-- runs from `start` to `terminate`, and joining it or polling changes neither.
pub record IsAsyncWorker {W : Type 0} (a : AsyncWorker W) : Type 0 where
  pub count_resize : (n : ℕ) (w : W) → a.get_thread_count (a.resize n w) ≡ n
  pub append_lem :
      (w : W)
      → ((a.append w).1 ≡ a.get_thread_count w)
        × (a.get_thread_count (a.append w).0 ≡ a.get_thread_count w + 1)
  pub start_lem :
      (w : W)
      → (a.is_terminated (a.start w) ≡ false)
        × (a.get_thread_count (a.start w) ≡ a.get_thread_count w)
  pub terminate_lem : (w : W) → a.is_terminated (a.join (a.terminate w)) ≡ true
  pub make_current_lem :
      (i : Option ℕ) (w : W)
      → (a.is_terminated (a.make_current i w) ≡ a.is_terminated w)
        × (a.get_thread_count (a.make_current i w) ≡ a.get_thread_count w)
  pub poll_lem :
      (w : W)
      → (a.is_terminated (a.poll w) ≡ a.is_terminated w)
        × (a.get_thread_count (a.poll w) ≡ a.get_thread_count w)
  pub poll_warp_only_lem :
      (w : W)
      → (a.is_terminated (a.poll_warp_only w) ≡ a.is_terminated w)
        × (a.get_thread_count (a.poll_warp_only w) ≡ a.get_thread_count w)
  pub poll_warp_lem :
      (w : W)
      → (a.is_terminated (a.poll_warp w).0 ≡ a.is_terminated w)
        × (a.get_thread_count (a.poll_warp w).0 ≡ a.get_thread_count w)

pub true≢false : true ≢ false
true≢false e = ground arith

capped : (n limit : ℕ) → (if ltb limit n then limit else n) ≡ min n limit
capped n limit = ground arith

module _ {W Socket Address : Type 0} (a : AsyncWorker W) where
  pub worker-set_worker : (w : W) (s : Instance W Socket Address) → worker a (set_worker a w s) ≡ w
  worker-set_worker w s =
      let here : (s.async_worker == s.async_worker) ≡ true = ground arith in rw here

  -- What a call of `start` gives.
  abbrev pub IsStarted :
      ℕ → ℕ → Instance W Socket Address → Option Bytes × Instance W Socket Address → Type 0
  IsStarted hardware_concurrency thread_count s r =
      let count = min thread_count (hardware_concurrency * 4) in
      ((has r.0 ≡ true)
        × (r.1 ≡ s)
        × ((has (a.get_current_thread_index (worker a s)) ≡ true) ⊎ (is_running a s ≡ true)))
      ⊎ ((r.0 ≡ none)
          × (is_running a s ≡ false)
          × (is_running a r.1 ≡ true)
          × (a.get_thread_count (worker a r.1) ≡ count + 1)
          × (r.1.main_thread_index ≡ some count)
          × (r.1.main_warp ≡ r.1.async_worker))

  -- A start is refused, and changes nothing, on a thread of the pool or when the instance runs. Else
  -- the instance runs: as many threads as were asked for, four for each of the machine's at most, and
  -- the main thread, whose index is the last.
  pub start-IsStarted :
      IsAsyncWorker a
      → (hardware_concurrency thread_count : ℕ) (s : Instance W Socket Address)
      → IsStarted hardware_concurrency thread_count s (start a hardware_concurrency thread_count s)
  unfolding start reset_main_warp
  start-IsStarted laws hc n s =
      let count = if ltb (hc * 4) n then hc * 4 else n in
      let w = a.resize count (worker a s) in
      let w' = a.start (a.append w).0 in
      let same : worker a (set_worker a w' s) ≡ w' = worker-set_worker w' s in
      let size : a.get_thread_count w ≡ min n (hc * 4) =
        laws.count_resize count (worker a s) ∙ capped n (hc * 4) in
      let (index, grown) = laws.append_lem w in
      let (runs, kept) = laws.start_lem (a.append w).0 in
      if_cases (IsStarted hc n s) (has (a.get_current_thread_index (worker a s))) _ _
        (λ here. inl (refl, refl, inl here))
        (λ main.
          if_cases (IsStarted hc n s) (is_running a s) _ _
            (λ running. inl (refl, refl, inr running))
            (λ idle. inr (
              refl,
              idle,
              ap not (ap a.is_terminated same ∙ runs),
              ap a.get_thread_count same ∙ kept ∙ grown ∙ ap (λ k. k + 1) size,
              ap some (index ∙ size),
              refl,
            )))
