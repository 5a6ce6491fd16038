-- ===== src/Lifecycle/Stopping.antt =====
-- Stopping: the loop that empties the warp, and what is left.
use ngx_lua_cpp.Prelude.{
  ℕ, zero, suc, ◌<◌, ◌≡◌, refl, ap, sym, ◌∙◌, Bool, true, false, not, ◌⊎◌, inl, inr, Option, none,
  some, List, [], arith, Bool-cases, Option-cases, if_cases,
}
use ngx_lua_cpp.Prelude.Text.{Bytes}
use ngx_lua_cpp.Udp.Listener.{stop_listeners}
use ngx_lua_cpp.Udp.Ports.{IsValid, sockets, stop_listeners_lem}
use ngx_lua_cpp.Lifecycle.{
  AsyncWorker, Instance, worker, set_worker, is_running, reset_main_warp, not_started, poll_out,
  stop_impl, stop,
}
use ngx_lua_cpp.Lifecycle.Pool.{IsAsyncWorker, worker-set_worker, true≢false}

false_of_not : (b : Bool) → not b ≡ true → b ≡ false
false_of_not true h = ground arith
false_of_not false h = refl

module _ {W : Type 0} (a : AsyncWorker W) where
  -- The warp is empty after `n` more polls.
  abbrev pub Settles : ℕ → W → Type 0
  Settles zero w = (a.poll_warp w).1 ≡ false
  Settles (suc n) w = ((a.poll_warp w).1 ≡ true) × Settles n (a.poll_warp w).0

  -- The worker after `n` polls of the warp.
  abbrev pub polled : ℕ → W → W
  polled zero w = w
  polled (suc n) w = polled n (a.poll_warp w).0

  pub polled-is_terminated :
      IsAsyncWorker a → (n : ℕ) (w : W) → a.is_terminated (polled n w) ≡ a.is_terminated w
  polled-is_terminated laws zero w = refl
  polled-is_terminated laws (suc n) w =
      polled-is_terminated laws n (a.poll_warp w).0 ∙ (laws.poll_warp_lem w).0

  -- The loop stops behind the first poll that finds nothing.
  pub poll_out-polled :
      (n fuel : ℕ) (w : W) → n < fuel → Settles n w → poll_out a fuel w ≡ some (polled (suc n) w)
  unfolding poll_out
  poll_out-polled n zero w h settles = absurd (omega arith)
  poll_out-polled zero (suc fuel) w h settles = rw settles
  poll_out-polled (suc n) (suc fuel) w h settles =
      rw (settles.0, poll_out-polled n fuel (a.poll_warp w).0 (omega arith) settles.1)

module _ {W Socket Address : Type 0} (a : AsyncWorker W) where
  -- The instance after a stop, of which `w` is the worker.
  abbrev pub stopped : W → Instance W Socket Address → Instance W Socket Address
  stopped w s = record (set_worker a w s) {
    udp_listeners = [];
    main_thread_index = none;
    main_warp = s.async_worker;
  }

  pub stop_impl-poll_out :
      (fuel : ℕ) (s : Instance W Socket Address) (w : W)
      → poll_out a fuel (a.join (a.terminate (worker a s))) ≡ some w
      → stop_impl a fuel s ≡ some (stopped w s, stop_listeners s.udp_listeners)
  unfolding stop_impl reset_main_warp
  stop_impl-poll_out fuel s w result =
      ap
        (λ (o : Option W). elim o [
          | none ↦ none
          | some w' ↦ some (stopped w' s, stop_listeners s.udp_listeners)
        ])
        result

  stop-poll_out :
      (fuel : ℕ) (s : Instance W Socket Address) (w : W)
      → is_running a s ≡ true
      → poll_out a fuel (a.join (a.terminate (worker a s))) ≡ some w
      → stop a fuel s ≡ some (none, stopped w s, stop_listeners s.udp_listeners)
  unfolding stop
  stop-poll_out fuel s w running result =
      if_cases (λ r. r ≡ some (none, stopped w s, stop_listeners s.udp_listeners))
        (not (is_running a s)) _ _
        (λ idle. absurd (true≢false (sym running ∙ false_of_not (is_running a s) idle)))
        (λ busy.
          ap
            (λ (o : Option (Instance W Socket Address × List (Option Socket))). elim o [
              | none ↦ none
              | some r ↦ some (none, r.0, r.1)
            ])
            (stop_impl-poll_out fuel s w result))

  stop_idle :
      (fuel : ℕ) (s : Instance W Socket Address)
      → is_running a s ≡ false
      → stop a fuel s ≡ some (some not_started, s, [])
  unfolding stop
  stop_idle fuel s idle =
      if_cases (λ r. r ≡ some (some not_started, s, [])) (not (is_running a s)) _ _ (λ _. refl)
        (λ busy. absurd (true≢false (sym (ap not idle) ∙ busy)))

  stop_stuck :
      (fuel : ℕ) (s : Instance W Socket Address)
      → is_running a s ≡ true
      → poll_out a fuel (a.join (a.terminate (worker a s))) ≡ none
      → stop a fuel s ≡ none
  unfolding stop stop_impl reset_main_warp
  stop_stuck fuel s running stuck =
      if_cases (λ r. r ≡ none) (not (is_running a s)) _ _
        (λ idle. absurd (true≢false (sym running ∙ false_of_not (is_running a s) idle)))
        (λ busy.
          ap
            (λ (o : Option W).
              let ended : Option (Instance W Socket Address × List (Option Socket)) = elim o [
                | none ↦ none
                | some w' ↦ some (stopped w' s, stop_listeners s.udp_listeners)
              ] in
              let r : Option (Option Bytes × Instance W Socket Address × List (Option Socket)) =
                elim ended [ none ↦ none | some e ↦ some (none, e.0, e.1) ] in
              r)
            stuck)

  -- A call of `stop` that returns left the instance alone or stopped it.
  pub stop_cases :
      (fuel : ℕ) (s : Instance W Socket Address)
      (r : Option Bytes × Instance W Socket Address × List (Option Socket))
      → stop a fuel s ≡ some r
      → (r.1 ≡ s) ⊎ ((w : W) × (r.1 ≡ stopped w s))
  stop_cases fuel s r returned =
      let result : Option (Option Bytes × Instance W Socket Address × List (Option Socket))
          → Instance W Socket Address =
        λ o. elim o [ none ↦ s | some x ↦ x.1 ] in
      elim (Bool-cases (is_running a s)) [
        | inr idle ↦ inl (ap result (sym returned ∙ stop_idle fuel s idle))
        | inl running ↦ elim (Option-cases (poll_out a fuel (a.join (a.terminate (worker a s))))) [
          | inl stuck ↦ inl (ap result (sym returned ∙ stop_stuck fuel s running stuck))
          | inr (w, got) ↦ inr (w, ap result (sym returned ∙ stop-poll_out fuel s w running got))
        ]
      ]

  -- The instance runs no more: its pool has terminated and been joined, and the warp of the main thread
  -- was then polled to its end, `n` times with success; the instance has no listener, and every socket
  -- of the listeners that it had is closed, once and in order.
  abbrev pub IsStopped :
      ℕ → Instance W Socket Address → Instance W Socket Address → List (Option Socket) → Type 0
  IsStopped n s s' closed =
      (is_running a s' ≡ false)
      × (worker a s' ≡ polled a (suc n) (a.join (a.terminate (worker a s))))
      × (closed ≡ sockets s.udp_listeners)
      × (s'.udp_listeners ≡ [])
      × (s'.main_thread_index ≡ none)
      × (s'.main_warp ≡ s'.async_worker)

  pub stopped-IsStopped :
      IsAsyncWorker a
      → (n : ℕ) (s : Instance W Socket Address) → IsValid s.udp_listeners
      → IsStopped n s
          (stopped (polled a (suc n) (a.join (a.terminate (worker a s)))) s)
          (stop_listeners s.udp_listeners)
  stopped-IsStopped laws n s valid =
      let ended = a.join (a.terminate (worker a s)) in
      let w = polled a (suc n) ended in
      (
        ap not (
            ap a.is_terminated (worker-set_worker a w s)
            ∙ polled-is_terminated a laws (suc n) ended
            ∙ laws.terminate_lem (worker a s)),
        worker-set_worker a w s,
        stop_listeners_lem s.udp_listeners valid,
        refl,
        refl,
        refl,
      )

  -- Stopping a running instance ends, if the main thread's warp runs empty after `n` polls and every
  -- listener is open. Then the pool has terminated and been joined, and the warp was polled to its end after that; every socket of the
  -- listeners is closed, once and in order; the instance does not run, has no listener and no index for
  -- the main thread, and has a warp on its own worker.
  pub stop_lem :
      IsAsyncWorker a
      → (n fuel : ℕ) (s : Instance W Socket Address) → is_running a s ≡ true
      → IsValid s.udp_listeners
      → n < fuel
      → Settles a n (a.join (a.terminate (worker a s)))
      → (s' : Instance W Socket Address) × (closed : List (Option Socket)) × (stop a fuel s
          ≡ some (none, s', closed))
        × IsStopped n s s' closed
  stop_lem laws n fuel s running valid enough settles =
      let ended = a.join (a.terminate (worker a s)) in
      let w = polled a (suc n) ended in
      (
        stopped w s,
        stop_listeners s.udp_listeners,
        stop-poll_out fuel s w running (poll_out-polled a n fuel ended enough settles),
        stopped-IsStopped laws n s valid,
      )
