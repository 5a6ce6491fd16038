-- ===== src/Hook/Draining.antt =====
-- The loop of `process_events` and its safety valve.
use ngx_lua_cpp.Prelude.{
  ℕ, zero, suc, ◌<◌, ◌≡◌, ◌≢◌, refl, ap, Bool, ◌⊎◌, inl, inr, List, ◌==◌, ==_iff, arith, Bool-cases,
}
use ngx_lua_cpp.Hook.{Hooker, Shared, poll_all, drain, process_events}

module _ {S : Type 0} (poll : ℕ → Shared S → Shared S) (cpp_list : List ℕ) where
  -- Passes, with `notified` cleared after each.
  abbrev pub passes : ℕ → Shared S → Shared S
  passes zero w = w
  passes (suc n) w = passes n (record (poll_all poll cpp_list w) { notified = 0 })

  -- What stands in `notified` at the end of the pass after `i` passes.
  abbrev pub notified_by : ℕ → Shared S → ℕ
  notified_by i w = (poll_all poll cpp_list (passes i w)).notified

  -- `r` is what stands after `n + 1` passes: each but the last was notified, and the last one was not,
  -- unless it was the last that the valve allows.
  abbrev pub IsDrained : ℕ → Shared S → Shared S → ℕ → Type 0
  IsDrained spins w r n =
      (n < spins)
      × (r ≡ passes (suc n) w)
      × ((i : ℕ) → i < n → notified_by i w ≡ 1)
      × ((suc n ≡ spins) ⊎ (notified_by n w ≢ 1))

  drain-IsDrained :
      (spins : ℕ) (w : Shared S)
      → (n : ℕ) × IsDrained (suc spins) w (drain poll cpp_list (suc spins) w).0 n
  unfolding drain
  drain-IsDrained zero w = elim (Bool-cases ((poll_all poll cpp_list w).notified == 1)) [
    | inl again ↦ (0, (omega arith, rw again, λ i below. absurd (omega arith), inl refl))
    | inr quiet ↦ (0, (omega arith, rw quiet, λ i below. absurd (omega arith), inl refl))
  ]
  drain-IsDrained (suc spins) w =
      let last = (poll_all poll cpp_list w).notified in
      elim (Bool-cases (last == 1)) [
        | inr quiet ↦ (
          0,
          (
            omega arith,
            rw quiet,
            λ i below. absurd (omega arith),
            inr (λ e. ground (arith, quiet, e)),
          ),
        )
        | inl again ↦
            let (n, (below, result, before, end)) =
              drain-IsDrained spins (record (poll_all poll cpp_list w) { notified = 0 }) in
            (
              suc n,
              (
                omega (arith, below),
                rw again result,
                earlier w n ((==_iff last 1).0 again) before,
                elim end [ inl valve ↦ inl (ap suc valve) | inr quiet ↦ inr quiet ],
              ),
            )
      ]
    where
      earlier :
          (w : Shared S) (n : ℕ)
          → notified_by 0 w ≡ 1
          → ((i : ℕ)
              → i < n
              → notified_by i (record (poll_all poll cpp_list w) { notified = 0 }) ≡ 1)
          → (i : ℕ) → i < suc n
          → notified_by i w ≡ 1
      earlier w n first before zero h = first
      earlier w n first before (suc i) h = before i (omega arith)

  -- `process_events` ends after at least one and at most 1000 passes over the instances. It makes a
  -- pass after each that was notified, until one is not or the thousandth is done, and what the
  -- instances then share is what those passes made of it, with `notified` cleared.
  pub process_events-IsDrained :
      (has_notify : Bool) (timer : ℕ) (k : Hooker) (w : Shared S)
      → k.cpp_list ≡ cpp_list
      → (n : ℕ) × IsDrained 1000 w (process_events poll has_notify timer k w).1 n
  unfolding process_events
  process_events-IsDrained has_notify timer k w same = rw same (drain-IsDrained 999 w)
