-- ===== src/Hook/Wakeups/Served.antt =====
-- The main thread runs every task, once the other threads have left `notify`.
use ngx_lua_cpp.Prelude.{
  ℕ, zero, suc, ◌+◌, ◌*◌, length, if_cases, ◌<◌, ◌≤◌, ◌≡◌, refl, ap, sym, ◌∙◌, true, false, ◌⊎◌,
  inl, inr, Bool, List, [], ◌∷◌, ◌==◌, ltb, Bool-cases, arith, subst,
}
use ngx_lua_cpp.Hook.Wakeups.{
  Phase, polling, testing, waiting, World, queue_task, exchange_one, tell, poll_next, exchange_zero,
  wake, alarm, Step, queued, joined, exchanged, tells, polls, polled, tests, wakes, Reach, start,
  later, advance, run,
}
use ngx_lua_cpp.Hook.Wakeups.Awake.{occurrences, seen, to_come, coming, is_first}
use ngx_lua_cpp.Hook.Wakeups.NoLoss.{Reach-IsAwake}

-- After at most so many steps the warp of the instance is empty.
abbrev pub Served : ℕ → ℕ → World → Type 0
Served p bound w = (n : ℕ) × (n ≤ bound) × ((run n w).tasks p ≡ 0)

after :
    (p b bound : ℕ) (w w' : World)
    → b < bound
    → advance w.phase w ≡ w'
    → Served p b w'
    → Served p bound w
after p b bound w w' less e (n, few, done) =
    (suc n, omega (arith, few), ap (λ (u : World). (run n u).tasks p) e ∙ done)

-- The instances that a pass has still to poll.
abbrev pub to_poll : Phase → ℕ
to_poll (polling spins left) = length left
to_poll (testing spins) = 0
to_poll waiting = 0

-- They are some of all.
Step-to_poll :
    {w w' : World}
    → Step w w'
    → to_poll w.phase ≤ length w.cpp_list
    → to_poll w'.phase ≤ length w'.cpp_list
unfolding queue_task exchange_one tell poll_next exchange_zero wake
Step-to_poll (queued p) h = h
Step-to_poll (joined p f) h = h
Step-to_poll (exchanged n) h = h
Step-to_poll (tells n) h = h
Step-to_poll (polls spins p left e) h = let h' = rw e at h in omega (arith, h')
Step-to_poll (polled spins e) h = omega arith
Step-to_poll {w} (tests spins e) h =
    if_cases (λ (ph : Phase). to_poll ph ≤ length w.cpp_list) (w.notified == 1) _ _
      (λ again.
        if_cases (λ (ph : Phase). to_poll ph ≤ length w.cpp_list) (ltb 1000 (spins + 1)) _ _
          (λ sprung. omega arith) (λ on. omega arith))
      (λ quiet. omega arith)
Step-to_poll (wakes e) h = omega arith

Reach-to_poll :
    {has_notify : Bool} {ps : List ℕ} {w : World}
    → Reach has_notify ps w
    → to_poll w.phase ≤ length w.cpp_list
Reach-to_poll start = omega arith
Reach-to_poll (later r st) = Step-to_poll st (Reach-to_poll r)

-- The rest of a pass reaches the instance,
left-Served :
    (p spins : ℕ) (left : List ℕ) (w : World)
    → w.phase ≡ polling spins left
    → 0 < occurrences p left
    → Served p (length left) w
unfolding poll_next
left-Served p spins [] w e h = absurd (omega arith)
left-Served p spins (q ∷ left) w e h =
    let w' = poll_next spins q left w in
    let to : advance w.phase w ≡ w' = ap (λ (ph : Phase). advance ph w) e in
    elim (Bool-cases (p == q)) [
      | inl this ↦ after p 0 _ w w' (omega arith) to (0, omega arith, rw this)
      | inr other ↦
          after p (length left) _ w w' (omega arith) to
            (left-Served p spins left w' refl (ground arith))
    ]

-- as the next pass does.
waiting-Served :
    (p : ℕ) (w : World)
    → w.phase ≡ waiting
    → 0 < w.told + alarm w.has_notify
    → 0 < occurrences p w.cpp_list
    → Served p (length w.cpp_list + 1) w
unfolding wake
waiting-Served p w e told h =
    let some_told : (w.told + alarm w.has_notify == 0) ≡ false = ground arith in
    after p (length w.cpp_list) _ w (wake w) (omega arith) (rw (e, some_told))
      (left-Served p 1 w.cpp_list (wake w) refl h)

testing-Served :
    (p spins : ℕ) (w : World)
    → w.phase ≡ testing spins
    → w.notified ≡ 1
    → (spins ≡ 1) ⊎ (0 < w.told + alarm w.has_notify)
    → 0 < occurrences p w.cpp_list
    → Served p (length w.cpp_list + 2) w
unfolding exchange_zero
testing-Served p spins w e n valve h =
    let w' = exchange_zero spins w in
    let to : advance w.phase w ≡ w' = ap (λ (ph : Phase). advance ph w) e in
    let set : (w.notified == 1) ≡ true = ground arith in
    elim (Bool-cases (ltb 1000 (spins + 1))) [
      | inl sprung ↦ after p (length w.cpp_list + 1) _ w w' (omega arith) to (
          waiting-Served p w' (rw (set, sprung))
            (elim valve [ inl first ↦ absurd (ground arith) | inr told ↦ told ]) h)
      | inr on ↦
          after p (length w.cpp_list) _ w w' (omega arith) to
            (left-Served p (spins + 1) w.cpp_list w' (rw (set, on)) h)
    ]

polling-Served :
    (p spins : ℕ) (left : List ℕ) (w : World)
    → w.phase ≡ polling spins left
    → w.notified ≡ 1
    → (spins ≡ 1) ⊎ (0 < w.told + alarm w.has_notify)
    → 0 < occurrences p w.cpp_list
    → Served p (length left + length w.cpp_list + 3) w
unfolding poll_next
polling-Served p spins [] w e n valve h =
    let w' = record w { phase = testing spins } in
    after p (length w.cpp_list + 2) _ w w' (omega arith) (ap (λ (ph : Phase). advance ph w) e)
      (testing-Served p spins w' refl n valve h)
polling-Served p spins (q ∷ left) w e n valve h =
    let w' = poll_next spins q left w in
    after p (length left + length w.cpp_list + 3) _ w w' (omega arith)
      (ap (λ (ph : Phase). advance ph w) e) (polling-Served p spins left w' refl n valve h)

sooner : (p b bound : ℕ) (w : World) → b ≤ bound → Served p b w → Served p bound w
sooner p b bound w less (n, few, done) = (n, omega (arith, few), done)

valve_holds : (spins told : ℕ) → 0 < told + is_first (testing spins) → (spins ≡ 1) ⊎ (0 < told)
valve_holds spins zero h = inl (ground arith)
valve_holds spins (suc told) h = inr (omega arith)

at_phase :
    (p : ℕ) (w : World) (phase : Phase)
    → w.phase ≡ phase
    → w.notified ≤ 1
    → (w.notified ≡ 1 → 0 < w.told + alarm w.has_notify + is_first phase)
    → 0 < seen phase w.notified + to_come p phase + coming phase (w.told + alarm w.has_notify)
    → 0 < occurrences p w.cpp_list
    → Served p (to_poll phase + length w.cpp_list + 3) w
at_phase p w (polling spins left) e one heard kept h =
    elim (Bool-cases (ltb 0 (occurrences p left))) [
      | inl soon ↦
          sooner p (length left) _ w (omega arith) (left-Served p spins left w e (ground arith))
      | inr past ↦
          let n : w.notified ≡ 1 = ground arith in
          polling-Served p spins left w e n
            (valve_holds spins (w.told + alarm w.has_notify) (heard n)) h
    ]
at_phase p w (testing spins) e one heard kept h =
    let n : w.notified ≡ 1 = omega arith in
    sooner p (length w.cpp_list + 2) _ w (omega arith)
      (testing-Served p spins w e n (valve_holds spins (w.told + alarm w.has_notify) (heard n)) h)
at_phase p w waiting e one heard kept h =
    sooner p (length w.cpp_list + 1) _ w (omega arith) (waiting-Served p w e (omega arith) h)

-- Whether nginx has a `notify` or not: in every reachable state in which no thread is in the hook's, a
-- task that is on the warp of one of `k` instances is run after at most `2 * k + 3` steps of the main
-- thread, which does not stay in nginx's wait for longer than until nginx sees what it was told or, as
-- where it has no `notify`, the timer that the hook cut is over.
pub run-Served :
    {has_notify : Bool} {cpp_list : List ℕ} {w : World} (p : ℕ)
    → Reach has_notify cpp_list w
    → 0 < occurrences p cpp_list
    → w.entering ≡ 0
    → w.telling ≡ 0
    → 0 < w.tasks p
    → (n : ℕ) × (n ≤ 2 * length cpp_list + 3) × ((run n w).tasks p ≡ 0)
run-Served {cpp_list = cpp_list} {w = w} p r here entered told busy =
    let (awake, same, platform) = Reach-IsAwake r in
    let held : 0 < occurrences p w.cpp_list = subst (λ ps. 0 < occurrences p ps) (sym same) here in
    let quiet : w.told + w.telling + alarm w.has_notify ≡ w.told + alarm w.has_notify =
      omega arith in
    let all : length w.cpp_list ≡ length cpp_list = ap length same in
    let few = Reach-to_poll r in
    sooner p (to_poll w.phase + length w.cpp_list + 3) _ w (omega arith) (
      at_phase p w w.phase refl awake.one
        (λ n. subst (λ (t : ℕ). 0 < t + is_first w.phase) quiet (awake.heard n))
        (let kept = rw quiet at (awake.kept p held (awake.queued_flushed p busy)) in omega arith)
        held)
