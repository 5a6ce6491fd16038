-- ===== src/Hook/Wakeups/NoLoss.antt =====
-- No wake-up is lost, whatever the other threads do between the accesses of the main thread.
use ngx_lua_cpp.Prelude.{
  ℕ, ◌+◌, ◌<◌, ◌≤◌, zero, suc, ◌≡◌, refl, ◌∙◌, ◌⊎◌, inl, inr, Bool, true, List, arith, subst, sym,
}
use ngx_lua_cpp.Hook.Wakeups.{
  waiting, World, Step, queue_task, exchange_one, tell, poll_next, exchange_zero, wake, alarm,
  Reach, start, later, idle_world, queued, joined, exchanged, tells, polls, polled, tests, wakes,
}
use ngx_lua_cpp.Hook.Wakeups.Awake.{occurrences, IsAwake, Step-IsAwake}

same_instances :
    {w w' : World} → Step w w' → (w'.cpp_list ≡ w.cpp_list) × (w'.has_notify ≡ w.has_notify)
unfolding queue_task exchange_one tell poll_next exchange_zero wake
same_instances (queued p) = (refl, refl)
same_instances (joined p f) = (refl, refl)
same_instances (exchanged n) = (refl, refl)
same_instances (tells n) = (refl, refl)
same_instances (polls spins p left e) = (refl, refl)
same_instances (polled spins e) = (refl, refl)
same_instances (tests spins e) = (refl, refl)
same_instances (wakes e) = (refl, refl)

idle_world-IsAwake :
    (has_notify : Bool) (cpp_list : List ℕ) → IsAwake (idle_world has_notify cpp_list)
idle_world-IsAwake has_notify cpp_list = record {
  queued_flushed = λ p t. absurd (omega arith);
  kept = λ p c t. cc;
  heard = λ n. absurd (omega arith);
  one = omega arith;
}

pub Reach-IsAwake :
    {has_notify : Bool} {cpp_list : List ℕ} {w : World}
    → Reach has_notify cpp_list w
    → IsAwake w × (w.cpp_list ≡ cpp_list) × (w.has_notify ≡ has_notify)
Reach-IsAwake {has_notify} {cpp_list} start = (idle_world-IsAwake has_notify cpp_list, refl, refl)
Reach-IsAwake (later r st) =
    let (awake, same, kept) = Reach-IsAwake r in
    let (same', kept') = same_instances st in (Step-IsAwake st awake, same' ∙ same, kept' ∙ kept)

woken :
    (told entering notified : ℕ)
    → 0 < entering + told
    → notified ≤ 1
    → (notified ≡ 1 → 0 < told)
    → (0 < told) ⊎ ((0 < entering) × (notified ≡ 0))
woken zero entering notified kept one heard = inr (omega arith, ground (arith, heard))
woken (suc told) entering notified kept one heard = inl (omega arith)

-- Where nginx has a `notify`: in every reachable state in which nginx waits and a task is on the warp of an instance, nginx is
-- told, or a thread is about to tell it, or one is in `notify` and will find that it has to tell it.
pub no_lost_wakeup :
    {cpp_list : List ℕ} {w : World} (p : ℕ)
    → Reach true cpp_list w
    → 0 < occurrences p cpp_list
    → w.phase ≡ waiting
    → 0 < w.tasks p
    → (0 < w.told + w.telling) ⊎ ((0 < w.entering) × (w.notified ≡ 0))
no_lost_wakeup {w = w} p r here waits busy =
    let (awake, same, has_notify) = Reach-IsAwake r in
    let held : 0 < occurrences p w.cpp_list = subst (λ ps. 0 < occurrences p ps) (sym same) here in
    let no_alarm : w.told + w.telling + alarm w.has_notify ≡ w.told + w.telling =
      rw has_notify (omega arith) in
    let kept = rw no_alarm at (awake.kept p held (awake.queued_flushed p busy)) in
    let heard = rw no_alarm at awake.heard in
    woken (w.told + w.telling) w.entering w.notified (ground (arith, waits)) awake.one
      (λ n. ground (arith, waits))
