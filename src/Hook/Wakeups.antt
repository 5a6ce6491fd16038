-- ===== src/Hook/Wakeups.antt =====
-- `notify` and the loop of `process_events`, one access of `notified` at a time: other threads run
-- between any two. The library calls `flush_warp`, and so `notify`, for the first task that is queued
-- on a warp that nobody has polled since.
pub mod Awake
pub mod NoLoss
pub mod Served
mod Tests
use ngx_lua_cpp.Prelude.{
  ℕ, zero, suc, ◌+◌, ◌-◌, ◌≡◌, ◌≢◌, Bool, true, false, List, [], ◌∷◌, ltb, ◌==◌, ◌&&◌,
  if◌then◌else◌,
}

-- Where the main thread is: in pass number `spins` with the instances that it has still to poll, in
-- front of the test that ends the pass, or in nginx's own `process_events`.
pub data Phase : Type 0 where
  polling : (spins : ℕ) → (left : List ℕ) → Phase
  testing : (spins : ℕ) → Phase
  waiting : Phase

-- For each instance, the tasks on its warp and whether the library counts it as flushed. Then the
-- threads in `notify`: before its exchange, and between that and `actions->notify`. `told` counts the
-- calls of `actions->notify` that nginx has not seen yet; `has_notify` tells whether that is no null
-- pointer.
pub record World : Type 0 where
  pub cpp_list : List ℕ
  pub has_notify : Bool
  pub tasks : ℕ → ℕ
  pub flushed : ℕ → Bool
  pub entering : ℕ
  pub telling : ℕ
  pub told : ℕ
  pub notified : ℕ
  pub phase : Phase

abbrev pub update {ℓ} : {A : Type ℓ} → (ℕ → A) → ℕ → A → ℕ → A
update f p v q = if q == p then v else f q

-- A thread queues a task on the warp of an instance: with a call of `flush_warp`, or without one when
-- the warp is flushed.
unfoldable pub queue_task : ℕ → Bool → World → World
queue_task p flushes w = record w {
  tasks = update w.tasks p (w.tasks p + 1);
  flushed = update w.flushed p true;
  entering = if flushes then w.entering + 1 else w.entering;
}

-- `notified.exchange(1)`, the test of what it gives, and the test of `actions->notify`.
unfoldable pub exchange_one : World → World
exchange_one w = record w {
  entering = w.entering - 1;
  telling = if w.notified == 0 && w.has_notify then w.telling + 1 else w.telling;
  notified = 1;
}

-- `actions->notify(...)`
unfoldable pub tell : World → World
tell w = record w { telling = w.telling - 1; told = w.told + 1 }

-- `p->process_events()`, which runs the tasks that are on the warp.
unfoldable pub poll_next : ℕ → ℕ → List ℕ → World → World
poll_next spins p left w = record w {
  tasks = update w.tasks p 0;
  flushed = update w.flushed p false;
  phase = polling spins left;
}

-- `notified.exchange(0)`, the test of what it gives, and the safety valve.
unfoldable pub exchange_zero : ℕ → World → World
exchange_zero spins w = record w {
  notified = 0;
  phase =
      if w.notified == 1
      then (if ltb 1000 (spins + 1) then waiting else polling (spins + 1) w.cpp_list)
      else waiting;
}

-- nginx's `process_events` returns, having seen all it was told, and is called again through the hook.
unfoldable pub wake : World → World
wake w = record w { told = 0; phase = polling 1 w.cpp_list }

pub data Step (w : World) : World → Type 0 where
  queued : (p : ℕ) → Step w (queue_task p true w)
  joined : (p : ℕ) → w.flushed p ≡ true → Step w (queue_task p false w)
  exchanged : w.entering ≢ 0 → Step w (exchange_one w)
  tells : w.telling ≢ 0 → Step w (tell w)
  polls :
      (spins p : ℕ) (left : List ℕ)
      → w.phase ≡ polling spins (p ∷ left)
      → Step w (poll_next spins p left w)
  polled : (spins : ℕ) → w.phase ≡ polling spins [] → Step w (record w { phase = testing spins })
  tests : (spins : ℕ) → w.phase ≡ testing spins → Step w (exchange_zero spins w)
  wakes : w.phase ≡ waiting → Step w (wake w)

-- At first nginx waits, and nothing is queued.
abbrev pub idle_world : Bool → List ℕ → World
idle_world has_notify cpp_list = record {
  cpp_list = cpp_list;
  has_notify = has_notify;
  tasks = λ _. 0;
  flushed = λ _. false;
  entering = 0;
  telling = 0;
  told = 0;
  notified = 0;
  phase = waiting;
}

pub data Reach (has_notify : Bool) (cpp_list : List ℕ) : World → Type 0 where
  start : Reach has_notify cpp_list (idle_world has_notify cpp_list)
  later : {w w' : World} → Reach has_notify cpp_list w → Step w w' → Reach has_notify cpp_list w'

-- Whether nginx's wait is over in 16 ms by itself: its timer is cut to that where it has no `notify`.
abbrev pub alarm : Bool → ℕ
alarm true = 0
alarm false = 1

-- The main thread alone: it stays in nginx's `process_events` as long as nginx is told nothing and its
-- timer is not cut.
abbrev pub advance : Phase → World → World
advance (polling spins (p ∷ left)) w = poll_next spins p left w
advance (polling spins []) w = record w { phase = testing spins }
advance (testing spins) w = exchange_zero spins w
advance waiting w = if w.told + alarm w.has_notify == 0 then w else wake w

abbrev pub run : ℕ → World → World
run zero w = w
run (suc n) w = run n (advance w.phase w)
