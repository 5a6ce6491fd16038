-- ===== src/Hook/Wakeups/Awake.antt =====
-- What keeps the event loop awake: for a flushed warp, a thread in `notify`, a notification that the
-- loop will see, or a place in the pass that is being made.
use ngx_lua_cpp.Prelude.{
  ℕ, ◌+◌, ◌-◌, ◌≢◌, ◌<◌, ◌≤◌, ◌≡◌, Bool, true, false, List, [], ◌∷◌, ◌==◌, ◌&&◌, if◌then◌else◌,
  arith,
}
use ngx_lua_cpp.Hook.Wakeups.{
  Phase, polling, testing, waiting, World, queue_task, exchange_one, tell, poll_next, exchange_zero,
  wake, alarm, Step, queued, joined, exchanged, tells, polls, polled, tests, wakes,
}

abbrev pub occurrences : ℕ → List ℕ → ℕ
occurrences p [] = 0
occurrences p (q ∷ qs) = (if p == q then 1 else 0) + occurrences p qs

-- Whether the pass will still poll the instance.
abbrev pub to_come : ℕ → Phase → ℕ
to_come p (polling spins left) = occurrences p left
to_come p (testing spins) = 0
to_come p waiting = 0

-- A notification counts outside nginx's own wait.
abbrev pub seen : Phase → ℕ → ℕ
seen (polling spins left) notified = notified
seen (testing spins) notified = notified
seen waiting notified = 0

-- One for the first pass, since nginx has just returned.
abbrev pub is_first : Phase → ℕ
is_first (polling spins left) = if spins == 1 then 1 else 0
is_first (testing spins) = if spins == 1 then 1 else 0
is_first waiting = 0

-- What wakes nginx, if it waits.
abbrev pub coming : Phase → ℕ → ℕ
coming (polling spins left) told = 0
coming (testing spins) told = 0
coming waiting told = told

pub record IsAwake (w : World) : Type 0 where
  pub queued_flushed : (p : ℕ) → 0 < w.tasks p → w.flushed p ≡ true
  pub kept :
      (p : ℕ)
      → 0 < occurrences p w.cpp_list
      → w.flushed p ≡ true
      → 0
        < w.entering
          + seen w.phase w.notified
          + to_come p w.phase
          + coming w.phase (w.told + w.telling + alarm w.has_notify)
  pub heard : w.notified ≡ 1 → 0 < w.told + w.telling + alarm w.has_notify + is_first w.phase
  pub one : w.notified ≤ 1

-- Each step keeps it.
module _ {w : World} (h : IsAwake w) where
  queue_task-IsAwake :
      (p : ℕ) (flushes : Bool)
      → (flushes ≡ false → w.flushed p ≡ true)
      → IsAwake (queue_task p flushes w)
  unfolding queue_task
  queue_task-IsAwake p flushes f = record {
    queued_flushed = λ q t. ground (arith, h.queued_flushed q);
    kept = λ q c t. ground (arith, h.kept q);
    heard = h.heard;
    one = h.one;
  }

  exchange_kept :
      (phase : Phase) (has_notify : Bool) (q : ℕ)
      → (w.notified ≡ 1 → 0 < w.told + w.telling + alarm has_notify + is_first phase)
      → 0
        < w.entering
          + seen phase w.notified
          + to_come q phase
          + coming phase (w.told + w.telling + alarm has_notify)
      → 0
        < w.entering
          - 1
          + seen phase 1
          + to_come q phase
          + coming phase (
              w.told
              + (if w.notified == 0 && has_notify then w.telling + 1 else w.telling)
              + alarm has_notify)
  exchange_kept (polling spins left) has_notify q heard k = omega arith
  exchange_kept (testing spins) has_notify q heard k = omega arith
  exchange_kept waiting true q heard k = let one = h.one in ground arith
  exchange_kept waiting false q heard k = ground arith

  exchange_heard :
      (phase : Phase) (has_notify : Bool)
      → (w.notified ≡ 1 → 0 < w.told + w.telling + alarm has_notify + is_first phase)
      → 0
        < w.told
          + (if w.notified == 0 && has_notify then w.telling + 1 else w.telling)
          + alarm has_notify
          + is_first phase
  exchange_heard phase true heard = let one = h.one in ground (arith, heard)
  exchange_heard phase false heard = ground arith

  exchange_one-IsAwake : IsAwake (exchange_one w)
  unfolding exchange_one
  exchange_one-IsAwake = record {
    queued_flushed = h.queued_flushed;
    kept = λ q c t. exchange_kept w.phase w.has_notify q h.heard (h.kept q c t);
    heard = λ _. exchange_heard w.phase w.has_notify h.heard;
    one = omega arith;
  }

  tell-IsAwake : w.telling ≢ 0 → IsAwake (tell w)
  unfolding tell
  tell-IsAwake n =
      let same : w.told + 1 + (w.telling - 1) ≡ w.told + w.telling = ground (arith, n) in
      record {
        queued_flushed = h.queued_flushed;
        kept = λ q c t. rw same (h.kept q c t);
        heard = λ e. rw same (h.heard e);
        one = h.one;
      }

  poll_next-IsAwake :
      (spins p : ℕ) (left : List ℕ)
      → w.phase ≡ polling spins (p ∷ left)
      → IsAwake (poll_next spins p left w)
  unfolding poll_next
  poll_next-IsAwake spins p left e = record {
    queued_flushed = λ q t. ground (arith, h.queued_flushed q);
    kept = λ q c t. ground (arith, e, h.kept q);
    heard = λ n. ground (arith, e, h.heard);
    one = h.one;
  }

  polled-IsAwake :
      (spins : ℕ) → w.phase ≡ polling spins [] → IsAwake (record w { phase = testing spins })
  polled-IsAwake spins e = record {
    queued_flushed = h.queued_flushed;
    kept = λ q c t. ground (arith, e, h.kept q);
    heard = λ n. ground (arith, e, h.heard);
    one = h.one;
  }

  exchange_zero-IsAwake : (spins : ℕ) → w.phase ≡ testing spins → IsAwake (exchange_zero spins w)
  unfolding exchange_zero
  exchange_zero-IsAwake spins e = record {
    queued_flushed = h.queued_flushed;
    kept = λ q c t. let one = h.one in let heard = h.heard in ground (arith, e, h.kept q);
    heard = λ n. absurd (omega arith);
    one = omega arith;
  }

  wake-IsAwake : w.phase ≡ waiting → IsAwake (wake w)
  unfolding wake
  wake-IsAwake e = record {
    queued_flushed = h.queued_flushed;
    kept = λ q c t. omega (arith, c);
    heard = λ n. omega arith;
    one = h.one;
  }

-- Every step, of the main thread or of another, leaves the loop awake.
pub Step-IsAwake : {w w' : World} → Step w w' → IsAwake w → IsAwake w'
Step-IsAwake (queued p) h = queue_task-IsAwake h p true (λ e. cc)
Step-IsAwake (joined p f) h = queue_task-IsAwake h p false (λ _. f)
Step-IsAwake (exchanged n) h = exchange_one-IsAwake h
Step-IsAwake (tells n) h = tell-IsAwake h n
Step-IsAwake (polls spins p left e) h = poll_next-IsAwake h spins p left e
Step-IsAwake (polled spins e) h = polled-IsAwake h spins e
Step-IsAwake (tests spins e) h = exchange_zero-IsAwake h spins e
Step-IsAwake (wakes e) h = wake-IsAwake h e
