-- ===== src/Lifecycle/Tasks.antt =====
-- Where the work of an instance runs: `sleep`, and the handler that the constructor sets, which
-- the library calls for a task whose priority, as a signed number, is below zero.
use ngx_lua_cpp.Prelude.{ℕ, Bool, true, Option, none, List, [], ◌∷◌, ◌++◌}

-- What a coroutine does on its way: it goes on in the worker pool (`none`) or on a warp, or it waits.
pub data Hop : Type 0 where
  switch_to : Option ℕ → Hop
  sleep_for : ℕ → Hop

-- `current` is the warp that the coroutine is called on.
unfoldable pub sleep : Option ℕ → ℕ → List Hop × ℕ
sleep current milliseconds =
    (switch_to none ∷ sleep_for milliseconds ∷ switch_to current ∷ [], milliseconds)

-- The handler takes the task: a routine that executes it is queued on the main thread's warp.
unfoldable pub handle_priority_task : {Task : Type 0} → Task → List Task → Bool × List Task
handle_priority_task task main_warp = (true, main_warp ++ task ∷ [])
