-- ===== src/Bus.antt =====
-- The event bus: `event_bus_t` and the methods `pub` and `events` of src/ngx_lua_cpp.cpp. The mutex
-- makes each call one atomic step. The time stamp that `pub` reads from the clock is an argument.
pub mod Valid
pub mod Delivery
pub mod NoLoss
mod Tests
use ngx_lua_cpp.Prelude.{
  ℕ, suc, ◌+◌, Bool, true, false, Option, none, some, List, [], ◌∷◌, ◌++◌, length, ltb, pop_front,
  if◌then◌else◌,
}
use ngx_lua_cpp.Prelude.Order.{bytes_ord}
use ngx_lua_cpp.Prelude.Text.{Bytes}
use ngx_lua_cpp.Prelude.Map.{Map, lookup, insert}
use ngx_lua_cpp.Prelude.Double.{Double}

-- `bus_event_t`: (id, ts_ms, payload)
abbrev pub Event : Type 0 → Type 0
Event D = D × D × Bytes

pub record EventBus (D : Type 0) : Type 0 where
  pub next_id : D
  pub topics : Map Bytes (List (Event D))

-- `topics[topic]`: an absent topic is created with an empty queue.
abbrev pub queue : {D : Type 0} → Bytes → EventBus D → List (Event D)
queue topic b = elim (lookup topic b.topics) [ none ↦ [] | some q ↦ q ]

module _ {D : Type 0} (d : Double D) where
  unfoldable pub init : EventBus D
  init = record { next_id = d.of_nat 1; topics = [] }

  -- `q.emplace_back(…)`, and the oldest event goes where there are more than 512.
  unfoldable pub append : Event D → List (Event D) → List (Event D)
  append e q = let q' = q ++ e ∷ [] in if ltb 512 (length q') then pop_front q' else q'

  unfoldable pub publish : D → Bytes → Bytes → EventBus D → EventBus D
  publish now topic payload b = record {
    next_id = d.add b.next_id (d.of_nat 1);
    topics = insert topic (append (b.next_id, now, payload) (queue topic b)) b.topics;
  }

  -- The loop of `poll` over the queue, with the events found so far and the cursor.
  unfoldable pub poll_loop : D → List (Event D) → List (Event D) → D → List (Event D) × D
  poll_loop last_id [] out next = (out, next)
  poll_loop last_id (e ∷ q) out next =
      let found = poll_loop last_id q (out ++ e ∷ []) e.0 in
      let skipped = poll_loop last_id q out next in if d.lt last_id e.0 then found else skipped

  unfoldable pub poll : Bytes → D → EventBus D → List (Event D) × D
  poll topic last_id b = elim (lookup topic b.topics) [
    | none ↦ ([], last_id)
    | some q ↦ poll_loop last_id q [] last_id
  ]

  -- The methods of `ngx_lua_cpp_t`.
  unfoldable pub events : Bytes → D → EventBus D → List (Event D) × D
  unfolding poll
  events topic last_id b = let r = poll topic last_id b in (r.0, r.1)
