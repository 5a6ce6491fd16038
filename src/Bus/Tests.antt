-- ===== src/Bus/Tests.antt =====
-- Runs of the bus, and the theorems at concrete inputs, with whole numbers for the doubles.
use ngx_lua_cpp.Prelude.{ℕ, ◌≡◌, refl, List, [], ◌∷◌, arith}
use ngx_lua_cpp.Prelude.Order.{bytes_ord, compare_bytes}
use ngx_lua_cpp.Prelude.Text.{Bytes, codes}
use ngx_lua_cpp.Prelude.Double.{whole_double, whole-IsDouble}
use ngx_lua_cpp.Prelude.Map.{lookup, insert}
use ngx_lua_cpp.Bus.{EventBus, init, append, publish, poll_loop, events}
use ngx_lua_cpp.Bus.Valid
use ngx_lua_cpp.Bus.Valid.{IsValid}
use ngx_lua_cpp.Bus.NoLoss
use ngx_lua_cpp.Bus.NoLoss.{Publication, publish_all, published}

program : Unit {0}
unfolding init append publish poll_loop events lookup insert compare_bytes publish_all published
program = tt

abbrev jobs : Bytes
jobs = codes "jobs"

abbrev calls : List (Publication ℕ)
calls = (10, jobs, codes "a") ∷ (11, codes "log", codes "x") ∷ (12, jobs, codes "b") ∷ []

abbrev bus : EventBus ℕ
bus = record {
  next_id = 4;
  topics =
      (jobs, (1, 10, codes "a") ∷ (3, 12, codes "b") ∷ [])
      ∷ (codes "log", (2, 11, codes "x") ∷ [])
      ∷ [];
}

three_calls : publish_all whole_double calls (init whole_double) ≡ bus
unfolding program
three_calls = refl

polls : events whole_double jobs 1 bus ≡ ((3, 12, codes "b") ∷ [], 3)
unfolding program
polls = refl

no_loss_example :
    let cur = (events whole_double jobs 0 (init whole_double)).1 in
    ((events whole_double jobs cur (init whole_double)).0 ≡ [])
    × ((events whole_double jobs cur (publish_all whole_double calls (init whole_double))).0
        ≡ published whole_double 1 jobs calls)
unfolding published compare_bytes
no_loss_example =
    NoLoss.no_loss whole_double whole-IsDouble 0 1 (init whole_double) jobs calls (omega arith)
      (omega arith) (Valid.init-IsValid whole_double) (omega arith)
