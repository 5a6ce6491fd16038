-- ===== src/Jobs.antt =====
-- Background jobs: `ngx_job_t`, `job_submit`, `job_query` and `job_list` of src/ngx_lua_cpp.cpp.
-- A job is shared by the map and by the coroutine that runs it, which keeps it alive once the map
-- forgets it: the jobs stand in a store, and both refer to it by its place there. Each call that
-- takes `jobs_mutex` is one step.
pub mod Ids
pub mod Window
pub mod Queries
pub mod Overflow
pub mod Sieve
pub mod Primes
pub mod BasePrimes
pub mod PrimeCounts
pub mod PrimeTotals
pub mod Result
pub mod Chunks
pub mod Runner
pub mod Ending
pub mod Interleaving
mod Tests
use ngx_lua_cpp.Prelude.{
  ℕ, zero, suc, ◌+◌, ◌-◌, ◌/◌, Bool, true, false, Option, none, some, List, [], ◌∷◌, ◌++◌, length,
  get_elem?, replicate, ltb, map, if◌then◌else◌,
}
use ngx_lua_cpp.Prelude.Order.{bytes_ord}
use ngx_lua_cpp.Prelude.Text.{Bytes, codes, decimal}
use ngx_lua_cpp.Prelude.Map.{Map, lookup, insert}
use ngx_lua_cpp.Prelude.Double.{Double}

pub record Job (D : Type 0) : Type 0 where
  pub id : Bytes
  pub kind : Bytes
  pub payload : Map Bytes D
  pub status : Bytes
  pub progress : D
  pub created_ms : D
  pub elapsed_ms : D
  pub result : Bytes

pub record JobTable (D : Type 0) : Type 0 where
  pub store : List (Job D)
  pub jobs : Map Bytes ℕ
  pub job_counter : ℕ

-- `snprintf("J%05zu")`
unfoldable pub job_id : ℕ → Bytes
job_id n = let digits = decimal n in b'J' ∷ replicate (5 - length digits) b'0' ++ digits

-- `while (jobs.size() > 200) jobs.erase(jobs.begin());`
unfoldable pub evict_loop : Map Bytes ℕ → Map Bytes ℕ
evict_loop [] = []
evict_loop (e ∷ jobs) =
    let rest = evict_loop jobs in if ltb 200 (length (e ∷ jobs)) then rest else e ∷ jobs

module _ {D : Type 0} (d : Double D) where
  -- A reading of the clock in nanoseconds as milliseconds.
  abbrev pub millis : ℕ → D
  millis ticks = d.div (d.of_nat ticks) (d.of_nat 1000000)

  unfoldable pub init : JobTable D
  init = record { store = []; jobs = []; job_counter = 0 }

  abbrev pub queued_job : ℕ → ℕ → Bytes → Map Bytes D → Job D
  queued_job now n kind payload = record {
    id = job_id n;
    kind = kind;
    payload = payload;
    status = codes "queued";
    progress = d.of_nat 0;
    created_ms = millis now;
    elapsed_ms = d.of_nat 0;
    result = [];
  }

  -- The identifier, and the place of the job that `run_job` is started on.
  unfoldable pub job_submit :
      Bool → ℕ → Bytes → Map Bytes D → JobTable D → Bytes × Option ℕ × JobTable D
  job_submit false now kind payload t = ([], none, t)
  job_submit true now kind payload t =
      let n = t.job_counter + 1 in
      let place = length t.store in
      (
        job_id n,
        some place,
        record {
          store = t.store ++ queued_job now n kind payload ∷ [];
          jobs = evict_loop (insert (job_id n) place t.jobs);
          job_counter = n;
        },
      )

  unfoldable pub job_query : Bytes → JobTable D → Bytes × D × D × Bytes
  job_query id t =
      let absent : Bytes × D × D × Bytes = (codes "not_found", d.of_nat 0, d.of_nat 0, codes "") in
      elim (lookup id t.jobs) [
        | none ↦ absent
        | some place ↦ elim (get_elem? t.store place) [
          | none ↦ absent
          | some job ↦ (job.status, job.progress, job.elapsed_ms, job.result)
        ]
      ]

-- The loop of `job_list`. A place in the map is that of a job in the store.
unfoldable pub list_rows :
    {D : Type 0} → List (Job D) → Map Bytes ℕ → List (Bytes × Bytes × Bytes × D × D)
list_rows store [] = []
list_rows store ((id, place) ∷ jobs) = elim (get_elem? store place) [
  | none ↦ list_rows store jobs
  | some job ↦ (id, job.kind, job.status, job.progress, job.elapsed_ms) ∷ list_rows store jobs
]

unfoldable pub job_list : {D : Type 0} → JobTable D → List (Bytes × Bytes × Bytes × D × D)
job_list t = list_rows t.store t.jobs
