-- ===== src/Jobs/Runner.antt =====
-- The coroutine `run_job` of src/ngx_lua_cpp.cpp, cut where it takes a lock or publishes an event:
-- between two steps any other call may run. The square root and the printing of a `double`
-- (`std::sqrt`, `std::to_string`) are parameters, as is what `double` is.
use ngx_lua_cpp.Prelude.{
  clamp, ℕ, ◌+◌, ◌-◌, ◌*◌, Bool, true, false, none, some, List, ◌++◌, get_elem?, modify, max, ltb,
  leb, if◌then◌else◌,
}
use ngx_lua_cpp.Prelude.Order.{bytes_ord, same}
use ngx_lua_cpp.Prelude.Text.{Bytes, codes, decimal}
use ngx_lua_cpp.Prelude.Map.{Map, lookup}
use ngx_lua_cpp.Prelude.Double.{Double, clamp_double}
use ngx_lua_cpp.Bus.{EventBus, publish}
use ngx_lua_cpp.Jobs.{Job, JobTable, millis}
use ngx_lua_cpp.Jobs.Sieve.{base_primes, count_chunk, chunk_lo, chunk_hi}

-- Where the coroutine stands. `t0` is the clock at its start.
pub data Runner : Type 0 where
  ready : Runner
  announcing : (t0 : ℕ) → Runner
  counting : (t0 limit c count : ℕ) → (primes : List ℕ) → Runner
  counted : (t0 limit c count : ℕ) → (primes : List ℕ) → Runner
  napping : (t0 steps step_ms s : ℕ) → Runner
  napped : (t0 steps step_ms s : ℕ) → Runner
  closing : (t0 : ℕ) → (result_text : Bytes) → (failed : Bool) → Runner
  closed : (failed : Bool) → Runner
  ended : Runner

pub record World (D : Type 0) : Type 0 where
  pub table : JobTable D
  pub bus : EventBus D

abbrev pub bar : Bytes
bar = codes "|"

module _ {D : Type 0} (d : Double D) (sqrt : D → D) (print : D → Bytes) where
  -- `payload.count(key) ? payload.at(key) : value`
  abbrev pub payload_or : Bytes → D → Map Bytes D → D
  payload_or key value payload = elim (lookup key payload) [ none ↦ value | some x ↦ x ]

  abbrev pub elapsed : ℕ → ℕ → D
  elapsed now t0 = millis d (now - t0)

  -- `jobs_mutex` is held and one job is changed.
  abbrev pub update_job : ℕ → (Job D → Job D) → World D → World D
  update_job place f w = record w {
    table = record (w.table) { store = modify place f w.table.store };
  }

  -- `event_bus->pub("jobs", …)` with a text made of the job
  abbrev pub tell : ℕ → ℕ → (Job D → Bytes) → World D → World D
  tell now place text w = elim (get_elem? w.table.store place) [
    | none ↦ w
    | some job ↦ record w { bus = publish d (millis d now) (codes "jobs") (text job) w.bus }
  ]

  abbrev pub running_text : ℕ → ℕ → Job D → Bytes
  running_text now t0 job =
      job.id
      ++ bar
      ++ job.kind
      ++ codes "|running|"
      ++ print job.progress
      ++ bar
      ++ print (elapsed now t0)

  abbrev pub start_text : Job D → Bytes
  start_text job = job.id ++ bar ++ job.kind ++ codes "|running|0.0|0.0"

  abbrev pub final_text : Bool → Job D → Bytes
  final_text failed job =
      job.id
      ++ bar
      ++ job.kind
      ++ bar
      ++ (if failed then codes "failed" else codes "done")
      ++ codes "|1.0|"
      ++ print job.elapsed_ms

  -- What comes before the loop of `count_primes`.
  abbrev pub begin_count : ℕ → Map Bytes D → Runner
  begin_count t0 payload =
      let limit =
        clamp (d.to_nat (payload_or (codes "limit") (d.of_nat 10000000) payload)) 1000 200000000 in
      counting t0 limit 0 0 (base_primes (d.to_nat (sqrt (d.of_nat limit)) + 1))

  -- What comes before the loop of `sleep_steps`.
  abbrev pub begin_sleep : ℕ → Map Bytes D → Runner
  begin_sleep t0 payload =
      let steps = clamp (d.to_nat (payload_or (codes "steps") (d.of_nat 50) payload)) 1 200 in
      let ms =
        clamp_double d (payload_or (codes "ms") (d.of_nat 2000) payload) (d.of_nat 100)
          (d.of_nat 60000) in
      napping t0 steps (max (d.to_nat (d.div ms (d.of_nat steps))) 1) 0

  unfoldable pub begin : ℕ → Job D → Runner
  begin t0 job =
      if same job.kind (codes "count_primes")
      then begin_count t0 job.payload
      else if same job.kind (codes "sleep_steps")
      then begin_sleep t0 job.payload
      else closing t0 (codes "unknown job kind: " ++ job.kind) true

  abbrev pub count_text : ℕ → ℕ → Bytes
  count_text count limit = decimal count ++ codes " primes <= " ++ decimal limit

  abbrev pub sleep_text : ℕ → ℕ → Bytes
  sleep_text steps step_ms =
      codes "slept "
      ++ decimal (steps * step_ms)
      ++ codes " ms in "
      ++ decimal steps
      ++ codes " steps"

  abbrev pub set_progress : ℕ → ℕ → Job D → Job D
  set_progress done all job = record job { progress = d.div (d.of_nat done) (d.of_nat all) }

  abbrev pub close : ℕ → ℕ → Bytes → Bool → Job D → Job D
  close now t0 text failed job = record job {
    status = if failed then codes "failed" else codes "done";
    result = text;
    elapsed_ms = elapsed now t0;
  }

  -- One step of the coroutine that runs the job at `place`, when the clock shows `now`.
  unfoldable pub step : ℕ → ℕ → Runner → World D → Runner × World D
  step now place ready w =
      (announcing now, update_job place (λ job. record job { status = codes "running" }) w)
  step now place (announcing t0) w = elim (get_elem? w.table.store place) [
    | none ↦ (ended, w)
    | some job ↦ (begin t0 job, tell now place start_text w)
  ]
  step now place (counting t0 limit c count primes) w =
      let lo = chunk_lo limit c in
      let hi = chunk_hi limit c in
      let more : Runner × World D = (
        counted t0 limit c (count + count_chunk lo hi primes) primes,
        update_job place (set_progress (c + 1) 40) w,
      ) in
      let stop : Runner × World D = (closing t0 (count_text count limit) false, w) in
      if ltb c 40 then if leb hi lo then stop else more else stop
  step now place (counted t0 limit c count primes) w =
      (counting t0 limit (c + 1) count primes, tell now place (running_text now t0) w)
  step now place (napping t0 steps step_ms s) w =
      let more : Runner × World D =
        (napped t0 steps step_ms s, update_job place (set_progress (s + 1) steps) w) in
      let stop : Runner × World D = (closing t0 (sleep_text steps step_ms) false, w) in
      if ltb s steps then more else stop
  step now place (napped t0 steps step_ms s) w =
      (napping t0 steps step_ms (s + 1), tell now place (running_text now t0) w)
  step now place (closing t0 text failed) w =
      (closed failed, update_job place (close now t0 text failed) w)
  step now place (closed failed) w = (ended, tell now place (final_text failed) w)
  step now place ended w = (ended, w)
