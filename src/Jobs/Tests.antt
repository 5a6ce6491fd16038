-- ===== src/Jobs/Tests.antt =====
-- Runs of the jobs, and the theorems at concrete inputs, with whole numbers for the doubles.
use ngx_lua_cpp.Prelude.{
  ℕ, zero, suc, ◌+◌, ◌≤◌, ◌<◌, ◌*◌, ◌≡◌, refl, true, not, some, List, [], ◌∷◌, length, replicate,
  All, arith,
}
use ngx_lua_cpp.Prelude.Order.{bytes_ord, compare_bytes}
use ngx_lua_cpp.Prelude.Text.{Bytes, codes, decimal, decimal_loop}
use ngx_lua_cpp.Prelude.Map.{Map, lookup, insert}
use ngx_lua_cpp.Prelude.Double.{whole_double}
use ngx_lua_cpp.Jobs.{Job, JobTable, job_id, evict_loop, init, queued_job, job_submit, job_query}
use ngx_lua_cpp.Bus
use ngx_lua_cpp.Jobs.Sieve.{
  strike, sieve_base, collect, base_primes, strike_all, sum, count_chunk, chunk_lo, chunk_hi,
}
use ngx_lua_cpp.Jobs.PrimeCounts
use ngx_lua_cpp.Jobs.PrimeCounts.{IsPrimeCount}
use ngx_lua_cpp.Jobs.Window
use ngx_lua_cpp.Jobs.Window.{window, IsValid}
use ngx_lua_cpp.Jobs.Overflow
use ngx_lua_cpp.Jobs.Runner.{World, ready, ended, count_text}
use ngx_lua_cpp.Jobs.Ending.{known, final_status}
use ngx_lua_cpp.Jobs.Interleaving
use ngx_lua_cpp.Jobs.Result
use ngx_lua_cpp.Jobs.Result.{limit_of, count_of}
use ngx_lua_cpp.Jobs.PrimeTotals.{primes_in, is_prime, divided}
use ngx_lua_cpp.Jobs.Interleaving.{Turn, Keeps, job_at, run}

program : Unit {0}
unfolding job_id decimal decimal_loop evict_loop init job_submit job_query lookup insert
    compare_bytes
program = tt

sieve : Unit {0}
unfolding strike sieve_base collect base_primes strike_all count_chunk chunk_lo chunk_hi
sieve = tt

identifiers : job_id 7 ≡ codes "J00007"
unfolding program
identifiers = refl

small_primes : base_primes 32 ≡ 2 ∷ 3 ∷ 5 ∷ 7 ∷ 11 ∷ 13 ∷ 17 ∷ 19 ∷ 23 ∷ 29 ∷ 31 ∷ []
unfolding sieve
small_primes = refl

-- With a limit of 1200 the first chunk ends at 32 and the second starts at 30: 31 is counted in both.
counted_in_first : count_chunk (chunk_lo 1200 0) (chunk_hi 1200 0) (base_primes 35) ≡ 11
unfolding sieve
counted_in_first = refl

counted_in_second : count_chunk (chunk_lo 1200 1) (chunk_hi 1200 1) (base_primes 35) ≡ 7
unfolding sieve
counted_in_second = refl

abbrev one_job : JobTable ℕ
one_job = (job_submit whole_double true 5 (codes "count_primes") [] (init whole_double)).2

one_job-IsValid : IsValid one_job
one_job-IsValid =
    Window.job_submit-IsValid whole_double 5 (codes "count_primes") [] (init whole_double)
      (unfold init in omega arith) (Window.init-IsValid whole_double)

job_submit-IsValid_example : IsValid (job_submit whole_double true 6 (codes "x") [] one_job).2
job_submit-IsValid_example =
    Window.job_submit-IsValid whole_double 6 (codes "x") [] one_job
      (unfold init job_submit in omega arith) one_job-IsValid

abbrev first_job : Job ℕ
first_job = queued_job whole_double 5 1 (codes "count_primes") []

abbrev idle_turns : List (Turn ℕ)
idle_turns = replicate 405 ((λ w. w), 7)

idle_turns-Keeps :
    (n place : ℕ) → All (λ (turn : Turn ℕ). Keeps place turn.0) (replicate n ((λ w. w), 7))
idle_turns-Keeps zero place = tt
idle_turns-Keeps (suc n) place = ((λ w. refl), idle_turns-Keeps n place)

abbrev world : World ℕ
world = record { table = one_job; bus = Bus.init whole_double }

run_job-ends_example :
    let place = length world.table.store in
    let submitted = job_submit whole_double true 9 (codes "x") [] world.table in
    let s =
      run whole_double
        (λ x. x)
        decimal
        idle_turns
        place
        (ready, record world { table = submitted.2 }) in
    (submitted.1 ≡ some place)
    × (s.0 ≡ ended)
    × ((job : Job ℕ) × (job_at place s.1 ≡ some job)
        × (job.kind ≡ codes "x")
        × (job.status ≡ final_status (not (known (codes "x")))))
run_job-ends_example =
    Interleaving.run_job-ends whole_double (λ x. x) decimal 9 (codes "x") [] world idle_turns
      (idle_turns-Keeps 405 (length world.table.store)) (omega arith)

-- A limit of 1000: the root of the sieve need not be the best one.
abbrev thousand : Map Bytes ℕ
thousand = (codes "limit", 1000) ∷ []

square_above : (n : ℕ) → n ≤ 200000000 → n < (n + 1) * (n + 1)
square_above n h = grind arith

run_job-count_primes_example :
    let s =
      run whole_double
        (λ x. x)
        decimal
        idle_turns
        (length world.table.store)
        (
          ready,
          record world {
            table = (job_submit whole_double true 9 (codes "count_primes") thousand world.table).2;
          },
        ) in
    (job : Job ℕ) × (job_at (length world.table.store) s.1 ≡ some job)
    × (job.status ≡ codes "done")
    × (job.result
        ≡ count_text whole_double
            (λ x. x)
            decimal
            (count_of whole_double
              (λ x. x)
              decimal
              (limit_of whole_double (λ x. x) decimal thousand))
            (limit_of whole_double (λ x. x) decimal thousand))
run_job-count_primes_example =
    Result.run_job-count_primes whole_double (λ x. x) decimal square_above 9 thousand world
      idle_turns (idle_turns-Keeps 405 (length world.table.store)) (omega arith)

primes_of_chunks : primes_in 2 998 ≡ 168
unfolding primes_in is_prime divided
primes_of_chunks = refl

-- As many submissions as asked for.
unfoldable submissions : ℕ → JobTable ℕ
submissions zero = init whole_double
submissions (suc n) = (job_submit whole_double true 0 (codes "x") [] (submissions n)).2

next_counter :
    (t : JobTable ℕ)
    → (job_submit whole_double true 0 (codes "x") [] t).2.job_counter ≡ t.job_counter + 1
unfolding job_submit
next_counter t = refl

submissions-IsValid :
    (n : ℕ) → n ≤ 99999 → ((submissions n).job_counter ≡ n) × IsValid (submissions n)
unfolding submissions
submissions-IsValid zero h = ((unfold init in refl), Window.init-IsValid whole_double)
submissions-IsValid (suc n) h =
    let (counter, valid) = submissions-IsValid n (omega arith) in
    (
      omega (arith, counter, next_counter (submissions n)),
      Window.job_submit-IsValid whole_double 0 (codes "x") [] (submissions n)
          (omega (arith, counter)) valid,
    )

job_submit-six_digits_example :
    let r = job_submit whole_double true 6 (codes "x") [] (submissions 99999) in
    (r.0 ≡ codes "J100000")
    × (job_query whole_double r.0 r.2 ≡ (codes "not_found", 0, 0, codes ""))
    × (r.2.jobs ≡ (submissions 99999).jobs)
job_submit-six_digits_example =
    Overflow.job_submit-six_digits whole_double 6 (codes "x") [] (submissions 99999)
      (submissions-IsValid 99999 (omega arith)).0 (submissions-IsValid 99999 (omega arith)).1

-- Of the values from 10 to 13, 11 and 13 are primes.
count_chunk-IsPrimeCount_example :
    (flags : List ℕ) × (count_chunk 10 14 (base_primes 3) ≡ sum flags) × IsPrimeCount 10 14 flags
count_chunk-IsPrimeCount_example =
    PrimeCounts.count_chunk-IsPrimeCount 3 10 14 (omega arith) (omega arith)

two_primes : count_chunk 10 14 (base_primes 3) ≡ 2
unfolding sieve
two_primes = refl
