-- ===== src/Jobs/Result.antt =====
-- What a job of the kind "count_primes" reports.
use ngx_lua_cpp.Prelude.{
  clamp, ℕ, suc, ◌+◌, ◌-◌, ◌*◌, ◌≤◌, ◌<◌, ◌≡◌, refl, ap, sym, subst, ◌∙◌, Bool, true, false, not,
  Option, none, some, List, [], ◌∷◌, length, get_elem?-modify_self, get_elem?-snoc_new, ltb, leb,
  All, arith, if◌then◌else◌,
}
use ngx_lua_cpp.Prelude.Order.{bytes_ord, same, compare_bytes}
use ngx_lua_cpp.Prelude.Text.{Bytes, codes}
use ngx_lua_cpp.Prelude.Map.{Map}
use ngx_lua_cpp.Prelude.Double.{Double}
use ngx_lua_cpp.Jobs.{Job, job_submit}
use ngx_lua_cpp.Jobs.Sieve.{chunk_lo, chunk_hi, count_chunk, base_primes}
use ngx_lua_cpp.Jobs.Runner.{
  Runner, ready, announcing, counting, counted, napping, napped, closing, closed, ended, World,
  payload_or, begin, step, tell, start_text, set_progress, count_text,
}
use ngx_lua_cpp.Jobs.Ending.{told-job, known, final_status}
use ngx_lua_cpp.Jobs.Interleaving.{Turn, job_at, Keeps, run, run_job-ends}
use ngx_lua_cpp.Jobs.Chunks.{seg_size}
use ngx_lua_cpp.Jobs.PrimeTotals.{
  primes_in, count_chunk-primes_in, counted_before, counted_before-all,
}
use native.Mathlib.Nat

module _ {D : Type 0} (d : Double D) (sqrt : D → D) (print : D → Bytes) where
  -- The limit that a payload asks for, and the root that is taken of it.
  abbrev pub limit_of : Map Bytes D → ℕ
  limit_of payload =
      clamp (d.to_nat (payload_or d sqrt print (codes "limit") (d.of_nat 10000000) payload)) 1000
        200000000

  abbrev pub root_of : ℕ → ℕ
  root_of limit = d.to_nat (sqrt (d.of_nat limit)) + 1

  -- `std::sqrt` is not below the whole part of the root.
  abbrev pub IsRoot : Type 0
  IsRoot =
      (n : ℕ)
      → n ≤ 200000000
      → n < (d.to_nat (sqrt (d.of_nat n)) + 1) * (d.to_nat (sqrt (d.of_nat n)) + 1)

  -- What the coroutine has counted so far, and what it reports.
  module _ (payload : Map Bytes D) where
    abbrev limit : ℕ
    limit = limit_of payload

    abbrev final_text : Bytes
    final_text = count_text d sqrt print (counted_before limit 40) limit

    abbrev Computes : Runner → Job D → Type 0
    Computes ready job = (same job.kind (codes "count_primes") ≡ true) × (job.payload ≡ payload)
    Computes (announcing t0) job =
        (same job.kind (codes "count_primes") ≡ true) × (job.payload ≡ payload)
    Computes (counting t0 l c count primes) job =
        (l ≡ limit)
        × (primes ≡ base_primes (root_of limit))
        × (c ≤ 40)
        × (count ≡ counted_before limit c)
    Computes (counted t0 l c count primes) job =
        (l ≡ limit)
        × (primes ≡ base_primes (root_of limit))
        × (c < 40)
        × (count ≡ counted_before limit (c + 1))
    Computes (napping t0 steps step_ms s) job = ⊥
    Computes (napped t0 steps step_ms s) job = ⊥
    Computes (closing t0 text failed) job = text ≡ final_text
    Computes (closed failed) job = job.result ≡ final_text
    Computes ended job = job.result ≡ final_text

    abbrev Reports : ℕ → Runner × World D → Type 0
    Reports place s = (job : Job D) × (job_at place s.1 ≡ some job) × Computes s.0 job

    limit_bounds : (1000 ≤ limit) × (limit ≤ 200000000)
    limit_bounds = ground arith

    -- The chunks are not empty, and lie where the base primes reach.
    chunk_bounds :
        (c : ℕ)
        → c < 40
        → (leb (chunk_hi limit c) (chunk_lo limit c) ≡ false)
          × (2 ≤ chunk_lo limit c)
          × (chunk_hi limit c ≤ limit)
    unfolding chunk_lo chunk_hi
    chunk_bounds c small =
        let big = limit_bounds.0 in
        let below : c * seg_size limit ≤ 39 * seg_size limit =
          Nat.mul-le-mul_right (seg_size limit) (omega arith) in
        let less : chunk_lo limit c < chunk_hi limit c = omega (arith, below, big) in
        (ground (arith, less), omega arith, omega arith)

    counts_chunk :
        IsRoot
        → (c : ℕ) → c < 40
        → counted_before limit c
            + count_chunk (chunk_lo limit c) (chunk_hi limit c) (base_primes (root_of limit))
          ≡ counted_before limit (c + 1)
    unfolding counted_before
    counts_chunk is_root c small =
        let (filled, low, high) = chunk_bounds c small in
        let r = d.to_nat (sqrt (d.of_nat limit)) in
        let square = is_root limit limit_bounds.1 in
        let wider : (r + 1) * (r + 1) ≤ (r + 1 + 1) * (r + 1 + 1) =
          Nat.mul-le-mul (omega arith) (omega arith) in
        let chunk =
          count_chunk-primes_in (root_of limit) (chunk_lo limit c) (chunk_hi limit c) low
            (omega (arith, high, square, wider)) in
        let next : suc c ≡ c + 1 = omega arith in
        ap (λ n. counted_before limit c + n) chunk ∙ ap (counted_before limit) next

    Reports-if :
        (place : ℕ) (b : Bool) (x y : Runner × World D)
        → (b ≡ true → Reports place x)
        → (b ≡ false → Reports place y)
        → Reports place (if b then x else y)
    Reports-if place true x y p q = p refl
    Reports-if place false x y p q = q refl

    abbrev counting_at : ℕ → ℕ → Runner
    counting_at t0 c = counting t0 limit c (counted_before limit c) (base_primes (root_of limit))

    begin-counting :
        (t0 : ℕ) (job : Job D)
        → same job.kind (codes "count_primes") ≡ true
        → job.payload ≡ payload
        → Computes (begin d sqrt print t0 job) job
    unfolding begin counted_before
    begin-counting t0 job kind sent = rw kind (
      ap limit_of sent,
      ap (λ (p : Map Bytes D). base_primes (root_of (limit_of p))) sent,
      omega arith,
      refl,
    )

    announce-Reports :
        (now place t0 : ℕ) (w : World D)
        → Reports place (announcing t0, w)
        → Reports place (step d sqrt print now place (announcing t0) w)
    unfolding step
    announce-Reports now place t0 w (job, found, (kind, sent)) =
        let at : step d sqrt print now place (announcing t0) w
            ≡ (begin d sqrt print t0 job, tell d sqrt print now place (start_text d sqrt print) w) =
          rw (step, found) in
        let there = told-job d sqrt print now place (start_text d sqrt print) w job found in
        subst (Reports place) (sym at) (job, there, begin-counting t0 job kind sent)

    count-Reports :
        IsRoot
        → (now place t0 c : ℕ) (w : World D) (job : Job D) → job_at place w ≡ some job
        → c ≤ 40
        → Reports place (step d sqrt print now place (counting_at t0 c) w)
    unfolding step
    count-Reports is_root now place t0 c w job found few =
        let lo = chunk_lo limit c in
        let hi = chunk_hi limit c in
        Reports-if place (ltb c 40) _ _
          (λ small.
            let less : c < 40 = ground (arith, small) in
            Reports-if place (leb hi lo) _ _
              (λ empty. absurd (ground (arith, empty, (chunk_bounds c less).0)))
              (λ filled. (
                _,
                get_elem?-modify_self w.table.store place (set_progress d sqrt print (c + 1) 40) job
                    found,
                (refl, refl, less, counts_chunk is_root c less),
              )))
          (λ over.
            let all : c ≡ 40 = ground (arith, over, few) in
            (job, found, ap (λ n. count_text d sqrt print (counted_before limit n) limit) all))

    step-Reports :
        IsRoot
        → (now place : ℕ) (r : Runner) (w : World D) → Reports place (r, w)
        → Reports place (step d sqrt print now place r w)
    unfolding step
    step-Reports is_root now place ready w (job, found, h) =
        (_, get_elem?-modify_self w.table.store place _ job found, h)
    step-Reports is_root now place (announcing t0) w h = announce-Reports now place t0 w h
    step-Reports is_root now place (counting t0 l c count primes) w
          (job, found, (at, base, few, so_far)) =
        let here : counting t0 l c count primes ≡ counting_at t0 c = cc in
        subst (λ (r : Runner). Reports place (step d sqrt print now place r w)) (sym here)
          (count-Reports is_root now place t0 c w job found few)
    step-Reports is_root now place (counted t0 l c count primes) w
          (job, found, (at, base, few, so_far)) =
        (job, told-job d sqrt print now place _ w job found, (at, base, omega arith, so_far))
    step-Reports is_root now place (napping t0 steps step_ms s) w (job, found, h) = absurd h
    step-Reports is_root now place (napped t0 steps step_ms s) w (job, found, h) = absurd h
    step-Reports is_root now place (closing t0 text failed) w (job, found, h) =
        (_, get_elem?-modify_self w.table.store place _ job found, h)
    step-Reports is_root now place (closed failed) w (job, found, h) =
        (job, told-job d sqrt print now place _ w job found, h)
    step-Reports is_root now place ended w h = h

    run-Reports :
        IsRoot
        → (turns : List (Turn D)) (place : ℕ) (r : Runner) (w : World D)
        → All (λ turn. Keeps place turn.0) turns
        → Reports place (r, w)
        → Reports place (run d sqrt print turns place (r, w))
    unfolding run
    run-Reports is_root [] place r w keeps h = h
    run-Reports is_root ((others, now) ∷ turns) place r w keeps (job, found, computes) =
        let s : Runner × World D = step d sqrt print now place r (others w) in
        run-Reports is_root turns place s.0 s.1 keeps.1
          (step-Reports is_root now place r (others w) (job, keeps.0 w ∙ found, computes))

  -- The text for a count: as the code adds it up, over forty chunks.
  abbrev pub count_of : ℕ → ℕ
  count_of limit = primes_in 2 (40 * seg_size limit - 2) + primes_in (seg_size limit) 2

  job_of :
      (place : ℕ) (w : World D) (a b : Job D)
      → job_at place w ≡ some a
      → job_at place w ≡ some b
      → a ≡ b
  job_of place w a b ha hb =
      ap (λ (o : Option (Job D)). elim o [ none ↦ a | some x ↦ x ]) (sym ha ∙ hb)

  status_done : final_status (not (known (codes "count_primes"))) ≡ codes "done"
  unfolding compare_bytes
  status_done = refl

  -- A job "count_primes" that is submitted to a running instance is "done" after 405 steps of its
  -- coroutine at most, whatever others do between them as long as they leave this job alone. Its result
  -- is, for the limit of its payload brought between 1000 and 200000000, the number of the primes
  -- below forty times the size of a chunk (the fortieth part of the limit), with those of the two
  -- values that the first chunk shares with the second counted once more. The root that `std::sqrt` gives
  -- is not below the whole part of the true one.
  pub run_job-count_primes :
      IsRoot
      → (now : ℕ) (payload : Map Bytes D) (w : World D) (turns : List (Turn D))
      → All (λ turn. Keeps (length w.table.store) turn.0) turns
      → 405 ≤ length turns
      → let place = length w.table.store in
        let submitted = job_submit d true now (codes "count_primes") payload w.table in
        let s = run d sqrt print turns place (ready, record w { table = submitted.2 }) in
        let limit = limit_of payload in
        (job : Job D) × (job_at place s.1 ≡ some job)
        × (job.status ≡ codes "done")
        × (job.result ≡ count_text d sqrt print (count_of limit) limit)
  run_job-count_primes is_root now payload w turns keeps enough =
      let place = length w.table.store in
      let w' : World D = record w {
        table = (job_submit d true now (codes "count_primes") payload w.table).2;
      } in
      let start : Reports payload place (ready, w') =
        unfold job_submit in
        (_, get_elem?-snoc_new w.table.store _, ((unfold compare_bytes in refl), refl)) in
      let (submitted, over, (job, found, kind, status)) =
        run_job-ends d sqrt print now (codes "count_primes") payload w turns keeps enough in
      let (job', found', computed) = run-Reports payload is_root turns place ready w' keeps start in
      let s : Runner × World D = run d sqrt print turns place (ready, w') in
      let text : job'.result ≡ final_text payload =
        subst (λ (r : Runner). Computes payload r job') over computed in
      let one = job_of place s.1 job' job found' found in
      let total = counted_before-all (limit_of payload) (limit_bounds payload).0 in
      (
        job,
        found,
        status ∙ status_done,
        ap (λ (j : Job D). j.result) (sym one)
            ∙ text
            ∙ ap (λ n. count_text d sqrt print n (limit_of payload)) total,
      )
