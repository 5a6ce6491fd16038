-- ===== src/Jobs/Interleaving.antt =====
-- The coroutines of several jobs and the calls of others, in any order.
use ngx_lua_cpp.Prelude.{
  ℕ, ◌+◌, ◌-◌, ◌≤◌, ◌<◌, ◌≡◌, refl, ap, sym, subst, ◌∙◌, ◌≢◌, Bool, true, false, not, Option, some,
  List, [], ◌∷◌, length, get_elem?, get_elem?-modify_other, get_elem?-snoc_old, get_elem?-snoc_new,
  All, ltb, leb, arith, Bool-cases, inl, inr, Option-cases,
}
use ngx_lua_cpp.Prelude.Text.{Bytes}
use ngx_lua_cpp.Prelude.Map.{Map}
use ngx_lua_cpp.Prelude.Double.{Double}
use ngx_lua_cpp.Jobs.{Job, JobTable, job_submit}
use ngx_lua_cpp.Jobs.Sieve.{chunk_lo, chunk_hi}
use ngx_lua_cpp.Jobs.Runner.{
  Runner, ready, announcing, counting, counted, napping, napped, closing, closed, ended, World,
  step, tell, update_job, set_progress,
}
use ngx_lua_cpp.Jobs.Ending.{
  known, final_status, remaining, Follows, Holds, step-remaining, step-Holds, told,
}

-- A turn of a coroutine: what others did since its last step, and the clock.
abbrev pub Turn : Type 0 → Type 0
Turn D = (World D → World D) × ℕ

abbrev pub job_at : {D : Type 0} → ℕ → World D → Option (Job D)
job_at place w = get_elem? w.table.store place

-- What others did leaves the job at a place as it is.
abbrev pub Keeps : {D : Type 0} → ℕ → (World D → World D) → Type 0
Keeps {D} place others = (w : World D) → job_at place (others w) ≡ job_at place w

module _ {D : Type 0} (d : Double D) (sqrt : D → D) (print : D → Bytes) where
  unfoldable pub run : List (Turn D) → ℕ → Runner × World D → Runner × World D
  run [] place s = s
  run ((others, now) ∷ turns) place (r, w) =
      run turns place (step d sqrt print now place r (others w))

  run-remaining :
      (turns : List (Turn D)) (place : ℕ) (r : Runner) (w : World D)
      → remaining (run turns place (r, w)).0 ≤ remaining r - length turns
  unfolding run
  run-remaining [] place r w = omega arith
  run-remaining ((others, now) ∷ turns) place r w =
      let s : Runner × World D = step d sqrt print now place r (others w) in
      omega (
        arith,
        step-remaining d sqrt print now place r (others w),
        run-remaining turns place s.0 s.1,
      )

  run-Holds :
      (turns : List (Turn D)) (place : ℕ) (kind : Bytes) (r : Runner) (w : World D)
      → All (λ turn. Keeps place turn.0) turns
      → Holds d sqrt print place kind (r, w)
      → Holds d sqrt print place kind (run turns place (r, w))
  unfolding run
  run-Holds [] place kind r w keeps holds = holds
  run-Holds ((others, now) ∷ turns) place kind r w keeps (job, found, same_kind, follows) =
      let s : Runner × World D = step d sqrt print now place r (others w) in
      run-Holds turns place kind s.0 s.1 keeps.1 (
        step-Holds d sqrt print now place kind r (others w)
          (job, keeps.0 w ∙ found, same_kind, follows))

  ended_of_remaining : (r : Runner) → remaining r ≡ 0 → r ≡ ended
  ended_of_remaining ended h = refl
  ended_of_remaining ready h = absurd (omega arith)
  ended_of_remaining (announcing t0) h = absurd (omega arith)
  ended_of_remaining (counting t0 limit c count primes) h = ground arith
  ended_of_remaining (counted t0 limit c count primes) h = absurd (omega arith)
  ended_of_remaining (napping t0 steps step_ms s) h = ground arith
  ended_of_remaining (napped t0 steps step_ms s) h = absurd (omega arith)
  ended_of_remaining (closing t0 text failed) h = absurd (omega arith)
  ended_of_remaining (closed failed) h = absurd (omega arith)

  -- A job that is submitted to a running instance ends within 405 steps of its coroutine, whatever
  -- others do between them as long as they leave this job alone: its status is then "done" for a
  -- kind that `run_job` knows, and "failed" for another.
  pub run_job-ends :
      (now : ℕ) (kind : Bytes) (payload : Map Bytes D) (w : World D) (turns : List (Turn D))
      → All (λ turn. Keeps (length w.table.store) turn.0) turns
      → 405 ≤ length turns
      → let place = length w.table.store in
        let submitted = job_submit d true now kind payload w.table in
        let s = run turns place (ready, record w { table = submitted.2 }) in
        (submitted.1 ≡ some place)
        × (s.0 ≡ ended)
        × ((job : Job D) × (job_at place s.1 ≡ some job)
            × (job.kind ≡ kind)
            × (job.status ≡ final_status (not (known kind))))
  run_job-ends now kind payload w turns keeps enough =
      let place = length w.table.store in
      let w' : World D = record w { table = (job_submit d true now kind payload w.table).2 } in
      let s : Runner × World D = run turns place (ready, w') in
      let start : Holds d sqrt print place kind (ready, w') =
        unfold job_submit in (_, get_elem?-snoc_new w.table.store _, refl, refl) in
      let over : s.0 ≡ ended =
        ended_of_remaining s.0 (omega (arith, run-remaining turns place ready w')) in
      let (job, found, same_kind, follows) = run-Holds turns place kind ready w' keeps start in
      let final : Follows d sqrt print ended job =
        subst (λ r. Follows d sqrt print r job) over follows in
      (
        (unfold job_submit in refl),
        over,
        (job, found, same_kind, final ∙ ap (λ k. final_status (not (known k))) same_kind),
      )

  modify-Keeps :
      (place other : ℕ) (f : Job D → Job D)
      → place ≢ other
      → Keeps place (update_job d sqrt print other f)
  modify-Keeps place other f h w =
      get_elem?-modify_other w.table.store other place f (λ e. h (sym e))

  tell-Keeps :
      (now place other : ℕ) (text : Job D → Bytes) → Keeps place (tell d sqrt print now other text)
  tell-Keeps now place other text w =
      ap (λ (t : JobTable D). get_elem? t.store place) (told d sqrt print now other text w)

  -- A step of another job's coroutine leaves a job alone.
  pub step-Keeps :
      (now place other : ℕ) (r : Runner)
      → place ≢ other
      → Keeps place (λ w. (step d sqrt print now other r w).1)
  unfolding step
  step-Keeps now place other ready h w = modify-Keeps place other _ h w
  step-Keeps now place other (announcing t0) h w =
      elim (Option-cases (get_elem? w.table.store other)) [
        | inl absent ↦ rw (step, absent)
        | inr (job, found) ↦ rw (step, found) (tell-Keeps now place other _ w)
      ]
  step-Keeps now place other (counting t0 limit c count primes) h w = elim (Bool-cases (ltb c 40)) [
    | inl chunk ↦ elim (Bool-cases (leb (chunk_hi limit c) (chunk_lo limit c))) [
      | inl past ↦ rw (step, chunk, past)
      | inr inside ↦
          rw (step, chunk, inside)
            (modify-Keeps place other (set_progress d sqrt print (c + 1) 40) h w)
    ]
    | inr over ↦ rw (step, over)
  ]
  step-Keeps now place other (counted t0 limit c count primes) h w = tell-Keeps now place other _ w
  step-Keeps now place other (napping t0 steps step_ms s) h w = elim (Bool-cases (ltb s steps)) [
    | inl nap ↦
        rw (step, nap) (modify-Keeps place other (set_progress d sqrt print (s + 1) steps) h w)
    | inr over ↦ rw (step, over)
  ]
  step-Keeps now place other (napped t0 steps step_ms s) h w = tell-Keeps now place other _ w
  step-Keeps now place other (closing t0 text failed) h w = modify-Keeps place other _ h w
  step-Keeps now place other (closed failed) h w = tell-Keeps now place other _ w
  step-Keeps now place other ended h w = refl

  -- So does a submission.
  pub job_submit-Keeps :
      (running : Bool) (now place : ℕ) (kind : Bytes) (payload : Map Bytes D) (w : World D)
      → place < length w.table.store
      → job_at place (record w { table = (job_submit d running now kind payload w.table).2 })
        ≡ job_at place w
  unfolding job_submit
  job_submit-Keeps false now place kind payload w h = refl
  job_submit-Keeps true now place kind payload w h = get_elem?-snoc_old w.table.store _ place h
