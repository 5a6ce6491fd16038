-- ===== src/Jobs/Ending.antt =====
-- A job that was started ends, whatever runs between the steps of its coroutine.
use ngx_lua_cpp.Prelude.{
  ℕ, ◌+◌, ◌-◌, ◌*◌, ◌≤◌, ◌≡◌, refl, ap, sym, subst, ◌∙◌, Bool, true, false, not, some, get_elem?,
  get_elem?-modify_self, ltb, arith, if◌then◌else◌, Bool-cases, inl, inr, Option-cases,
}
use ngx_lua_cpp.Prelude.Order.{bytes_ord, same}
use ngx_lua_cpp.Prelude.Text.{Bytes, codes}
use ngx_lua_cpp.Prelude.Double.{Double}
use ngx_lua_cpp.Jobs.{Job, JobTable}
use ngx_lua_cpp.Jobs.Runner.{
  Runner, ready, announcing, counting, counted, napping, napped, closing, closed, ended, World,
  begin, step, tell, start_text, set_progress, count_text,
}

-- The kinds of job that `run_job` knows.
abbrev pub known : Bytes → Bool
known kind = if same kind (codes "count_primes") then true else same kind (codes "sleep_steps")

abbrev pub final_status : Bool → Bytes
final_status failed = if failed then codes "failed" else codes "done"

-- More steps than these are not taken: 40 chunks or 200 naps at most, with a report each.
abbrev pub remaining : Runner → ℕ
remaining ready = 405
remaining (announcing t0) = 404
remaining (counting t0 limit c count primes) = if ltb c 40 then 5 + 2 * (39 - c) else 3
remaining (counted t0 limit c count primes) = 4 + 2 * (39 - c)
remaining (napping t0 steps step_ms s) = if ltb s steps then 5 + 2 * (steps - 1 - s) else 3
remaining (napped t0 steps step_ms s) = 4 + 2 * (steps - 1 - s)
remaining (closing t0 text failed) = 2
remaining (closed failed) = 1
remaining ended = 0

module _ {D : Type 0} (d : Double D) (sqrt : D → D) (print : D → Bytes) where
  -- The state of the coroutine and the job it runs agree.
  abbrev pub Follows : Runner → Job D → Type 0
  Follows ready job = job.status ≡ codes "queued"
  Follows (announcing t0) job = job.status ≡ codes "running"
  Follows (counting t0 limit c count primes) job =
      (job.status ≡ codes "running") × (known job.kind ≡ true)
  Follows (counted t0 limit c count primes) job =
      (job.status ≡ codes "running") × (known job.kind ≡ true)
  Follows (napping t0 steps step_ms s) job =
      (job.status ≡ codes "running") × (known job.kind ≡ true)
  Follows (napped t0 steps step_ms s) job = (job.status ≡ codes "running") × (known job.kind ≡ true)
  Follows (closing t0 text failed) job =
      (job.status ≡ codes "running") × (failed ≡ not (known job.kind))
  Follows (closed failed) job = (job.status ≡ final_status failed) × (failed ≡ not (known job.kind))
  Follows ended job = job.status ≡ final_status (not (known job.kind))

  begin-remaining : (t0 : ℕ) (job : Job D) → remaining (begin d sqrt print t0 job) ≤ 403
  unfolding begin
  begin-remaining t0 job = ground arith

  begin-Follows :
      (t0 : ℕ) (job : Job D)
      → job.status ≡ codes "running"
      → Follows (begin d sqrt print t0 job) job
  unfolding begin
  begin-Follows t0 job h = elim (Bool-cases (same job.kind (codes "count_primes"))) [
    | inl count ↦ (let k : known job.kind ≡ true = rw count in rw count (h, k))
    | inr other ↦ elim (Bool-cases (same job.kind (codes "sleep_steps"))) [
      | inl sleep ↦ (let k : known job.kind ≡ true = rw (other, sleep) in rw (other, sleep) (h, k))
      | inr unknown ↦
          (let k : true ≡ not (known job.kind) = rw (other, unknown) in rw (other, unknown) (h, k))
    ]
  ]

  pub step-remaining :
      (now place : ℕ) (r : Runner) (w : World D)
      → remaining (step d sqrt print now place r w).0 ≤ remaining r - 1
  unfolding step
  step-remaining now place ready w = omega arith
  step-remaining now place (announcing t0) w = elim (Option-cases (get_elem? w.table.store place)) [
    | inl absent ↦ rw (step, absent) (omega arith)
    | inr (job, found) ↦ rw (step, found) (omega (arith, begin-remaining t0 job))
  ]
  step-remaining now place (counting t0 limit c count primes) w = ground arith
  step-remaining now place (counted t0 limit c count primes) w = ground arith
  step-remaining now place (napping t0 steps step_ms s) w = ground arith
  step-remaining now place (napped t0 steps step_ms s) w = ground arith
  step-remaining now place (closing t0 text failed) w = omega arith
  step-remaining now place (closed failed) w = omega arith
  step-remaining now place ended w = omega arith

  -- The job is still there, of the same kind and in the state that the coroutine's stands for.
  abbrev pub Holds : ℕ → Bytes → Runner × World D → Type 0
  Holds place kind s =
      (job : Job D) × (get_elem? s.1.table.store place ≡ some job)
      × (job.kind ≡ kind)
      × Follows s.0 job

  pub told :
      (now place : ℕ) (text : Job D → Bytes) (w : World D)
      → (tell d sqrt print now place text w).table ≡ w.table
  told now place text w = elim (Option-cases (get_elem? w.table.store place)) [
    | inl absent ↦ rw (tell, absent)
    | inr (job, found) ↦ rw (tell, found)
  ]

  pub told-job :
      (now place : ℕ) (text : Job D → Bytes) (w : World D) (job : Job D)
      → get_elem? w.table.store place ≡ some job
      → get_elem? (tell d sqrt print now place text w).table.store place ≡ some job
  told-job now place text w job found =
      ap (λ (t : JobTable D). get_elem? t.store place) (told now place text w) ∙ found

  Holds-if :
      (place : ℕ) (kind : Bytes) (b : Bool) (x y : Runner × World D)
      → Holds place kind x
      → Holds place kind y
      → Holds place kind (if b then x else y)
  Holds-if place kind true x y p q = p
  Holds-if place kind false x y p q = q

  announce-Holds :
      (now place t0 : ℕ) (kind : Bytes) (w : World D)
      → Holds place kind (announcing t0, w)
      → Holds place kind (step d sqrt print now place (announcing t0) w)
  unfolding step begin
  announce-Holds now place t0 kind w (job, found, same_kind, h) =
      let there = told-job now place (start_text d sqrt print) w job found in
      let at : step d sqrt print now place (announcing t0) w
          ≡ (begin d sqrt print t0 job, tell d sqrt print now place (start_text d sqrt print) w) =
        rw (step, found) in
      subst (Holds place kind) (sym at) (job, there, same_kind, begin-Follows t0 job h)

  pub step-Holds :
      (now place : ℕ) (kind : Bytes) (r : Runner) (w : World D)
      → Holds place kind (r, w)
      → Holds place kind (step d sqrt print now place r w)
  unfolding step
  step-Holds now place kind ready w (job, found, same_kind, h) =
      (_, get_elem?-modify_self w.table.store place _ job found, same_kind, refl)
  step-Holds now place kind (announcing t0) w holds = announce-Holds now place t0 kind w holds
  step-Holds now place kind (counting t0 limit c count primes) w (job, found, same_kind, h) =
      let more =
        get_elem?-modify_self w.table.store place (set_progress d sqrt print (c + 1) 40) job
          found in
      let failed : false ≡ not (known job.kind) = ap not (sym h.1) in
      let stop : Holds place kind (closing t0 (count_text d sqrt print count limit) false, w) =
        (job, found, same_kind, (h.0, failed)) in
      Holds-if place kind (ltb c 40) _ _ (Holds-if place kind _ _ _ stop (_, more, same_kind, h))
        stop
  step-Holds now place kind (counted t0 limit c count primes) w (job, found, same_kind, h) =
      (job, told-job now place _ w job found, same_kind, h)
  step-Holds now place kind (napping t0 steps step_ms s) w (job, found, same_kind, h) =
      let more =
        get_elem?-modify_self w.table.store place (set_progress d sqrt print (s + 1) steps) job
          found in
      let failed : false ≡ not (known job.kind) = ap not (sym h.1) in
      Holds-if place kind (ltb s steps) _ _ (_, more, same_kind, h)
        (job, found, same_kind, (h.0, failed))
  step-Holds now place kind (napped t0 steps step_ms s) w (job, found, same_kind, h) =
      (job, told-job now place _ w job found, same_kind, h)
  step-Holds now place kind (closing t0 text failed) w (job, found, same_kind, h) =
      (_, get_elem?-modify_self w.table.store place _ job found, same_kind, (refl, h.1))
  step-Holds now place kind (closed failed) w (job, found, same_kind, h) =
      (job, told-job now place _ w job found, same_kind, h.0 ∙ ap final_status h.1)
  step-Holds now place kind ended w holds = holds
