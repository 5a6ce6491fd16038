-- ===== src/Jobs/Queries.antt =====
-- What `job_query` and `job_list` tell of the jobs that were submitted.
use ngx_lua_cpp.Prelude.{
  ℕ, zero, suc, ◌+◌, ◌-◌, ◌≤◌, ◌<◌, ◌≡◌, refl, ap, subst, ◌∙◌, true, false, none, some, List, [],
  ◌∷◌, ◌++◌, length, get_elem?, drop, drop_at, drop_all, get_elem?-snoc_new, map, min, arith, ltb,
  ltb→lt, ==_iff, ◌==◌, if◌then◌else◌, Bool-cases, inl, inr,
}
use ngx_lua_cpp.Prelude.Order.{bytes_ord}
use ngx_lua_cpp.Prelude.Text.{Bytes, codes}
use ngx_lua_cpp.Prelude.Map.{Map, lookup, same_refl}
use ngx_lua_cpp.Prelude.Double.{Double}
use ngx_lua_cpp.Jobs.{Job, JobTable, job_id, queued_job, job_submit, job_query, job_list, list_rows}
use ngx_lua_cpp.Jobs.Ids.{job_id_order}
use ngx_lua_cpp.Jobs.Window.{window, job_id_later, IsValid, job_submit-IsValid}

-- The keys of a window are found at their places, and no other number's is found.
lookup-window :
    (i k n : ℕ) → i + k < 100000 → i ≤ n → n < i + k → lookup (job_id (suc n)) (window i k) ≡ some n
unfolding lookup window
lookup-window i zero n top low high = absurd (omega arith)
lookup-window i (suc k) n top low high = elim (Bool-cases (i == n)) [
  | inl here ↦ let at : i ≡ n = (==_iff i n).0 here in rw (at, same_refl (job_id (suc n)))
  | inr later ↦
      let past : i < n = ground arith in
      ground (
        arith,
        job_id_later (suc i) (suc n) (omega arith) (omega arith),
        lookup-window (suc i) k n (omega arith) (omega arith) (omega arith),
      )
]

lookup-window_before :
    (i k n : ℕ) → i + k < 100000 → n < i → lookup (job_id (suc n)) (window i k) ≡ none
unfolding lookup window
lookup-window_before i zero n top low = refl
lookup-window_before i (suc k) n top low = ground (
  arith,
  job_id_order (suc n) (suc i) (omega arith) (omega arith),
  lookup-window_before (suc i) k n (omega arith) (omega arith),
)

module _ {D : Type 0} where
  -- A row of the listing, and the answer to a query, as the fields of a job.
  abbrev pub row : Job D → Bytes × Bytes × Bytes × D × D
  row job = (job.id, job.kind, job.status, job.progress, job.elapsed_ms)

  abbrev pub answer : Job D → Bytes × D × D × Bytes
  answer job = (job.status, job.progress, job.elapsed_ms, job.result)

  list_rows-window :
      (store : List (Job D))
      → ((i : ℕ) (job : Job D) → get_elem? store i ≡ some job → job.id ≡ job_id (suc i))
      → (k i : ℕ) → i + k ≡ length store
      → list_rows store (window i k) ≡ map row (drop i store)
  unfolding list_rows window
  list_rows-window store named zero i h =
      let end : i ≡ length store = omega arith in rw (end, drop_all store)
  list_rows-window store named (suc k) i h =
      let (job, found, left) = drop_at store i (omega arith) in
      rw (list_rows, found, left, ← named i job found)
        (ap (◌∷◌ (row job)) (list_rows-window store named k (suc i) (omega arith)))

  -- The listing has the 200 most recent jobs in the order of their submission, with the state that
  -- each has now.
  pub job_list_lem :
      (t : JobTable D) → IsValid t → job_list t ≡ map row (drop (t.job_counter - 200) t.store)
  unfolding job_list
  job_list_lem t v = rw v.recent (
      list_rows-window t.store v.named (min t.job_counter 200) (t.job_counter - 200)
        (omega (arith, v.counted)))

  -- A query of one of the 200 most recent jobs tells the state that the job has now; a query of an
  -- older one finds nothing.
  pub job_query_lem :
      (d : Double D) (t : JobTable D) (n : ℕ) (job : Job D)
      → IsValid t
      → t.job_counter < 100000
      → get_elem? t.store n ≡ some job
      → n < t.job_counter
      → job_query d (job_id (suc n)) t ≡ (
          if ltb (n + 200) t.job_counter
          then (codes "not_found", d.of_nat 0, d.of_nat 0, codes "")
          else answer job)
  unfolding job_query
  job_query_lem d t n job v top found h = elim (Bool-cases (ltb (n + 200) t.job_counter)) [
    | inl old ↦
        let gone : lookup (job_id (suc n)) t.jobs ≡ none = rw v.recent (
          lookup-window_before (t.job_counter - 200) (min t.job_counter 200) n (omega arith)
            (omega (arith, ltb→lt (n + 200) t.job_counter old))) in
        rw (job_query, old, gone)
    | inr recent ↦
        let low : t.job_counter ≤ n + 200 = ground arith in
        let at : lookup (job_id (suc n)) t.jobs ≡ some n = rw v.recent (
          lookup-window (t.job_counter - 200) (min t.job_counter 200) n (omega arith) (omega arith)
            (omega arith)) in
        rw (job_query, recent, at, found)
  ]

  -- The identifier that a submission returns answers at once as a queued job, and the listing ends
  -- with it.
  pub job_query-job_submit :
      (d : Double D) (now : ℕ) (kind : Bytes) (payload : Map Bytes D) (t : JobTable D)
      → t.job_counter < 99999
      → IsValid t
      → let r = job_submit d true now kind payload t in
        job_query d r.0 r.2 ≡ (codes "queued", d.of_nat 0, d.of_nat 0, codes "")
  unfolding job_submit
  job_query-job_submit d now kind payload t h v =
      let job : Job D = queued_job d now (t.job_counter + 1) kind payload in
      let t' : JobTable D = (job_submit d true now kind payload t).2 in
      let recent : ltb (t.job_counter + 200) (t.job_counter + 1) ≡ false = ground arith in
      let id : t.job_counter + 1 ≡ suc t.job_counter = omega arith in
      let found : get_elem? t'.store t.job_counter ≡ some job =
        subst (λ n. get_elem? (t.store ++ job ∷ []) n ≡ some job) v.counted
          (get_elem?-snoc_new t.store job) in
      ap (λ n. job_query d (job_id n) t') id
      ∙ job_query_lem d t' t.job_counter job (job_submit-IsValid d now kind payload t h v)
          (omega arith) found (omega arith)
      ∙ ap
          (λ old. if old then (codes "not_found", d.of_nat 0, d.of_nat 0, codes "") else answer job)
          recent
