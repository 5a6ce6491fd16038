-- ===== src/Jobs/Window.antt =====
-- While the identifiers have five digits, the map holds the 200 most recent jobs.
use Prim.Native.Nat.{Ordering}
use ngx_lua_cpp.Prelude.{
  ℕ, zero, suc, ◌+◌, ◌-◌, ◌≤◌, ◌<◌, ◌≡◌, refl, ap, sym, ap₂, get_elem?-snoc, ◌∙◌, true, some, [],
  ◌∷◌, length, length-append, get_elem?, min, arith, ltb, Bool-cases, inl, inr,
}
use ngx_lua_cpp.Prelude.Order.{
  bytes_ord, compare_bytes, compare_bytes_refl, compare_bytes_trans, eq_of_compare_bytes,
}
use ngx_lua_cpp.Prelude.Text.{Bytes}
use ngx_lua_cpp.Prelude.Map.{Map, insert}
use ngx_lua_cpp.Prelude.Double.{Double}
use ngx_lua_cpp.Jobs.{Job, JobTable, job_id, evict_loop, init, queued_job, job_submit}
use ngx_lua_cpp.Jobs.Ids.{job_id_order}

-- The map of the `k` jobs from the place `i` on.
unfoldable pub window : ℕ → ℕ → Map Bytes ℕ
window i zero = []
window i (suc k) = (job_id (suc i), i) ∷ window (suc i) k

pub length-window : (i k : ℕ) → length (window i k) ≡ k
unfolding window
length-window i zero = refl
length-window i (suc k) = omega (arith, length-window (suc i) k)

pub job_id_later :
    (a b : ℕ) → a < b → b < 100000 → compare_bytes (job_id b) (job_id a) ≡ Ordering.gt
job_id_later a b h top = ground (
  arith,
  job_id_order a b h top,
  compare_bytes_trans (job_id b) (job_id a) (job_id b),
  eq_of_compare_bytes (job_id b) (job_id a),
  compare_bytes_refl (job_id b),
)

insert-window :
    (i k n : ℕ) → n ≡ i + k → n < 99999 → insert (job_id (n + 1)) n (window i k) ≡ window i (suc k)
unfolding window insert
insert-window i zero n at top =
    let here : n ≡ i = omega arith in let next : i + 1 ≡ suc i = omega arith in rw (here, next)
insert-window i (suc k) n at top = ground (
  arith,
  job_id_later (suc i) (n + 1) (omega arith) (omega arith),
  insert-window (suc i) k n (omega arith) top,
)

evict_short : (jobs : Map Bytes ℕ) → length jobs ≤ 200 → evict_loop jobs ≡ jobs
unfolding evict_loop
evict_short [] h = refl
evict_short (e ∷ jobs) h = ground arith

pub evict_over :
    (e : Bytes × ℕ) (jobs : Map Bytes ℕ) → length jobs ≡ 200 → evict_loop (e ∷ jobs) ≡ jobs
unfolding evict_loop
evict_over e jobs h =
    let over : ltb 200 (suc (length jobs)) ≡ true = ground arith in
    rw over (evict_short jobs (omega arith))

evict-window : (i k : ℕ) → k ≤ 201 → evict_loop (window i k) ≡ window (i + (k - 200)) (min k 200)
unfolding window
evict-window i zero h = let start : i + (0 - 200) ≡ i = omega arith in unfold evict_loop in refl
evict-window i (suc k) h = elim (Bool-cases (ltb 199 k)) [
  | inl over ↦
      let full : k ≡ 200 = ground arith in
      let start : i + (suc k - 200) ≡ suc i = omega arith in
      let size : min (suc k) 200 ≡ k = omega arith in
      rw (start, size)
        (evict_over (job_id (suc i), i) (window (suc i) k) (length-window (suc i) k ∙ full))
  | inr fits ↦
      let short : suc k ≤ 200 = ground arith in
      let start : i + (suc k - 200) ≡ i = omega arith in
      let size : min (suc k) 200 ≡ suc k = omega arith in
      rw (start, size) (evict_short (window i (suc k)) (omega (arith, length-window i (suc k))))
]

pub record IsValid {D : Type 0} (t : JobTable D) : Type 0 where
  pub counted : length t.store ≡ t.job_counter
  pub recent : t.jobs ≡ window (t.job_counter - 200) (min t.job_counter 200)
  pub named : (i : ℕ) (job : Job D) → get_elem? t.store i ≡ some job → job.id ≡ job_id (suc i)

next-window :
    (c n : ℕ) (jobs : Map Bytes ℕ)
    → c < 99999
    → n ≡ c
    → jobs ≡ window (c - 200) (min c 200)
    → evict_loop (insert (job_id (c + 1)) n jobs) ≡ window (c + 1 - 200) (min (c + 1) 200)
next-window c n jobs h at recent =
    let start : c - 200 + (suc (min c 200) - 200) ≡ c + 1 - 200 = omega arith in
    let size : min (suc (min c 200)) 200 ≡ min (c + 1) 200 = omega arith in
    rw (at, recent, insert-window (c - 200) (min c 200) c (omega arith) h)
      (evict-window (c - 200) (suc (min c 200)) (omega arith) ∙ ap₂ window start size)

module _ {D : Type 0} (d : Double D) where
  pub init-IsValid : IsValid (init d)
  init-IsValid =
      unfold init window in
      record { counted = refl; recent = refl; named = λ i job h. ground arith }

  -- A submission to a running instance keeps the map exact, up to the last identifier of five
  -- digits: it holds the 200 most recent jobs, in order, under their identifiers.
  pub job_submit-IsValid :
      (now : ℕ) (kind : Bytes) (payload : Map Bytes D) (t : JobTable D)
      → t.job_counter < 99999
      → IsValid t
      → IsValid (job_submit d true now kind payload t).2
  job_submit-IsValid now kind payload t h v =
      let job : Job D = queued_job d now (t.job_counter + 1) kind payload in
      unfold job_submit in
      record {
        counted = omega (arith, v.counted, length-append t.store (job ∷ []));
        recent = next-window t.job_counter (length t.store) t.jobs h v.counted v.recent;
        named = λ i j found. elim (get_elem?-snoc t.store job j i found) [
          | inl old ↦ v.named i j old
          | inr new ↦
              let place : t.job_counter + 1 ≡ suc i = omega (arith, new.0, v.counted) in
              ap (λ (j : Job D). j.id) (sym new.1) ∙ ap job_id place
        ];
      }
