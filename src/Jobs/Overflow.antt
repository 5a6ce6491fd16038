-- ===== src/Jobs/Overflow.antt =====
-- The identifier of six digits that follows J99999.
use Prim.Native.Nat.{Ordering}
use ngx_lua_cpp.Prelude.{
  ℕ, zero, suc, ◌+◌, ◌-◌, ◌<◌, ◌≡◌, refl, ap, ◌∙◌, true, false, none, ◌∷◌, length, min, arith, ◌≢◌,
}
use ngx_lua_cpp.Prelude.Order.{bytes_ord, compare_bytes, same}
use ngx_lua_cpp.Prelude.Text.{Bytes, codes, decimal, decimal_loop}
use ngx_lua_cpp.Prelude.Map.{Map, lookup, insert}
use ngx_lua_cpp.Prelude.Double.{Double}
use ngx_lua_cpp.Jobs.{JobTable, job_id, evict_loop, job_submit, job_query}
use ngx_lua_cpp.Jobs.Ids.{five_digits, job_id-five_digits}
use ngx_lua_cpp.Jobs.Window.{window, length-window, evict_over, IsValid}

six_digits : job_id 100000 ≡ codes "J100000"
unfolding job_id decimal decimal_loop
six_digits = refl

six_digits-five_digits :
    (n : ℕ) → n < 100000 → compare_bytes (codes "J100000") (five_digits n) ≢ Ordering.eq
unfolding compare_bytes
six_digits-five_digits n h = ground arith

absent : (k i : ℕ) → i + k < 100000 → lookup (codes "J100000") (window i k) ≡ none
unfolding lookup window
absent zero i h = refl
absent (suc k) i h =
    let differ : same (codes "J100000") (job_id (suc i)) ≡ false =
      rw (job_id-five_digits (suc i) (omega arith))
        (same_of_cmp _ _ (six_digits-five_digits (suc i) (omega arith))) in
    rw (lookup, differ) (absent k (suc i) (omega arith))
  where
    same_of_cmp : (a b : Bytes) → compare_bytes a b ≢ Ordering.eq → same a b ≡ false
    same_of_cmp a b h = ground arith

first :
    (k : ℕ)
    → 0 < k
    → (v : ℕ) → insert (codes "J100000") v (window 99799 k) ≡ (codes "J100000", v) ∷ window 99799 k
unfolding insert window
first zero h v = absurd (omega arith)
first (suc k) h v =
    let below : compare_bytes (codes "J100000") (job_id 99800) ≡ Ordering.lt = least in
    rw (insert, below)
  where
    least : compare_bytes (codes "J100000") (job_id 99800) ≡ Ordering.lt
    least = unfold compare_bytes job_id decimal decimal_loop in refl

module _ {D : Type 0} (d : Double D) where
  -- The submission after J99999 returns an identifier that is not found any more: the map puts it
  -- first, in the order of strings, and drops it as the oldest.
  pub job_submit-six_digits :
      (now : ℕ) (kind : Bytes) (payload : Map Bytes D) (t : JobTable D)
      → t.job_counter ≡ 99999
      → IsValid t
      → let r = job_submit d true now kind payload t in
        (r.0 ≡ codes "J100000")
        × (job_query d r.0 r.2 ≡ (codes "not_found", d.of_nat 0, d.of_nat 0, codes ""))
        × (r.2.jobs ≡ t.jobs)
  unfolding job_submit job_query
  job_submit-six_digits now kind payload t at v =
      let id : job_id (t.job_counter + 1) ≡ codes "J100000" =
        ap (λ n. job_id (n + 1)) at ∙ six_digits in
      let before : t.jobs ≡ window 99799 200 =
        rw v.recent (ap (λ n. window (n - 200) (min n 200)) at) in
      let unchanged : evict_loop (insert (job_id (t.job_counter + 1)) (length t.store) t.jobs)
          ≡ t.jobs =
        rw (id, before, first 200 (omega arith) (length t.store))
          (evict_over (codes "J100000", length t.store) (window 99799 200)
            (length-window 99799 200)) in
      let gone : lookup (job_id (t.job_counter + 1)) t.jobs ≡ none =
        rw (id, before) (absent 200 99799 (omega arith)) in
      (id, rw (unchanged, job_query, gone), unchanged)
