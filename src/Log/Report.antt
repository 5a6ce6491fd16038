-- ===== src/Log/Report.antt =====
-- What a report adds up to.
use ngx_lua_cpp.Prelude.{
  ℕ, zero, suc, ◌+◌, ◌-◌, ◌≤◌, ◌≡◌, refl, ap, Bool, inl, List, [], ◌∷◌, min, length, drop,
  length-drop, arith,
}
use ngx_lua_cpp.Prelude.Map.{Map}
use ngx_lua_cpp.Prelude.Text.{Bytes}
use ngx_lua_cpp.Prelude.Double.{Double}
use ngx_lua_cpp.Log.{
  no_counts, read_chars, max_lines_of, sort_in, sort, number_from, per_second, log_analyze,
}
use ngx_lua_cpp.Log.Totals.{sum_of, no_counts-IsCounted, read_chars-IsCounted}
use ngx_lua_cpp.Log.Top.{length-sort}

module _ {K : Type 0} where
  sum_of-sort_in :
      (before : K × ℕ → K × ℕ → Bool) (e : K × ℕ) (es : List (K × ℕ))
      → sum_of (sort_in before e es) ≡ e.1 + sum_of es
  unfolding sort_in
  sum_of-sort_in before e [] = refl
  sum_of-sort_in before e (f ∷ es) = ground (arith, sum_of-sort_in before e es)

  sum_of-sort :
      (before : K × ℕ → K × ℕ → Bool) (es : List (K × ℕ)) → sum_of (sort before es) ≡ sum_of es
  unfolding sort
  sum_of-sort before [] = refl
  sum_of-sort before (e ∷ es) =
      omega (arith, sum_of-sort_in before e (sort before es), sum_of-sort before es)

  sum_of-drop : (n : ℕ) (es : List (K × ℕ)) → sum_of (drop n es) ≤ sum_of es
  sum_of-drop zero es = omega arith
  sum_of-drop (suc n) [] = omega arith
  sum_of-drop (suc n) (e ∷ es) = omega (arith, sum_of-drop n es)

sum_of-number_from : (i : ℕ) (es : List (ℕ × ℕ)) → sum_of (number_from i es) ≡ sum_of es
unfolding number_from
sum_of-number_from i [] = refl
sum_of-number_from i (e ∷ es) = omega (arith, sum_of-number_from (i + 1) es)

length-number_from : (i : ℕ) (es : List (ℕ × ℕ)) → length (number_from i es) ≡ length es
unfolding number_from
length-number_from i [] = refl
length-number_from i (e ∷ es) = ap suc (length-number_from (i + 1) es)

abbrev IsBuckets : Map ℕ ℕ → List (ℕ × ℕ) → Type 0
IsBuckets m buckets =
    (length buckets ≡ min 60 (length m))
    × (sum_of buckets ≤ sum_of m)
    × (length m ≤ 60 → sum_of buckets ≡ sum_of m)

number_from-IsBuckets :
    (before : ℕ × ℕ → ℕ × ℕ → Bool) (m : Map ℕ ℕ)
    → IsBuckets m (number_from 0 (drop (length m - 60) (sort before m)))
number_from-IsBuckets before m =
    let sorted = sort before m in
    let kept = drop (length m - 60) sorted in
    let size : length kept ≡ length m - (length m - 60) =
      omega (arith, length-drop (length m - 60) sorted, length-sort before m) in
    let total = sum_of-number_from 0 kept in
    let all = sum_of-sort before m in
    let less = sum_of-drop (length m - 60) sorted in
    (
      omega (arith, length-number_from 0 kept, size),
      omega (arith, total, all, less),
      λ few.
          let none_dropped : length m - 60 ≡ 0 = omega arith in
          let same : sum_of kept ≡ sum_of sorted = rw none_dropped in
          omega (arith, total, all, same),
    )

per_second-IsBuckets : (m : Map ℕ ℕ) → IsBuckets m (per_second m)
unfolding per_second
per_second-IsBuckets m = number_from-IsBuckets _ m

module _ {D : Type 0} (d : Double D) where
  -- In the report on a file that could be opened, the statuses add up to the lines that were counted;
  -- there are at most sixty buckets, and they add up to no more than that, and to exactly that when
  -- the counted lines are of at most sixty seconds.
  pub log_analyze_totals :
      (atof : Bytes → D) (t0 now : ℕ) (file : Bytes) (max_lines : D)
      → let r = log_analyze d atof t0 now (inl file) max_lines in
        let c =
          read_chars
            (λ lines. d.le (max_lines_of d max_lines) (d.of_nat lines))
            file
            []
            no_counts in
        (sum_of r.statuses ≡ c.total)
        × (length r.seconds ≤ 60)
        × (sum_of r.seconds ≤ c.total)
        × (length c.second_counts ≤ 60 → sum_of r.seconds ≡ c.total)
  unfolding log_analyze
  log_analyze_totals atof t0 now file max_lines =
      let enough : ℕ → Bool = λ lines. d.le (max_lines_of d max_lines) (d.of_nat lines) in
      let c = read_chars enough file [] no_counts in
      let counted = read_chars-IsCounted enough file [] no_counts no_counts-IsCounted in
      let (size, bound, exact) = per_second-IsBuckets c.second_counts in
      let statuses =
        sum_of-sort (λ (a b : Bytes × ℕ). d.lt (atof a.0) (atof b.0)) c.status_counts in
      (
        omega (arith, statuses, counted.statuses_total),
        omega (arith, size),
        omega (arith, bound, counted.seconds_total),
        λ few. omega (arith, exact few, counted.seconds_total),
      )
