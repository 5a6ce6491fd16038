-- ===== src/Log/Totals.antt =====
-- The counts agree with each other.
use ngx_lua_cpp.Prelude.{
  ℕ, ◌+◌, ◌≤◌, ◌≡◌, refl, Bool, Option, none, some, List, [], ◌∷◌, ◌++◌, ◌==◌, arith, Bool-cases,
  Option-cases, inl, inr,
}
use ngx_lua_cpp.Prelude.Order.{Ord, nat_ord, bytes_ord}
use ngx_lua_cpp.Prelude.Map.{Map, lookup, insert}
use ngx_lua_cpp.Prelude.Map.Sorted.{IsSorted, insert-IsSorted, lookup_of_Above, Above-trans}
use ngx_lua_cpp.Prelude.Text.{Bytes}
use ngx_lua_cpp.Log.{Counts, Hit, no_counts, count, parse_line, count_hit, read_line, read_chars}

-- The sum of the values.
abbrev pub sum_of : {K : Type 0} → List (K × ℕ) → ℕ
sum_of [] = 0
sum_of ((k, n) ∷ m) = n + sum_of m

module _ {K : Type 0} ⦃o : Ord K⦄ where
  sum_of-insert_new :
      (k : K) (n : ℕ) (m : Map K ℕ) → lookup k m ≡ none → sum_of (insert k n m) ≡ n + sum_of m
  unfolding lookup insert
  sum_of-insert_new k n [] h = refl
  sum_of-insert_new k n ((j, w) ∷ m) h = ground (arith, sum_of-insert_new k n m)

  sum_of-insert_old :
      (k : K) (n w : ℕ) (m : Map K ℕ)
      → IsSorted m
      → lookup k m ≡ some w
      → sum_of (insert k n m) + w ≡ n + sum_of m
  unfolding lookup insert
  sum_of-insert_old k n w [] s h = ground arith
  sum_of-insert_old k n w ((j, v) ∷ m) s h =
      ground (arith, sum_of-insert_old k n w m, Above-trans k j m, lookup_of_Above k m)

  pub sum_of-count : (k : K) (m : Map K ℕ) → IsSorted m → sum_of (count k m) ≡ 1 + sum_of m
  unfolding count
  sum_of-count k m s = elim (Option-cases (lookup k m)) [
    | inl missing ↦ rw missing (sum_of-insert_new k 1 m missing)
    | inr (n, found) ↦
        let more = sum_of-insert_old k (n + 1) n m s found in rw found (omega (arith, more))
  ]

  pub count-IsSorted : (k : K) (m : Map K ℕ) → IsSorted m → IsSorted (count k m)
  unfolding count
  count-IsSorted k m s = insert-IsSorted k _ m s

-- Each counted line is counted once by its second and once by its status, and at most once by its
-- address; there are no more counted lines than lines.
pub record IsCounted (c : Counts) : Type 0 where
  pub seconds_sorted : IsSorted c.second_counts
  pub statuses_sorted : IsSorted c.status_counts
  pub urls_sorted : IsSorted c.url_counts
  pub seconds_total : sum_of c.second_counts ≡ c.total
  pub statuses_total : sum_of c.status_counts ≡ c.total
  pub urls_total : sum_of c.url_counts ≤ c.total
  pub total_lines : c.total ≤ c.lines

pub no_counts-IsCounted : IsCounted no_counts
no_counts-IsCounted = record {
  seconds_sorted = tt;
  statuses_sorted = tt;
  urls_sorted = tt;
  seconds_total = refl;
  statuses_total = refl;
  urls_total = omega arith;
  total_lines = omega arith;
}

url_counts-IsCounted :
    (url : Option Bytes) (m : Map Bytes ℕ) (total : ℕ)
    → IsSorted m
    → sum_of m ≤ total
    → let m' : Map Bytes ℕ = elim url [ none ↦ m | some u ↦ count u m ] in
      IsSorted m' × (sum_of m' ≤ total + 1)
url_counts-IsCounted none m total s h = (s, omega arith)
url_counts-IsCounted (some url) m total s h =
    (count-IsSorted url m s, omega (arith, sum_of-count url m s))

count_hit-IsCounted :
    (found : Option Hit) (c : Counts)
    → IsCounted c
    → let c' = record c { lines = c.lines + 1 } in
      IsCounted (elim found [ none ↦ c' | some hit ↦ count_hit hit c' ])
unfolding count_hit
count_hit-IsCounted none c h = record {
  seconds_sorted = h.seconds_sorted;
  statuses_sorted = h.statuses_sorted;
  urls_sorted = h.urls_sorted;
  seconds_total = h.seconds_total;
  statuses_total = h.statuses_total;
  urls_total = h.urls_total;
  total_lines = omega (arith, h.total_lines);
}
count_hit-IsCounted (some hit) c h =
    let urls = url_counts-IsCounted hit.url c.url_counts c.total h.urls_sorted h.urls_total in
    let seconds = sum_of-count hit.ts c.second_counts h.seconds_sorted in
    let statuses = sum_of-count hit.status c.status_counts h.statuses_sorted in
    record {
      seconds_sorted = count-IsSorted hit.ts c.second_counts h.seconds_sorted;
      statuses_sorted = count-IsSorted hit.status c.status_counts h.statuses_sorted;
      urls_sorted = urls.0;
      seconds_total = omega (arith, seconds, h.seconds_total);
      statuses_total = omega (arith, statuses, h.statuses_total);
      urls_total = urls.1;
      total_lines = omega (arith, h.total_lines);
    }

read_line-IsCounted : (line : Bytes) (c : Counts) → IsCounted c → IsCounted (read_line line c)
unfolding read_line
read_line-IsCounted line c h = count_hit-IsCounted (parse_line line) c h

-- Whatever the file holds, and wherever the loop stops, the lines that were counted are as many as the
-- counts by second add up to, and as those by status, those by address add up to no more, and there
-- are no more of them than lines.
pub read_chars-IsCounted :
    (is_enough : ℕ → Bool) (file line : Bytes) (c : Counts)
    → IsCounted c
    → IsCounted (read_chars is_enough file line c)
unfolding read_chars
read_chars-IsCounted is_enough [] line c h = h
read_chars-IsCounted is_enough (ch ∷ file) line c h =
    let c' = read_line line c in
    let h' = read_line-IsCounted line c h in
    let next = read_chars-IsCounted is_enough file [] c' h' in
    let more = read_chars-IsCounted is_enough file (line ++ ch ∷ []) c h in
    elim (Bool-cases (ch == 255)) [
      | inl eof ↦ simp eof h
      | inr other ↦ elim (Bool-cases (ch == 10)) [
        | inr inside ↦ simp (other, inside) more
        | inl newline ↦ elim (Bool-cases (is_enough c'.lines)) [
          | inl stop ↦ simp (other, newline, stop) h'
          | inr go ↦ simp (other, newline, go) next
        ]
      ]
    ]
