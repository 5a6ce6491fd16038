-- ===== src/Log.antt =====
-- The analysis of an access log: `log_analyze` of src/ngx_lua_cpp.cpp. A count is a `double` in the
-- code that grows by one from zero; there are fewer than 2 ^ 53 lines, so it is a natural number here.
pub mod Time
pub mod Calendar
pub mod Stamps
pub mod Totals
pub mod Lines
pub mod Top
pub mod Finding
pub mod Parsing
pub mod Report
mod Tests
use ngx_lua_cpp.Prelude.{
  ℕ, zero, suc, ◌+◌, ◌-◌, Bool, true, false, ◌&&◌, ◌||◌, Option, none, some, List, [], ◌∷◌, ◌++◌,
  length, take, drop, ltb, leb, ◌==◌, ◌⊎◌, inl, inr, if◌then◌else◌, ◌>>=◌,
}
use ngx_lua_cpp.Prelude.Order.{Ord, nat_ord, bytes_ord}
use ngx_lua_cpp.Prelude.Map.{Map, lookup, insert}
use ngx_lua_cpp.Prelude.Text.{Bytes, codes}
use ngx_lua_cpp.Prelude.Double.{Double}
use ngx_lua_cpp.Jobs.{millis}
use ngx_lua_cpp.Url.{find, starts_with, is_digit}
use ngx_lua_cpp.Log.Time.{ℤ, pos, negsuc, log_parse_time}

-- The locals that the loop over the characters changes, `line` aside.
pub record Counts : Type 0 where
  pub lines : ℕ
  pub total : ℕ
  pub first_ts : ℕ
  pub last_ts : ℕ
  pub url_counts : Map Bytes ℕ
  pub second_counts : Map ℕ ℕ
  pub status_counts : Map Bytes ℕ

abbrev pub no_counts : Counts
no_counts = record {
  lines = 0;
  total = 0;
  first_ts = 0;
  last_ts = 0;
  url_counts = [];
  second_counts = [];
  status_counts = [];
}

-- `line.find(c, from)`
abbrev pub find_from : ℕ → ℕ → Bytes → Option ℕ
find_from c from s = elim (find c (drop from s)) [ none ↦ none | some i ↦ some (from + i) ]

-- `line.find("HTTP/")`
unfoldable pub find_http : Bytes → Option ℕ
find_http [] = none
find_http (c ∷ s) =
    if starts_with (codes "HTTP/") (c ∷ s)
    then some 0
    else elim (find_http s) [ none ↦ none | some i ↦ some (suc i) ]

-- The blanks that are skipped, and the digits that are taken.
unfoldable pub skip_blanks : Bytes → Bytes
skip_blanks [] = []
skip_blanks (c ∷ s) = if (c == b' ') || (c == 9) then skip_blanks s else c ∷ s

unfoldable pub take_digits : Bytes → Bytes
take_digits [] = []
take_digits (c ∷ s) = if is_digit c then c ∷ take_digits s else []

-- `m[k] += 1`
module _ {K : Type 0} ⦃o : Ord K⦄ where
  unfoldable pub count : K → Map K ℕ → Map K ℕ
  count k m = insert k (elim (lookup k m) [ none ↦ 1 | some n ↦ n + 1 ]) m

-- What a line tells: the time, the status and the address.
pub record Hit : Type 0 where
  pub ts : ℕ
  pub status : Bytes
  pub url : Option Bytes

-- The address in the request line.
unfoldable pub request_url : Bytes → Option Bytes
request_url req = do
  sp1 ← find b' ' req
  sp2 ← find_from b' ' (sp1 + 1) req
  some (take (sp2 - sp1 - 1) (drop (sp1 + 1) req))

-- A time that is not positive and a line without status are not counted.
unfoldable pub hit : ℤ → Bytes → Bytes → Option Hit
hit (pos (suc n)) (c ∷ status) req =
    some (record { ts = suc n; status = c ∷ status; url = request_url req })
hit ts status req = none

unfoldable pub parse_line : Bytes → Option Hit
parse_line line = do
  ts_start ← find b'[' line
  quote1 ← find b'"' line
  quote2 ← find_from b'"' (quote1 + 1) line
  http_pos ← find_http line
  let req = take (quote2 - quote1 - 1) (drop (quote1 + 1) line)
  let status = take_digits (skip_blanks (drop (quote2 + 1) line))
  if ltb http_pos quote2 then hit (log_parse_time (drop ts_start line)) status req else none

unfoldable pub count_hit : Hit → Counts → Counts
count_hit h c = record c {
  total = c.total + 1;
  first_ts = if c.first_ts == 0 then h.ts else c.first_ts;
  last_ts = h.ts;
  second_counts = count h.ts c.second_counts;
  status_counts = count h.status c.status_counts;
  url_counts = elim h.url [ none ↦ c.url_counts | some url ↦ count url c.url_counts ];
}

-- At the end of a line.
unfoldable pub read_line : Bytes → Counts → Counts
read_line line c =
    let c' = record c { lines = c.lines + 1 } in
    elim (parse_line line) [ none ↦ c' | some h ↦ count_hit h c' ]

-- The loop over the characters of the file. `fgetc` is brought to a `char`, so that the byte 255 ends
-- the loop as the end of the file does. `is_enough lines` is `lines >= max_lines_d`.
unfoldable pub read_chars : (ℕ → Bool) → Bytes → Bytes → Counts → Counts
read_chars is_enough [] line c = c
read_chars is_enough (ch ∷ file) line c =
    let c' = read_line line c in
    let next = read_chars is_enough file [] c' in
    let more = read_chars is_enough file (line ++ ch ∷ []) c in
    if ch == 255 then c else if ch == 10 then (if is_enough c'.lines then c' else next) else more

-- `std::sort`; elements that neither comes before the other may come in any order, here they keep it.
module _ {A : Type 0} where
  unfoldable pub sort_in : (A → A → Bool) → A → List A → List A
  sort_in before a [] = a ∷ []
  sort_in before a (b ∷ bs) = if before b a then b ∷ sort_in before a bs else a ∷ b ∷ bs

  unfoldable pub sort : (A → A → Bool) → List A → List A
  sort before [] = []
  sort before (a ∷ rest) = sort_in before a (sort before rest)

unfoldable pub top_urls : Map Bytes ℕ → List (Bytes × ℕ)
top_urls url_counts = take 20 (sort (λ a b. ltb b.1 a.1) url_counts)

unfoldable pub number_from : ℕ → List (ℕ × ℕ) → List (ℕ × ℕ)
number_from i [] = []
number_from i ((ts, n) ∷ seconds) = (i, n) ∷ number_from (i + 1) seconds

unfoldable pub per_second : Map ℕ ℕ → List (ℕ × ℕ)
per_second second_counts =
    let before : ℕ × ℕ → ℕ × ℕ → Bool = λ a b. ltb a.0 b.0 || ((a.0 == b.0) && ltb a.1 b.1) in
    let n = length second_counts in number_from 0 (drop (n - 60) (sort before second_counts))

abbrev pub status_count : Map Bytes ℕ → List Bytes → ℕ
status_count m [] = 0
status_count m (k ∷ ks) = (elim (lookup k m) [ none ↦ 0 | some n ↦ n ]) + status_count m ks

-- `log_stats_t`: (stats, top_urls, statuses, per_second)
pub record LogStats (D : Type 0) : Type 0 where
  pub stats : Map Bytes D
  pub top : List (Bytes × ℕ)
  pub statuses : List (Bytes × ℕ)
  pub seconds : List (ℕ × ℕ)

module _ {D : Type 0} (d : Double D) where
  abbrev pub max_lines_of : D → D
  max_lines_of max_lines = if d.lt (d.of_nat 0) max_lines then max_lines else d.of_nat 100000

  unfoldable pub summary : Counts → D → Map Bytes D
  summary c elapsed =
      let span = d.sub (d.of_nat c.last_ts) (d.of_nat c.first_ts) in
      let has_span = ltb c.first_ts c.last_ts in
      let statuses : List Bytes → D = λ ks. d.of_nat (status_count c.status_counts ks) in
      insert (codes "elapsed_ms") elapsed (
        insert (codes "span_seconds") (if has_span then span else d.of_nat 0) (
          insert (codes "qps")
            (if has_span && ltb 0 c.total then d.div (d.of_nat c.total) span else d.of_nat 0)
            (insert (codes "status_5xx")
              (statuses (codes "500" ∷ codes "502" ∷ codes "503" ∷ codes "504" ∷ []))
              (insert (codes "status_4xx")
                (statuses
                  (codes "400" ∷ codes "401" ∷ codes "403" ∷ codes "404" ∷ codes "429" ∷ []))
                (insert (codes "status_3xx")
                  (statuses (codes "301" ∷ codes "302" ∷ codes "304" ∷ codes "307" ∷ []))
                  (insert (codes "status_2xx")
                    (statuses (codes "200" ∷ codes "201" ∷ codes "202" ∷ codes "204" ∷ []))
                    (insert (codes "total") (d.of_nat c.total)
                      (insert (codes "lines") (d.of_nat c.lines) []))))))))

  -- The method: `file` is the content of the file, or the `errno` of the failure to open it.
  unfoldable pub log_analyze : (Bytes → D) → ℕ → ℕ → Bytes ⊎ ℕ → D → LogStats D
  log_analyze atof t0 now (inr errno) max_lines = record {
    stats =
        insert (codes "elapsed_ms") (millis d (now - t0))
          (insert (codes "errno") (d.of_nat errno) (insert (codes "error") (d.of_nat 1) []));
    top = [];
    statuses = [];
    seconds = [];
  }
  log_analyze atof t0 now (inl file) max_lines =
      let enough : ℕ → Bool = λ lines. d.le (max_lines_of max_lines) (d.of_nat lines) in
      let c = read_chars enough file [] no_counts in
      record {
        stats = summary c (millis d (now - t0));
        top = top_urls c.url_counts;
        statuses = sort (λ a b. d.lt (atof a.0) (atof b.0)) c.status_counts;
        seconds = per_second c.second_counts;
      }
