-- ===== src/Log/Tests.antt =====
-- Some logs, and the theorems at concrete inputs.
use ngx_lua_cpp.Prelude.{
  ℕ, ◌≤◌, ◌≡◌, refl, true, false, Bool, inl, some, List, [], ◌∷◌, ◌++◌, length, leb, ◌==◌,
  if◌then◌else◌, arith,
}
use ngx_lua_cpp.Prelude.Text.{Bytes, codes}
use ngx_lua_cpp.Prelude.Double.{whole_double}
use ngx_lua_cpp.Prelude.Order.{compare_bytes}
use ngx_lua_cpp.Prelude.Map.{Map, lookup, insert}
use ngx_lua_cpp.Url.{find, starts_with}
use ngx_lua_cpp.Log.{
  no_counts, find_http, skip_blanks, take_digits, count, request_url, hit, parse_line, count_hit,
  read_line, read_chars, sort_in, sort, top_urls, number_from, per_second, max_lines_of,
  log_analyze,
}
use ngx_lua_cpp.Log.Time.{
  pos, digit, two_digits, four_digits, find_month, era_of, days_of_era, days_from_civil,
  log_parse_time,
}
use ngx_lua_cpp.Log.Stamps
use ngx_lua_cpp.Log.Stamps.{Moment, SecondsOf, stamp}
use ngx_lua_cpp.Log.Totals
use ngx_lua_cpp.Log.Totals.{IsCounted, sum_of, no_counts-IsCounted}
use ngx_lua_cpp.Log.Lines
use ngx_lua_cpp.Log.Lines.{text_of, read_lines}
use ngx_lua_cpp.Log.Top
use ngx_lua_cpp.Log.Top.{IsDescending, Exceed}
use mathlib.Core.List.{Perm}
use ngx_lua_cpp.Log.Parsing
use ngx_lua_cpp.Log.Parsing.{prefix, access_line}
use ngx_lua_cpp.Log.Finding.{request_line}
use ngx_lua_cpp.Url.RoundTrip.{Without}
use ngx_lua_cpp.Log.Report

-- To check the parts of a line by evaluation.
abbrev without : ℕ → Bytes → Bool
without c [] = true
without c (x ∷ s) = if x == c then false else without c s

Without-without : (c : ℕ) (s : Bytes) → without c s ≡ true → Without c s
Without-without c [] h = tt
Without-without c (x ∷ s) h = ground (arith, h, Without-without c s)

program : Unit {0}
unfolding find starts_with find_http skip_blanks take_digits count request_url hit parse_line
    count_hit read_line read_chars lookup insert compare_bytes sort_in sort top_urls number_from
    per_second digit two_digits four_digits find_month era_of days_of_era days_from_civil
    log_parse_time
program = tt

-- The first of January 2000, at noon.
abbrev noon : Moment
noon = record { year = 2000; month = 0; day = 0; hour = 12; minute = 0; second = 0 }

abbrev line : Bytes
line =
    access_line (codes "h - - ") noon (codes " +0000] ") (codes "GET") (codes "/a") (codes "200")
      (codes "5")

noon_read : log_parse_time (stamp noon []) ≡ pos 946728000
unfolding program
noon_read = refl

-- Twenty characters are enough for the parser, and the last digit is then the null character, which
-- counts for -48.
short_stamp : log_parse_time (codes "[01/Jan/2000:12:00:5") ≡ pos 946728002
unfolding program
short_stamp = refl

two_lines : (read_chars (leb 9) (text_of (line ∷ line ∷ []) (codes "x")) [] no_counts).total ≡ 2
unfolding program
two_lines = refl

-- The byte 255 ends the reading.
cut_short : (read_chars (leb 9) (255 ∷ text_of (line ∷ []) []) [] no_counts).lines ≡ 0
unfolding program
cut_short = refl

log_parse_time-stamp_example :
    (seconds : ℕ) × (log_parse_time (stamp noon (codes "]")) ≡ pos seconds) × SecondsOf noon seconds
log_parse_time-stamp_example =
    Stamps.log_parse_time-stamp noon (codes "]")
      (omega arith, omega arith, omega arith, omega arith, omega arith, omega arith, omega arith)

parse_line-access_line_example :
    (seconds : ℕ) × (parse_line line
      ≡ some (record { ts = seconds; status = codes "200"; url = some (codes "/a") }))
    × SecondsOf noon seconds
parse_line-access_line_example =
    Parsing.parse_line-access_line (codes "h - - ") (codes " +0000] ") (codes "GET") (codes "/a")
      (codes "200") (codes "5") noon
      (omega arith, omega arith, omega arith, omega arith, omega arith, omega arith, omega arith)
      (omega arith)
      (
        Without-without b'[' (codes "h - - ") refl,
        Without-without b'"' (prefix (codes "h - - ") noon (codes " +0000] ")) refl,
        Without-without b'"' (request_line (codes "GET") (codes "/a")) refl,
        Without-without b' ' (codes "GET") refl,
        Without-without b' ' (codes "/a") refl,
        (refl, (refl, (refl, tt))),
        omega arith,
      )

read_chars-IsCounted_example : IsCounted (read_chars (leb 9) (text_of (line ∷ []) []) [] no_counts)
read_chars-IsCounted_example =
    Totals.read_chars-IsCounted (leb 9) (text_of (line ∷ []) []) [] no_counts no_counts-IsCounted

read_chars-text_of_example :
    read_chars (leb 9) (text_of (codes "a" ∷ codes "b" ∷ []) (codes "c")) [] no_counts
    ≡ read_lines (leb 9) (codes "a" ∷ codes "b" ∷ []) no_counts
read_chars-text_of_example =
    Lines.read_chars-text_of (leb 9) (codes "a" ∷ codes "b" ∷ []) (codes "c") no_counts
      (((omega arith, omega arith), tt), (((omega arith, omega arith), tt), tt))
      ((omega arith, omega arith), tt)

top_urls-IsDescending_example :
    let counts : Map Bytes ℕ = (codes "/a", 1) ∷ (codes "/b", 2) ∷ [] in
    (length (top_urls counts) ≤ 20)
    × IsDescending (top_urls counts)
    × ((hidden : List (Bytes × ℕ)) × Perm (top_urls counts ++ hidden) counts
        × Exceed (top_urls counts) hidden)
top_urls-IsDescending_example = Top.top_urls-IsDescending ((codes "/a", 1) ∷ (codes "/b", 2) ∷ [])

log_analyze_totals_example :
    let r = log_analyze whole_double (λ s. 0) 0 5 (inl line) 9 in
    let c = read_chars (λ lines. leb (max_lines_of whole_double 9) lines) line [] no_counts in
    (sum_of r.statuses ≡ c.total)
    × (length r.seconds ≤ 60)
    × (sum_of r.seconds ≤ c.total)
    × (length c.second_counts ≤ 60 → sum_of r.seconds ≡ c.total)
log_analyze_totals_example = Report.log_analyze_totals whole_double (λ s. 0) 0 5 line 9
