-- ===== src/Log/Parsing.antt =====
-- A line of the usual form is read as it was written.
use ngx_lua_cpp.Prelude.{
  ℕ, zero, suc, ◌+◌, ◌-◌, ◌≤◌, ◌<◌, ◌≡◌, refl, ap, sym, ◌∙◌, true, some, [], ◌∷◌, ◌++◌,
  append_assoc, length, length-append, take, drop, ltb, lt→ltb, arith,
}
use ngx_lua_cpp.Prelude.Text.{Bytes, codes}
use ngx_lua_cpp.Url.{find}
use ngx_lua_cpp.Url.RoundTrip.{Without, find-append}
use ngx_lua_cpp.Log.{find_from, find_http, skip_blanks, take_digits, request_url, hit, parse_line}
use ngx_lua_cpp.Log.Time.{pos, log_parse_time}
use ngx_lua_cpp.Log.Calendar.{since_1971}
use ngx_lua_cpp.Log.Stamps.{Moment, IsMoment, SecondsOf, stamp, log_parse_time-stamp}
use ngx_lua_cpp.Log.Finding.{
  drop-append, drop-append_suc, take-append, drop-drop, find_from-append, request_line,
  request_url-request_line, find_http-append, IsNumber, status_lem,
}

-- What comes before the request: the client, the time and what else there is.
abbrev pub prefix : Bytes → Moment → Bytes → Bytes
prefix client t zone = client ++ stamp t zone

-- `client [time zone"method url HTTP/1.1" status rest`
abbrev pub access_line : Bytes → Moment → Bytes → Bytes → Bytes → Bytes → Bytes → Bytes
access_line client t zone method url status rest =
    prefix client t zone
    ++ b'"' ∷ (request_line method url ++ b'"' ∷ (b' ' ∷ (status ++ b' ' ∷ rest)))

-- The parts stand where the parser looks for them.
abbrev pub IsPlain : Bytes → Moment → Bytes → Bytes → Bytes → Bytes → Type 0
IsPlain client t zone method url status =
    Without b'[' client
    × Without b'"' (prefix client t zone)
    × Without b'"' (request_line method url)
    × Without b' ' method
    × Without b' ' url
    × IsNumber status
    × (1 ≤ length status)

hit_lem :
    (n : ℕ) (status req : Bytes)
    → 1 ≤ n
    → 1 ≤ length status
    → hit (pos n) status req ≡ some (record { ts = n; status = status; url = request_url req })
unfolding hit
hit_lem zero status req p q = absurd (omega arith)
hit_lem (suc n) [] req p q = absurd (omega arith)
hit_lem (suc n) (c ∷ status) req p q = refl

status_of :
    (status rest : Bytes)
    → IsNumber status
    → 1 ≤ length status
    → take_digits (skip_blanks (b' ' ∷ (status ++ b' ' ∷ rest))) ≡ status
status_of [] rest h p = absurd (omega arith)
status_of (c ∷ status) rest h p = status_lem c status rest h

parse_line_lem :
    (line : Bytes) (start quote1 quote2 http_pos : ℕ)
    → find b'[' line ≡ some start
    → find b'"' line ≡ some quote1
    → find_from b'"' (quote1 + 1) line ≡ some quote2
    → find_http line ≡ some http_pos
    → http_pos < quote2
    → parse_line line
      ≡ hit
          (log_parse_time (drop start line))
          (take_digits (skip_blanks (drop (quote2 + 1) line)))
          (take (quote2 - quote1 - 1) (drop (quote1 + 1) line))
unfolding parse_line
parse_line_lem line start quote1 quote2 http_pos a b c e less =
    let before : ltb http_pos quote2 ≡ true = lt→ltb http_pos quote2 less in rw (a, b, c, e, before)

-- A line with a request between its quotes.
quoted :
    (client head req after time : Bytes)
    → head ++ b'"' ∷ (req ++ b'"' ∷ after) ≡ client ++ b'[' ∷ time
    → Without b'[' client
    → Without b'"' head
    → Without b'"' req
    → (i : ℕ) × (find_http (head ++ b'"' ∷ (req ++ b'"' ∷ after)) ≡ some i)
      × (i ≤ length head + length req)
    → parse_line (head ++ b'"' ∷ (req ++ b'"' ∷ after))
      ≡ hit (log_parse_time (b'[' ∷ time)) (take_digits (skip_blanks after)) req
quoted client head req after time shape p q r (i, http, near) =
    let line = head ++ b'"' ∷ (req ++ b'"' ∷ after) in
    let quote1 = length head in
    let quote2 = length head + 1 + length req in
    let start : find b'[' line ≡ some (length client) =
      ap (find b'[') shape ∙ find-append b'[' client time p in
    let first : find b'"' line ≡ some quote1 = find-append b'"' head (req ++ b'"' ∷ after) q in
    let second : find_from b'"' (quote1 + 1) line ≡ some quote2 =
      find_from-append b'"' b'"' head req after r in
    let parsed =
      parse_line_lem line (length client) quote1 quote2 i start first second http
        (omega (arith, near)) in
    let at_time : drop (length client) line ≡ b'[' ∷ time =
      ap (drop (length client)) shape ∙ drop-append client (b'[' ∷ time) in
    let at_req : drop (quote1 + 1) line ≡ req ++ b'"' ∷ after =
      drop-append_suc head (req ++ b'"' ∷ after) b'"' in
    let size : quote2 - quote1 - 1 ≡ length req = omega arith in
    let req_read : take (quote2 - quote1 - 1) (drop (quote1 + 1) line) ≡ req =
      rw (size, at_req) (take-append req (b'"' ∷ after)) in
    let at_after : drop (quote2 + 1) line ≡ after =
      let split : quote2 + 1 ≡ quote1 + 1 + (length req + 1) = omega arith in
      rw (split, drop-drop (quote1 + 1) (length req + 1) line, at_req)
        (drop-append_suc req after b'"') in
    parsed
    ∙ ap
        (λ s.
          hit (log_parse_time s) (take_digits (skip_blanks (drop (quote2 + 1) line)))
            (take (quote2 - quote1 - 1) (drop (quote1 + 1) line)))
        at_time
    ∙ ap
        (λ s.
          hit (log_parse_time (b'[' ∷ time)) (take_digits (skip_blanks s))
            (take (quote2 - quote1 - 1) (drop (quote1 + 1) line)))
        at_after
    ∙ ap (hit (log_parse_time (b'[' ∷ time)) (take_digits (skip_blanks after))) req_read

-- The protocol stands in the request.
protocol :
    (head method url after : Bytes)
    → (i : ℕ) × (find_http (head ++ b'"' ∷ (request_line method url ++ b'"' ∷ after)) ≡ some i)
      × (i ≤ length head + length (request_line method url))
protocol head method url after =
    let before = head ++ b'"' ∷ (method ++ b' ' ∷ (url ++ b' ' ∷ [])) in
    let behind = codes "1.1" ++ b'"' ∷ after in
    let (i, found, near) = find_http-append before behind in
    let shape : before ++ (codes "HTTP/" ++ behind)
        ≡ head ++ b'"' ∷ (request_line method url ++ b'"' ∷ after) =
      simp append_assoc in
    let size : length before ≤ length head + length (request_line method url) = omega (
      arith,
      length-append head (b'"' ∷ (method ++ b' ' ∷ (url ++ b' ' ∷ []))),
      length-append method (b' ' ∷ (url ++ b' ' ∷ [])),
      length-append url (b' ' ∷ []),
      length-append method (b' ' ∷ (url ++ codes " HTTP/1.1")),
      length-append url (codes " HTTP/1.1"),
    ) in
    (i, ap find_http (sym shape) ∙ found, omega (arith, near, size))

-- A line of the usual form, of a year from 1971 to 9999, is read as the time, the status and the
-- address that stand in it: the client without "[", no quote in front of or in the request, no space
-- in the method or in the address, a status of digits, and after it anything.
pub parse_line-access_line :
    (client zone method url status rest : Bytes) (t : Moment)
    → IsMoment t
    → 1971 ≤ t.year
    → IsPlain client t zone method url status
    → (seconds : ℕ) × (parse_line (access_line client t zone method url status rest)
        ≡ some (record { ts = seconds; status = status; url = some url }))
      × SecondsOf t seconds
parse_line-access_line client zone method url status rest t h late (p, q, r, m, u, n, s) =
    let req = request_line method url in
    let after = b' ' ∷ (status ++ b' ' ∷ rest) in
    let behind = b'"' ∷ (req ++ b'"' ∷ after) in
    let (seconds, time, value) = log_parse_time-stamp t (zone ++ behind) h in
    let positive : 1 ≤ seconds = let days = since_1971 t.year late in omega (arith, value, days) in
    let read =
      quoted client (prefix client t zone) req after (drop 1 (stamp t (zone ++ behind)))
        (append_assoc client (stamp t zone) behind) p q r
        (protocol (prefix client t zone) method url after) in
    (
      seconds,
      read
          ∙ ap (λ ts. hit ts (take_digits (skip_blanks after)) req) time
          ∙ ap (λ st. hit (pos seconds) st req) (status_of status rest n s)
          ∙ hit_lem seconds status req positive s
          ∙ ap (λ o. some (record { ts = seconds; status = status; url = o }))
              (request_url-request_line method url m u),
      value,
    )
