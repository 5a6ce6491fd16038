-- ===== src/Fetch.antt =====
-- The demo fetcher: `http_get`, on Windows and elsewhere, and `fetch` of src/ngx_lua_cpp.cpp. What a
-- WinHTTP call returns is an argument; a request's handles are written as a trace.
pub mod Requests
pub mod FanIn
mod Tests
use ngx_lua_cpp.Prelude.{
  ℕ, zero, suc, ◌+◌, ◌-◌, ◌*◌, Bool, true, false, not, ◌&&◌, Option, none, some, List, [], ◌∷◌,
  ◌++◌, length, take, replicate, modify, min, clamp, ltb, leb, ◌==◌, if◌then◌else◌,
}
use ngx_lua_cpp.Prelude.Text.{Bytes, codes, decimal}
use ngx_lua_cpp.Prelude.Double.{Double}
use ngx_lua_cpp.Jobs.{millis}
use ngx_lua_cpp.Url.{HttpUrl, parse_http_url}

-- `fetch_entry_t`: (url, ok, status, bytes, elapsed_ms, info)
pub record FetchEntry (D : Type 0) : Type 0 where
  pub url : Bytes
  pub ok : Bool
  pub status : ℕ
  pub bytes : ℕ
  pub elapsed_ms : D
  pub info : Bytes

pub data Handle : Type 0 where
  session : Handle
  connection : Handle
  request : Handle

pub data HandleCall : Type 0 where
  opened : Handle → HandleCall
  closed : Handle → HandleCall

-- A round of the loop over the body: what `WinHttpQueryDataAvailable` announced, and what
-- `WinHttpReadData` does when that many bytes are wanted. The list of the rounds ends where the
-- first of these calls fails or announces nothing.
abbrev pub Round : Type 0
Round = ℕ × (ℕ → Option Bytes)

-- How WinHTTP answers in one request.
pub record Answers : Type 0 where
  pub opens : Bool
  pub connects : Bool
  pub opens_request : Bool
  pub sends : Bool
  pub receives : Bool
  pub status : Option ℕ
  pub rounds : List Round

-- The loop over the body.
unfoldable pub read_body : ℕ → List Round → Bytes → Bytes
read_body max_bytes [] body = body
read_body max_bytes ((available, read) ∷ rounds) body =
    let want = min available (max_bytes - length body) in
    let next : Bytes → Bytes = λ chunk.
      let body' = body ++ chunk in
      let more = read_body max_bytes rounds body' in
      if length chunk == 0 then body else if leb max_bytes (length body') then body' else more in
    if available == 0
    then body
    else if want == 0
    then body
    else elim (read want) [ none ↦ body | some chunk ↦ next chunk ]

abbrev pub display_url : HttpUrl → Bytes
display_url url =
    codes "http://"
    ++ url.host
    ++ (if url.port == 80 then [] else codes ":" ++ decimal url.port)
    ++ url.path

module _ {D : Type 0} (d : Double D) where
  abbrev pub blank_entry : FetchEntry D
  blank_entry = record {
    url = [];
    ok = false;
    status = 0;
    bytes = 0;
    elapsed_ms = d.of_nat 0;
    info = [];
  }

  abbrev pub failed_entry : HttpUrl → Bytes → FetchEntry D
  failed_entry url info = record blank_entry { url = display_url url; info = info }

  -- What is put into the entry once a request was sent.
  unfoldable pub answered : Answers → HttpUrl → ℕ → FetchEntry D
  answered a url max_bytes =
      let body = read_body max_bytes a.rounds [] in
      let status : ℕ = elim a.status [ none ↦ 0 | some code ↦ code ] in
      if a.sends && a.receives
      then (record {
        url = display_url url;
        ok = true;
        status = status;
        bytes = length body;
        elapsed_ms = d.of_nat 0;
        info = take 256 body;
      })
      else failed_entry url (codes "WinHttpSendRequest/ReceiveResponse failed")

  -- `http_get` on Windows. The clock's readings are `t0` and `now`.
  unfoldable pub http_get_windows : Answers → ℕ → ℕ → HttpUrl → ℕ → FetchEntry D × List HandleCall
  http_get_windows a t0 now url max_bytes =
      if not a.opens
      then (failed_entry url (codes "WinHttpOpen failed"), [])
      else if not a.connects
      then (failed_entry url (codes "WinHttpConnect failed"), opened session ∷ closed session ∷ [])
      else if not a.opens_request
      then (
        failed_entry url (codes "WinHttpOpenRequest failed"),
        opened session ∷ opened connection ∷ closed connection ∷ closed session ∷ [],
      )
      else (
        record (answered a url max_bytes) { elapsed_ms = millis d (now - t0) },
        opened session
            ∷ opened connection
            ∷ opened request
            ∷ closed request
            ∷ closed connection
            ∷ closed session
            ∷ [],
      )

  -- `http_get` on another system.
  unfoldable pub http_get_other : HttpUrl → FetchEntry D
  http_get_other url = failed_entry url (codes "not supported on this platform")

  -- A task that was dispatched, and the index of its entry: `tasks[k]` and `task_indices[k]`.
  abbrev pub Task : Type 0
  Task = ℕ × HttpUrl

  -- The entry of an address that cannot be parsed.
  abbrev pub refused_entry : Bytes → Bytes → FetchEntry D → FetchEntry D
  refused_entry url error entry = record entry { url = url; info = error }

  -- The loop that dispatches a task for each address.
  unfoldable pub fan_out :
      List Bytes → ℕ → List (FetchEntry D) → List (FetchEntry D) × List (ℕ × HttpUrl)
  fan_out [] i entries = (entries, [])
  fan_out (u ∷ urls) i entries =
      let url = parse_http_url u in
      let skipped = fan_out urls (suc i) (modify i (refused_entry u url.error) entries) in
      let rest = fan_out urls (suc i) entries in
      if not url.ok then skipped else (rest.0, (i, url) ∷ rest.1)

  -- The loop that awaits the tasks. `answers` gives what each task returned.
  unfoldable pub fan_in :
      (ℕ → HttpUrl → FetchEntry D)
      → ℕ
      → List (ℕ × HttpUrl)
      → List (FetchEntry D)
      → List (FetchEntry D)
  fan_in answers k [] entries = entries
  fan_in answers k ((i, url) ∷ tasks) entries =
      fan_in answers (suc k) tasks (modify i (λ old. answers k url) entries)

  -- The method. `get k url timeout_ms max_bytes` is what the task `k` returns: its run of `http_get`.
  unfoldable pub fetch :
      (ℕ → HttpUrl → ℕ → ℕ → FetchEntry D) → ℕ → ℕ → List Bytes → ℕ → List (FetchEntry D) × D
  fetch get t0 now [] timeout_ms = ([], d.of_nat 0)
  fetch get t0 now (u ∷ urls) timeout_ms =
      let all = u ∷ urls in
      let timeout = clamp timeout_ms 100 30000 in
      let out = fan_out all 0 (replicate (length all) blank_entry) in
      (fan_in (λ k url. get k url timeout (1024 * 1024)) 0 out.1 out.0, millis d (now - t0))
