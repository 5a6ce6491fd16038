-- ===== src/Fetch/FanIn.antt =====
-- Each address has its entry at its own index.
use ngx_lua_cpp.Prelude.{ℕ, suc, List, [], ◌∷◌, if◌then◌else◌}
use ngx_lua_cpp.Prelude.Text.{Bytes}
use ngx_lua_cpp.Prelude.Double.{Double}
use ngx_lua_cpp.Url.{HttpUrl, parse_http_url}
use ngx_lua_cpp.Fetch.{FetchEntry, blank_entry, refused_entry}

module _ {D : Type 0} (d : Double D) where
  -- The addresses one after the other: a task for each that can be parsed, the tasks being counted
  -- from `k`, and the error of each other one.
  abbrev pub one_by_one : (ℕ → HttpUrl → FetchEntry D) → ℕ → List Bytes → List (FetchEntry D)
  one_by_one answers k [] = []
  one_by_one answers k (u ∷ urls) =
      let url = parse_http_url u in
      if url.ok
      then answers k url ∷ one_by_one answers (suc k) urls
      else refused_entry d u url.error (blank_entry d) ∷ one_by_one answers k urls

  -- The entries and the tasks after the first loop.
  abbrev after_out : List Bytes → List (FetchEntry D)
  after_out [] = []
  after_out (u ∷ urls) =
      (if (parse_http_url u).ok
        then blank_entry d
        else refused_entry d u (parse_http_url u).error (blank_entry d))
      ∷ after_out urls

  abbrev tasks_of : ℕ → List Bytes → List (ℕ × HttpUrl)
  tasks_of i [] = []
  tasks_of i (u ∷ urls) =
      let rest = tasks_of (suc i) urls in
      if (parse_http_url u).ok then (i, parse_http_url u) ∷ rest else rest
