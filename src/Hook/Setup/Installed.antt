-- ===== src/Hook/Setup/Installed.antt =====
-- nginx's loop goes through the hook, and comes to nginx's own function.
use ngx_lua_cpp.Prelude.{
  ℕ, ◌≡◌, ◌≢◌, true, false, min, ◌⊎◌, inl, inr, Option, none, some, has, Option-cases, ◌==◌,
  if◌then◌else◌, arith,
}
use ngx_lua_cpp.Prelude.Text.{Bytes, codes}
use ngx_lua_cpp.Hook.{Hooker, Shared, process_events}
use ngx_lua_cpp.Hook.Setup.{
  find_symbols, nginx_own, proxy_ngx_process_events, Memory, Installation, install,
  call_process_events,
}

-- What the constructor leaves, with the actions at `p`.
abbrev installed : (Bytes → Option ℕ) → Memory → ℕ → Installation
installed dlsym memory p = record {
  symbols = find_symbols dlsym;
  prev_ngx_process_events = (memory p).process_events;
  memory = λ q.
      if q == p then record (memory p) { process_events = proxy_ngx_process_events } else memory q;
}

module _ {S : Type 0} (poll : ℕ → Shared S → Shared S) where
  -- The calls of nginx's loop go through the hook, once, to the function that was there before, with
  -- the timer cut to 16 ms if nginx has no `notify`; all else in nginx's memory is as it was.
  abbrev pub IsInstalled : Memory → ℕ → ℕ → Installation → Type 0
  IsInstalled memory p f i =
      ((timer : ℕ) (k : Hooker) (w : Shared S)
        → call_process_events poll (i.memory p) i.prev_ngx_process_events timer k w
          ≡ some (
            f,
            (if has (memory p).notify then timer else min timer 16),
            (process_events poll (has (memory p).notify) timer k w).0,
            (process_events poll (has (memory p).notify) timer k w).1,
          ))
      × ((i.memory p).notify ≡ (memory p).notify)
      × ((q : ℕ) → q ≢ p → i.memory q ≡ memory q)

  installed-IsInstalled :
      (dlsym : Bytes → Option ℕ) (memory : Memory) (p f : ℕ)
      → (memory p).process_events ≡ nginx_own f
      → IsInstalled memory p f (installed dlsym memory p)
  unfolding call_process_events process_events
  installed-IsInstalled dlsym memory p f own =
      let here : (p == p) ≡ true = ground arith in
      (
        λ timer k w. rw (here, own),
        rw here,
        λ q apart. let there : (q == p) ≡ false = ground (arith, apart) in rw there,
      )

  -- The constructor of the hook fails just where nginx's `ngx_event_actions` is not found. Where the
  -- function that stands in it is nginx's own, the calls of nginx's loop then go through the hook, once,
  -- to that function, with the timer cut to 16 ms if nginx has no `notify`; all else in nginx's memory
  -- is as it was.
  pub install-IsInstalled :
      (dlsym : Bytes → Option ℕ) (memory : Memory) (f : ℕ)
      → ((p : ℕ)
          → dlsym (codes "ngx_event_actions") ≡ some p
          → (memory p).process_events ≡ nginx_own f)
      → ((dlsym (codes "ngx_event_actions") ≡ none) × (install dlsym memory ≡ none))
        ⊎ ((p : ℕ) × (i : Installation) × (dlsym (codes "ngx_event_actions") ≡ some p)
            × (install dlsym memory ≡ some i)
            × IsInstalled memory p f i)
  unfolding install find_symbols
  install-IsInstalled dlsym memory f own = elim (Option-cases (dlsym (codes "ngx_event_actions"))) [
    | inl missing ↦ inl (missing, rw missing)
    | inr (p, found) ↦ inr (
      p,
      installed dlsym memory p,
      found,
      rw found,
      installed-IsInstalled dlsym memory p f (own p found),
    )
  ]
