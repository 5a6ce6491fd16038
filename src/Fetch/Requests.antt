-- ===== src/Fetch/Requests.antt =====
-- One request over WinHTTP: its handles, and the body that it reads.
use ngx_lua_cpp.Prelude.{
  ℕ, zero, suc, ◌+◌, ◌-◌, ◌≤◌, ◌<◌, ◌≡◌, refl, ap, sym, ◌∙◌, subst, true, false, ◌&&◌, ◌⊎◌, Option,
  none, some, List, [], ◌∷◌, ◌++◌, append-nil, append_assoc, length, length-append, length-take,
  take, drop, min, leb, ◌==◌, if◌then◌else◌, if_cases, Bool-cases, inl, inr, arith,
}
use ngx_lua_cpp.Prelude.Text.{Bytes, codes}
use ngx_lua_cpp.Prelude.Double.{Double}
use ngx_lua_cpp.Url.{HttpUrl}
use ngx_lua_cpp.Fetch.{
  FetchEntry, Handle, session, connection, request, HandleCall, opened, closed, Round, Answers,
  read_body, failed_entry, answered, http_get_windows,
}

-- The handles that are open after the calls, the last one first. A call that closes another handle
-- than that one has no result: a connection is closed before its session, a request before its
-- connection.
abbrev pub left_open : List HandleCall → List Handle → Option (List Handle)
left_open [] handles = some handles
left_open (opened h ∷ calls) handles = left_open calls (h ∷ handles)
left_open (closed h ∷ calls) [] = none
left_open (closed session ∷ calls) (session ∷ handles) = left_open calls handles
left_open (closed connection ∷ calls) (connection ∷ handles) = left_open calls handles
left_open (closed request ∷ calls) (request ∷ handles) = left_open calls handles
left_open (closed h ∷ calls) (_ ∷ handles) = none

take-nil : (n : ℕ) → take {A = ℕ} n [] ≡ []
take-nil zero = refl
take-nil (suc n) = refl

take-take-drop : (a b c : ℕ) (s : Bytes) → c ≡ a + b → take a s ++ take b (drop a s) ≡ take c s
take-take-drop zero b c s h = ap (λ n. take n s) (omega (arith, h))
take-take-drop (suc a) b zero s h = absurd (omega arith)
take-take-drop (suc a) b (suc c) [] h = take-nil b
take-take-drop (suc a) b (suc c) (x ∷ s) h = ap (◌∷◌ x) (take-take-drop a b c s (omega arith))

-- The bytes that the server sends, until it ends or a read fails, are `sent`: a read gives some of the
-- next ones, no more than are wanted, where `room` is how many there is room for. Nothing is said of
-- what is behind the last one that there is room for.
abbrev pub Serves : ℕ → Bytes → List Round → Type 0
Serves room sent [] = (room ≡ 0) ⊎ (sent ≡ [])
Serves room sent ((available, read) ∷ rounds) =
    (room ≡ 0)
    ⊎ ((sent ≡ [])
        × ((available ≡ 0)
            ⊎ ((read (min available room) ≡ none) ⊎ (read (min available room) ≡ some []))))
    ⊎ ((n : ℕ) × (0 < n)
        × (n ≤ min available room)
        × (n ≤ length sent)
        × (read (min available room) ≡ some (take n sent))
        × Serves (room - n) (drop n sent) rounds)

stays : (room : ℕ) (body sent : Bytes) → (room ≡ 0) ⊎ (sent ≡ []) → body ≡ body ++ take room sent
stays room body sent (inl full) = rw full (sym (append-nil body))
stays room body sent (inr nothing) = rw (nothing, take-nil room) (sym (append-nil body))

-- A round that ends the loop, and one that does not.
read_body-last :
    (max_bytes available : ℕ) (read : ℕ → Option Bytes) (rounds : List Round) (body : Bytes)
    → let want = min available (max_bytes - length body) in
      (want ≡ 0) ⊎ ((read want ≡ none) ⊎ (read want ≡ some []))
      → read_body max_bytes ((available, read) ∷ rounds) body ≡ body
unfolding read_body
read_body-last max_bytes available read rounds body end =
    let want = min available (max_bytes - length body) in
    if_cases (λ (r : Bytes). r ≡ body) (available == 0) _ _ (λ _. refl)
      (λ some_.
        if_cases (λ (r : Bytes). r ≡ body) (want == 0) _ _ (λ _. refl)
          (λ wanted. elim end [
            | inl full ↦ absurd (ground arith)
            | inr (inl failed) ↦ rw failed
            | inr (inr nothing) ↦ rw nothing
          ]))

read_body-next :
    (max_bytes available : ℕ) (read : ℕ → Option Bytes) (rounds : List Round) (body chunk : Bytes)
    → let want = min available (max_bytes - length body) in
      (0 < want)
      → 0 < length chunk
      → read want ≡ some chunk
      → read_body max_bytes ((available, read) ∷ rounds) body ≡ (
          if leb max_bytes (length (body ++ chunk))
          then body ++ chunk
          else read_body max_bytes rounds (body ++ chunk))
unfolding read_body
read_body-next max_bytes available read rounds body chunk wanted filled got =
    let want = min available (max_bytes - length body) in
    let a : (available == 0) ≡ false = ground arith in
    let b : (want == 0) ≡ false = ground arith in
    let c : (length chunk == 0) ≡ false = ground arith in rw (a, b, got, c)

-- The body is what the server sends, as far as there is room.
read_body-Serves :
    (max_bytes : ℕ) (rounds : List Round) (body sent : Bytes)
    → length body ≤ max_bytes
    → Serves (max_bytes - length body) sent rounds
    → read_body max_bytes rounds body ≡ body ++ take (max_bytes - length body) sent
read_body-Serves max_bytes [] body sent h serves =
    unfold read_body in stays (max_bytes - length body) body sent serves
read_body-Serves max_bytes ((available, read) ∷ rounds) body sent h serves =
    let room = max_bytes - length body in
    elim serves [
      | inl full ↦
          read_body-last max_bytes available read rounds body (inl (ground arith))
          ∙ stays room body sent (inl full)
      | inr (inl (nothing, inl gone)) ↦
          read_body-last max_bytes available read rounds body (inl (omega arith))
          ∙ stays room body sent (inr nothing)
      | inr (inl (nothing, inr end)) ↦
          read_body-last max_bytes available read rounds body (inr end)
          ∙ stays room body sent (inr nothing)
      | inr (inr (n, some_, few, there, got, more)) ↦
          let chunk = take n sent in
          let body' = body ++ chunk in
          let size : length chunk ≡ n = omega (arith, length-take n sent) in
          let total : length body' ≡ length body + n = omega (arith, length-append body chunk) in
          read_body-next max_bytes available read rounds body chunk (omega arith) (omega arith) got
          ∙ if_cases (λ (r : Bytes). r ≡ body ++ take room sent) (leb max_bytes (length body')) _ _
              (λ reached.
                let whole : n ≡ room = ground (arith, total) in
                ap (λ (k : ℕ). body ++ take k sent) whole)
              (λ on.
                let left : max_bytes - length body' ≡ room - n = omega (arith, total) in
                read_body-Serves max_bytes rounds body' (drop n sent) (ground arith)
                  (subst (λ (k : ℕ). Serves k (drop n sent) rounds) (sym left) more)
                ∙ append_assoc body chunk (take (max_bytes - length body') (drop n sent))
                ∙ ap (λ (r : Bytes). body ++ r)
                    (take-take-drop n (max_bytes - length body') room sent (omega arith)))
    ]

module _ {D : Type 0} (d : Double D) where
  -- However WinHTTP answers, a request closes every handle that it opened, each before the one that
  -- it was made from.
  pub left_open-http_get_windows :
      (a : Answers) (t0 now : ℕ) (url : HttpUrl) (max_bytes : ℕ)
      → left_open (http_get_windows d a t0 now url max_bytes).1 [] ≡ some []
  unfolding http_get_windows
  left_open-http_get_windows a t0 now url max_bytes = elim (Bool-cases a.opens) [
    | inr closed' ↦ rw closed'
    | inl open' ↦ elim (Bool-cases a.connects) [
      | inr apart ↦ rw (open', apart)
      | inl connected ↦ elim (Bool-cases a.opens_request) [
        | inr refused ↦ rw (open', connected, refused)
        | inl accepted ↦ rw (open', connected, accepted)
      ]
    ]
  ]

  -- What a request may report of what the server sends: `max_bytes` bytes at most, of which it shows
  -- the first 256.
  abbrev pub Reports : ℕ → Bytes → FetchEntry D → Type 0
  Reports max_bytes sent entry =
      (entry.ok ≡ true
        → (entry.bytes ≡ min max_bytes (length sent))
          × (entry.info ≡ take 256 (take max_bytes sent)))
      × (entry.ok ≡ false → entry.bytes ≡ 0)

  failed_entry-Reports :
      (max_bytes : ℕ) (sent : Bytes) (url : HttpUrl) (info : Bytes)
      → Reports max_bytes sent (failed_entry d url info)
  failed_entry-Reports max_bytes sent url info = (λ succeeded. ground arith, λ failed. refl)

  answered-Reports :
      (a : Answers) (url : HttpUrl) (max_bytes : ℕ) (sent : Bytes)
      → Serves max_bytes sent a.rounds
      → Reports max_bytes sent (answered d a url max_bytes)
  unfolding answered
  answered-Reports a url max_bytes sent serves =
      let room : max_bytes - 0 ≡ max_bytes = omega arith in
      let body : read_body max_bytes a.rounds [] ≡ take max_bytes sent =
        read_body-Serves max_bytes a.rounds [] sent (omega arith)
          (subst (λ (k : ℕ). Serves k sent a.rounds) (sym room) serves)
        ∙ ap (λ (k : ℕ). take k sent) room in
      elim (Bool-cases (a.sends && a.receives)) [
        | inr failed ↦ simp failed (
            failed_entry-Reports max_bytes sent url
              (codes "WinHttpSendRequest/ReceiveResponse failed"))
        | inl success ↦ simp success (
          λ _. (ap length body ∙ length-take max_bytes sent, ap (λ (b : Bytes). take 256 b) body),
          λ failed. ground arith,
        )
      ]

  -- If the server sends the bytes `sent` until it ends or a read fails, however these are cut into
  -- reads, a request that succeeds reports the first `max_bytes` of them and shows the first 256 of
  -- those; one that fails reports none.
  pub http_get_windows_bytes :
      (a : Answers) (t0 now : ℕ) (url : HttpUrl) (max_bytes : ℕ) (sent : Bytes)
      → Serves max_bytes sent a.rounds
      → Reports max_bytes sent (http_get_windows d a t0 now url max_bytes).0
  unfolding http_get_windows
  http_get_windows_bytes a t0 now url max_bytes sent serves = elim (Bool-cases a.opens) [
    | inr closed' ↦
        simp closed' (failed_entry-Reports max_bytes sent url (codes "WinHttpOpen failed"))
    | inl open' ↦ elim (Bool-cases a.connects) [
      | inr apart ↦
          simp (open', apart)
            (failed_entry-Reports max_bytes sent url (codes "WinHttpConnect failed"))
      | inl connected ↦ elim (Bool-cases a.opens_request) [
        | inr refused ↦
            simp (open', connected, refused)
              (failed_entry-Reports max_bytes sent url (codes "WinHttpOpenRequest failed"))
        | inl accepted ↦
            simp (open', connected, accepted) (answered-Reports a url max_bytes sent serves)
      ]
    ]
  ]
