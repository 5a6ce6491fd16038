-- ===== src/Url/RoundTrip.antt =====
-- An address that is written out is parsed into its parts.
use ngx_lua_cpp.Prelude.{
  ℕ, suc, ◌≤◌, ◌<◌, ◌≡◌, ◌⊎◌, refl, ap, ◌∙◌, true, false, ◌||◌, none, some, [], ◌∷◌, ◌++◌, All,
  All-append, length, take, drop, ◌==◌, arith, if◌then◌else◌, Bool-cases, Option-cases, inl, inr,
}
use ngx_lua_cpp.Prelude.Text.{Bytes, codes, decimal}
use ngx_lua_cpp.Url.{
  HttpUrl, starts_with, find, rfind, skip_spaces, read_long, finish, parse_authority,
  parse_http_url,
}
use ngx_lua_cpp.Url.Digits.{IsDigit, decimal_digits, read_long-decimal}

-- A character does not occur.
abbrev pub Without : ℕ → Bytes → Type 0
Without c s = All (λ x. (x == c) ≡ false) s

take_front_part : (xs ys : Bytes) → take (length xs) (xs ++ ys) ≡ xs
take_front_part [] ys = refl
take_front_part (x ∷ xs) ys = ap (◌∷◌ x) (take_front_part xs ys)

drop_front_part : (xs ys : Bytes) → drop (length xs) (xs ++ ys) ≡ ys
drop_front_part [] ys = refl
drop_front_part (x ∷ xs) ys = drop_front_part xs ys

pub find-append : (c : ℕ) (xs ys : Bytes) → Without c xs → find c (xs ++ c ∷ ys) ≡ some (length xs)
unfolding find
find-append c [] ys h = let here : (c == c) ≡ true = ground arith in rw here
find-append c (x ∷ xs) ys h = rw (h.0, find-append c xs ys h.1)

rfind_absent : (c : ℕ) (xs : Bytes) → Without c xs → rfind c xs ≡ none
unfolding rfind
rfind_absent c [] h = refl
rfind_absent c (x ∷ xs) h = rw (rfind_absent c xs h.1, h.0)

rfind-append : (c : ℕ) (xs ys : Bytes) → Without c ys → rfind c (xs ++ c ∷ ys) ≡ some (length xs)
unfolding rfind
rfind-append c [] ys h = let here : (c == c) ≡ true = ground arith in rw (rfind_absent c ys h, here)
rfind-append c (x ∷ xs) ys h = rw (rfind-append c xs ys h)

digits-Without : (c : ℕ) (s : Bytes) → (c < b'0') ⊎ (b'9' < c) → All IsDigit s → Without c s
digits-Without c [] out h = tt
digits-Without c (x ∷ s) out h = (ground (arith, h.0.0, h.0.1), digits-Without c s out h.1)

-- The address of a host, a port and a path.
abbrev pub address : Bytes → ℕ → Bytes → Bytes
address host port path = codes "http://" ++ ((host ++ b':' ∷ decimal port) ++ path)

parse_authority_port :
    (url host path : Bytes) (port : ℕ)
    → 0 < length host
    → 0 < port
    → port ≤ 65535
    → 0 < length path
    → parse_authority url (host ++ b':' ∷ decimal port) path
      ≡ record { host = host; path = path; port = port; ok = true; error = [] }
unfolding parse_authority finish
parse_authority_port url host path port named low high rooted =
    let colon =
      rfind-append b':' host (decimal port)
        (digits-Without b':' (decimal port) (inr (omega arith)) (decimal_digits port)) in
    let before = take_front_part host (b':' ∷ decimal port) in
    let number : read_long (skip_spaces (drop (suc (length host)) (host ++ b':' ∷ decimal port)))
        ≡ port =
      ap (λ s. read_long (skip_spaces s)) (drop_past host b':' (decimal port))
      ∙ read_long-decimal port high in
    let some_host : (length host == 0) ≡ false = ground arith in
    let some_port : (port == 0) ≡ false = ground arith in
    let some_path : (length path == 0) ≡ false = ground arith in
    rw (parse_authority, colon, finish, before, number, some_host, some_port, some_path)
  where
    drop_past : (xs : Bytes) (x : ℕ) (ys : Bytes) → drop (suc (length xs)) (xs ++ x ∷ ys) ≡ ys
    drop_past [] x ys = refl
    drop_past (z ∷ xs) x ys = drop_past xs x ys

-- An address made of a host without '/', a port and a path that starts with '/' is accepted, and
-- its parts are had back; the host and the path may hold a ':'.
pub parse_http_url-address :
    (host path : Bytes) (port : ℕ)
    → Without b'/' host
    → 0 < length host
    → 0 < port
    → port ≤ 65535
    → parse_http_url (address host port (b'/' ∷ path))
      ≡ record { host = host; path = b'/' ∷ path; port = port; ok = true; error = [] }
unfolding parse_http_url starts_with
parse_http_url-address host path port plain named low high =
    let authority = host ++ b':' ∷ decimal port in
    let plain' : Without b'/' authority =
      All-append (λ x. (x == b'/') ≡ false) host (b':' ∷ decimal port) plain
        (refl, digits-Without b'/' (decimal port) (inl (omega arith)) (decimal_digits port)) in
    rw
      (
        find-append b'/' authority path plain',
        take_front_part authority (b'/' ∷ path),
        drop_front_part authority (b'/' ∷ path),
      )
      (parse_authority_port (address host port (b'/' ∷ path)) host (b'/' ∷ path) port named low high
        (omega arith))

-- Refused with an error, or accepted with a host, a port and a path.
abbrev pub Decided : HttpUrl → Type 0
Decided r =
    ((r.ok ≡ false) × (0 < length r.error))
    ⊎ ((r.ok ≡ true) × (r.error ≡ []) × (0 < length r.host) × (0 < r.port) × (0 < length r.path))

finish-Decided : (url host path : Bytes) (port : ℕ) → Decided (finish url host port path)
unfolding finish
finish-Decided url host path port = elim (Bool-cases (length host == 0 || port == 0)) [
  | inl bad ↦ rw (finish, bad) (inl (refl, omega arith))
  | inr good ↦
      let named : 0 < length host = ground arith in
      let numbered : 0 < port = ground arith in
      let rooted : 0 < length (if length path == 0 then codes "/" else path) = ground arith in
      rw (finish, good) (inr (refl, refl, named, numbered, rooted))
]

parse_authority-Decided :
    (url authority path : Bytes) → Decided (parse_authority url authority path)
unfolding parse_authority
parse_authority-Decided url authority path = elim (Option-cases (rfind b':' authority)) [
  | inl none' ↦ rw (parse_authority, none') (finish-Decided url authority path 80)
  | inr (colon, at) ↦ rw (parse_authority, at) (finish-Decided url _ path _)
]

-- Whatever the text, it is refused with an error, or accepted with no error, and then it has a host,
-- a port and a path.
pub parse_http_url-Decided : (url : Bytes) → Decided (parse_http_url url)
unfolding parse_http_url
parse_http_url-Decided url = elim (Bool-cases (starts_with (codes "http://") url)) [
  | inr other ↦ rw (parse_http_url, other) (inl (refl, omega arith))
  | inl http ↦ elim (Option-cases (find b'/' (drop 7 url))) [
    | inl none' ↦
        rw (parse_http_url, http, none') (parse_authority-Decided url (drop 7 url) (codes "/"))
    | inr (slash, at) ↦ rw (parse_http_url, http, at) (parse_authority-Decided url _ _)
  ]
]
