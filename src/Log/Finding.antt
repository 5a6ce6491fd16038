-- ===== src/Log/Finding.antt =====
-- The searches in a line of the log.
use ngx_lua_cpp.Prelude.{
  ℕ, zero, suc, ◌+◌, ◌-◌, ◌≤◌, ◌≡◌, refl, ap, true, false, some, List, [], ◌∷◌, ◌++◌, length, take,
  drop, All, ◌||◌, ◌==◌, arith, Bool-cases, inl, inr,
}
use ngx_lua_cpp.Prelude.Text.{Bytes, codes}
use ngx_lua_cpp.Url.{find, starts_with, is_digit}
use ngx_lua_cpp.Url.RoundTrip.{Without, find-append}
use ngx_lua_cpp.Log.{find_from, find_http, skip_blanks, take_digits, request_url}

module _ {A : Type 0} where
  pub drop-append : (xs ys : List A) → drop (length xs) (xs ++ ys) ≡ ys
  drop-append [] ys = refl
  drop-append (x ∷ xs) ys = drop-append xs ys

  pub drop-append_suc : (xs ys : List A) (y : A) → drop (length xs + 1) (xs ++ y ∷ ys) ≡ ys
  drop-append_suc [] ys y = refl
  drop-append_suc (x ∷ xs) ys y =
      let next : suc (length xs) + 1 ≡ suc (length xs + 1) = omega arith in
      rw next (drop-append_suc xs ys y)

  pub drop-drop : (m n : ℕ) (xs : List A) → drop (m + n) xs ≡ drop n (drop m xs)
  drop-drop zero n xs = let same : 0 + n ≡ n = omega arith in rw same
  drop-drop (suc m) n (x ∷ xs) =
      let next : suc m + n ≡ suc (m + n) = omega arith in rw next (drop-drop m n xs)
  drop-drop (suc m) zero [] = let next : suc m + 0 ≡ suc m = omega arith in rw next
  drop-drop (suc m) (suc n) [] = let next : suc m + suc n ≡ suc (m + suc n) = omega arith in rw next

  pub take-append : (xs ys : List A) → take (length xs) (xs ++ ys) ≡ xs
  take-append [] ys = refl
  take-append (x ∷ xs) ys = ap (◌∷◌ x) (take-append xs ys)

pub find_from-append :
    (c y : ℕ) (xs ys zs : Bytes)
    → Without c ys
    → find_from c (length xs + 1) (xs ++ y ∷ (ys ++ c ∷ zs)) ≡ some (length xs + 1 + length ys)
find_from-append c y xs ys zs h =
    rw (find_from, drop-append_suc xs (ys ++ c ∷ zs) y, find-append c ys zs h)

-- The method, the address and the protocol.
abbrev pub request_line : Bytes → Bytes → Bytes
request_line method url = method ++ b' ' ∷ (url ++ codes " HTTP/1.1")

pub request_url-request_line :
    (method url : Bytes)
    → Without b' ' method
    → Without b' ' url
    → request_url (request_line method url) ≡ some url
unfolding request_url
request_url-request_line method url p q =
    let rest = url ++ codes " HTTP/1.1" in
    let first : find b' ' (request_line method url) ≡ some (length method) =
      find-append b' ' method rest p in
    let second = find_from-append b' ' b' ' method url (codes "HTTP/1.1") q in
    let tail = drop-append_suc method rest b' ' in
    let size : length method + 1 + length url - length method - 1 ≡ length url = omega arith in
    rw (first, second, tail, size) (ap some (take-append url (codes " HTTP/1.1")))

-- The first "HTTP/" is no later than one that is there.
pub find_http-append :
    (xs ys : Bytes) → (i : ℕ) × (find_http (xs ++ (codes "HTTP/" ++ ys)) ≡ some i) × (i ≤ length xs)
unfolding find_http starts_with
find_http-append [] ys = (0, refl, omega arith)
find_http-append (x ∷ xs) ys =
    let (i, found, near) = find_http-append xs ys in
    elim (Bool-cases (starts_with (codes "HTTP/") (x ∷ xs ++ (codes "HTTP/" ++ ys)))) [
      | inl here ↦ (0, rw here, omega arith)
      | inr later ↦ (suc i, rw (later, found), omega (arith, near))
    ]

abbrev pub IsNumber : Bytes → Type 0
IsNumber s = All (λ c. is_digit c ≡ true) s

take_digits-append :
    (status rest : Bytes) → IsNumber status → take_digits (status ++ b' ' ∷ rest) ≡ status
unfolding take_digits
take_digits-append [] rest h = refl
take_digits-append (c ∷ status) rest h = rw (h.0, take_digits-append status rest h.1)

not_blank : (c : ℕ) → is_digit c ≡ true → ((c == b' ') || (c == 9)) ≡ false
not_blank c h = ground (arith, h)

pub status_lem :
    (c : ℕ) (status rest : Bytes)
    → IsNumber (c ∷ status)
    → take_digits (skip_blanks (b' ' ∷ c ∷ (status ++ b' ' ∷ rest))) ≡ c ∷ status
unfolding skip_blanks
status_lem c status rest h =
    let digit : ((c == b' ') || (c == 9)) ≡ false = not_blank c h.0 in
    rw digit (take_digits-append (c ∷ status) rest h)
