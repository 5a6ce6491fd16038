-- ===== src/Url.antt =====
-- Addresses of the demo fetcher: `http_url_t` and `parse_http_url` of src/ngx_lua_cpp.cpp.
pub mod Digits
pub mod RoundTrip
mod Tests
use ngx_lua_cpp.Prelude.{
  ℕ, zero, suc, ◌+◌, ◌-◌, ◌*◌, ◌%◌, ◌^◌, Bool, true, false, ◌&&◌, ◌||◌, Option, none, some, List,
  [], ◌∷◌, ◌++◌, length, take, drop, min, ltb, leb, ◌==◌, if◌then◌else◌,
}
use ngx_lua_cpp.Prelude.Text.{Bytes, codes}

pub record HttpUrl : Type 0 where
  pub host : Bytes
  pub path : Bytes
  pub port : ℕ
  pub ok : Bool
  pub error : Bytes

-- `rfind(prefix, 0) == 0`
unfoldable pub starts_with : Bytes → Bytes → Bool
starts_with [] s = true
starts_with (c ∷ prefix) [] = false
starts_with (c ∷ prefix) (x ∷ s) = c == x && starts_with prefix s

-- The first place of a character, and the last one.
unfoldable pub find : ℕ → Bytes → Option ℕ
find c [] = none
find c (x ∷ s) = if x == c then some 0 else elim (find c s) [ none ↦ none | some i ↦ some (suc i) ]

unfoldable pub rfind : ℕ → Bytes → Option ℕ
rfind c [] = none
rfind c (x ∷ s) = elim (rfind c s) [
  | some i ↦ some (suc i)
  | none ↦ if x == c then some 0 else none
]

abbrev pub is_space : ℕ → Bool
is_space c = c == b' ' || (leb 9 c && leb c 13)

abbrev pub is_digit : ℕ → Bool
is_digit c = leb b'0' c && leb c b'9'

-- The digits in front of `s`, after those that make `value`.
unfoldable pub read_digits : ℕ → Bytes → ℕ
read_digits value [] = value
read_digits value (c ∷ s) =
    let rest = read_digits (value * 10 + (c - b'0')) s in if is_digit c then rest else value

unfoldable pub skip_spaces : Bytes → Bytes
skip_spaces [] = []
skip_spaces (c ∷ s) = let rest = skip_spaces s in if is_space c then rest else c ∷ s

-- `(size_t)std::atol(s)`: a negative number wraps around. A value that no `long` can hold is
-- undefined in the language; here it stops at the largest, as `strtol` does.
unfoldable pub read_long : Bytes → ℕ
read_long [] = 0
read_long (c ∷ s) =
    if c == b'-'
    then (2 ^ 64 - min (read_digits 0 s) (2 ^ 63)) % 2 ^ 64
    else if c == b'+'
    then min (read_digits 0 s) (2 ^ 63 - 1)
    else min (read_digits 0 (c ∷ s)) (2 ^ 63 - 1)

abbrev pub rejected : Bytes → HttpUrl
rejected error = record { host = []; path = codes "/"; port = 80; ok = false; error = error }

-- The checks, once the host and the port are known.
unfoldable pub finish : Bytes → Bytes → ℕ → Bytes → HttpUrl
finish url host port path =
    if length host == 0 || port == 0
    then record (rejected (codes "invalid url: " ++ url)) { host = host; port = port }
    else (record {
      host = host;
      path = if length path == 0 then codes "/" else path;
      port = port;
      ok = true;
      error = [];
    })

-- What is done with the two parts; `url` is for the error.
unfoldable pub parse_authority : Bytes → Bytes → Bytes → HttpUrl
parse_authority url authority path = elim (rfind b':' authority) [
  | none ↦ finish url authority 80 path
  | some colon ↦
      finish url (take colon authority) (read_long (skip_spaces (drop (suc colon) authority))) path
]

unfoldable pub parse_http_url : Bytes → HttpUrl
parse_http_url url =
    let rest = drop 7 url in
    let found : HttpUrl = elim (find b'/' rest) [
      | none ↦ parse_authority url rest (codes "/")
      | some slash ↦ parse_authority url (take slash rest) (drop slash rest)
    ] in
    if starts_with (codes "http://") url
    then found
    else rejected (codes "only http:// URLs are supported")
