-- ===== src/Log/Time.antt =====
-- `log_parse_time` of src/ngx_lua_cpp.cpp: the time of a line of the access log. An `int` and an
-- `unsigned` are residues below 2 ^ 32 (`char` is signed), a `long long` is one below 2 ^ 64.
use ngx_lua_cpp.Prelude.{
  ℕ, ◌+◌, ◌-◌, ◌*◌, ◌/◌, ◌%◌, ◌^◌, Option, none, some, List, [], ◌∷◌, length, get_or, take, drop,
  ltb, leb, ◌==◌, if◌then◌else◌,
}
use ngx_lua_cpp.Prelude.Order.{same, bytes_ord}
use ngx_lua_cpp.Prelude.Text.{Bytes, codes}

pub data ℤ : Type 0 where
  pos : ℕ → ℤ
  negsuc : ℕ → ℤ

abbrev pub word : ℕ → ℕ
word n = n % 2 ^ 32

-- `s[i] - '0'`, at the end of the text the null character
unfoldable pub digit : Bytes → ℕ → ℕ
digit s i =
    let c = get_or s i 0 in
    if ltb c 128 then word (c + (2 ^ 32 - 48)) else word (c + (2 ^ 32 - 256 - 48))

unfoldable pub two_digits : Bytes → ℕ → ℕ
two_digits s i = word (digit s i * 10 + digit s (i + 1))

unfoldable pub four_digits : Bytes → ℕ → ℕ
four_digits s i = word (word (two_digits s i * 10 + digit s (i + 2)) * 10 + digit s (i + 3))

abbrev pub log_months : List Bytes
log_months =
    codes "Jan"
    ∷ codes "Feb"
    ∷ codes "Mar"
    ∷ codes "Apr"
    ∷ codes "May"
    ∷ codes "Jun"
    ∷ codes "Jul"
    ∷ codes "Aug"
    ∷ codes "Sep"
    ∷ codes "Oct"
    ∷ codes "Nov"
    ∷ codes "Dec"
    ∷ []

-- The search for the month, which counts from 1.
unfoldable pub find_month : Bytes → List Bytes → ℕ → Option ℕ
find_month name [] m = none
find_month name (month ∷ months) m =
    if same name month then some (m + 1) else find_month name months (m + 1)

-- `(y >= 0 ? y : y - 399) / 400`, which rounds towards zero
unfoldable pub era_of : ℕ → ℕ
era_of y = if ltb y (2 ^ 31) then y / 400 else word (2 ^ 32 - (2 ^ 32 - y + 399) / 400)

abbrev pub sign_extend : ℕ → ℕ
sign_extend n = if ltb n (2 ^ 31) then n else n + (2 ^ 64 - 2 ^ 32)

-- The days from the era, the year of the era and the day of the year.
unfoldable pub days_of_era : ℕ → ℕ → ℕ
days_of_era y doy =
    let era = era_of y in
    let yoe = word (y + (2 ^ 32 - word (era * 400))) in
    let doe = word (yoe * 365 + yoe / 4 + (2 ^ 32 - yoe / 100) + doy) in
    (sign_extend era * 146097 + doe + (2 ^ 64 - 719468)) % 2 ^ 64

-- `days_from_civil`
unfoldable pub days_from_civil : ℕ → ℕ → ℕ → ℕ
days_from_civil year month day =
    let y = if leb month 2 then word (year + (2 ^ 32 - 1)) else year in
    let mp = if ltb 2 month then month - 3 else month + 9 in
    days_of_era y (word ((153 * mp + 2) / 5 + day + (2 ^ 32 - 1)))

abbrev pub signed : ℕ → ℤ
signed n = if ltb n (2 ^ 63) then pos n else negsuc (2 ^ 64 - 1 - n)

-- The product and the sum are of type `double` in the code. A year has four characters, so both are
-- whole numbers below 2 ^ 53, which a `double` has exactly.
unfoldable pub log_parse_time : Bytes → ℤ
log_parse_time s =
    let hms = word (two_digits s 13 * 3600 + two_digits s 16 * 60 + two_digits s 19) in
    if ltb (length s) 20
    then pos 0
    else if get_or s 0 0 == b'['
    then (elim (find_month (take 3 (drop 4 s)) log_months 0) [
      | none ↦ pos 0
      | some month ↦ signed (
          (days_from_civil (four_digits s 8) month (two_digits s 1) * 86400 + sign_extend hms)
          % 2 ^ 64)
    ])
    else pos 0
