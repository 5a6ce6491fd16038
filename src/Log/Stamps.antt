-- ===== src/Log/Stamps.antt =====
-- The time of a log line, printed and read back.
use ngx_lua_cpp.Prelude.{
  ℕ, ◌+◌, ◌*◌, ◌/◌, ◌%◌, ◌^◌, ◌≤◌, ◌<◌, ◌≡◌, refl, ap, Bool, true, false, Option, none, some, [],
  ◌∷◌, length, get_or, ltb, ◌==◌, ==_iff, arith, all_below, all_below_sound, lt→ltb,
}
use ngx_lua_cpp.Prelude.Order.{bytes_ord, compare_bytes}
use ngx_lua_cpp.Prelude.Text.{Bytes}
use ngx_lua_cpp.Log.Time.{
  pos, word, digit, two_digits, four_digits, log_months, find_month, days_from_civil, signed,
  sign_extend, log_parse_time,
}
use ngx_lua_cpp.Log.Calendar.{
  is_leap, days_before_year, days_of_months, days_from_civil_lem, days_bound,
}

-- A day and a month count from 0.
pub record Moment : Type 0 where
  pub year : ℕ
  pub month : ℕ
  pub day : ℕ
  pub hour : ℕ
  pub minute : ℕ
  pub second : ℕ

abbrev pub IsMoment : Moment → Type 0
IsMoment t =
    (1970 ≤ t.year)
    × (t.year ≤ 9999)
    × (t.month < 12)
    × (t.day ≤ 30)
    × (t.hour ≤ 23)
    × (t.minute ≤ 59)
    × (t.second ≤ 60)

abbrev pub figure : ℕ → ℕ
figure n = b'0' + n % 10

abbrev pub letter : ℕ → ℕ → ℕ
letter month i = get_or (get_or log_months month []) i 0

-- `[dd/Mon/yyyy:HH:MM:SS`
abbrev pub stamp : Moment → Bytes → Bytes
stamp t rest =
    b'['
    ∷ figure ((t.day + 1) / 10)
    ∷ figure (t.day + 1)
    ∷ b'/'
    ∷ letter t.month 0
    ∷ letter t.month 1
    ∷ letter t.month 2
    ∷ b'/'
    ∷ figure (t.year / 1000)
    ∷ figure (t.year / 100)
    ∷ figure (t.year / 10)
    ∷ figure t.year
    ∷ b':'
    ∷ figure (t.hour / 10)
    ∷ figure t.hour
    ∷ b':'
    ∷ figure (t.minute / 10)
    ∷ figure t.minute
    ∷ b':'
    ∷ figure (t.second / 10)
    ∷ figure t.second
    ∷ rest

digit_lem : (s : Bytes) (i n : ℕ) → get_or s i 0 ≡ figure n → digit s i ≡ n % 10
unfolding digit
digit_lem s i n h = rw h (ground arith)

two_digits_lem :
    (s : Bytes) (i n : ℕ)
    → n ≤ 99
    → get_or s i 0 ≡ figure (n / 10)
    → get_or s (i + 1) 0 ≡ figure n
    → two_digits s i ≡ n
unfolding two_digits
two_digits_lem s i n p g h = rw (digit_lem s i (n / 10) g, digit_lem s (i + 1) n h) (omega arith)

four_digits_lem :
    (s : Bytes) (i n : ℕ)
    → n ≤ 9999
    → get_or s i 0 ≡ figure (n / 1000)
    → get_or s (i + 1) 0 ≡ figure (n / 100)
    → get_or s (i + 2) 0 ≡ figure (n / 10)
    → get_or s (i + 3) 0 ≡ figure n
    → four_digits s i ≡ n
unfolding four_digits two_digits
four_digits_lem s i n p a b c e =
    rw
      (
        digit_lem s i (n / 1000) a,
        digit_lem s (i + 1) (n / 100) b,
        digit_lem s (i + 2) (n / 10) c,
        digit_lem s (i + 3) n e,
      )
      (omega arith)

abbrev name : ℕ → Bytes
name month = letter month 0 ∷ letter month 1 ∷ letter month 2 ∷ []

abbrev is : ℕ → Option ℕ → Bool
is n none = false
is n (some m) = m == n

some_of_is : (n : ℕ) (o : Option ℕ) → is n o ≡ true → o ≡ some n
some_of_is n none h = ground arith
some_of_is n (some m) h = ap some ((==_iff m n).0 h)

is-find_month :
    (month : ℕ) → month < 12 → is (month + 1) (find_month (name month) log_months 0) ≡ true
unfolding all_below find_month compare_bytes
is-find_month month p =
    all_below_sound 12 (λ m. is (m + 1) (find_month (name m) log_months 0)) month refl p

find_month_lem : (month : ℕ) → month < 12 → find_month (name month) log_months 0 ≡ some (month + 1)
find_month_lem month p =
    some_of_is (month + 1) (find_month (name month) log_months 0) (is-find_month month p)

signed_lem :
    (date hms : ℕ)
    → date ≤ 4000100
    → hms ≤ 90000
    → signed ((date * 86400 + sign_extend (word hms)) % 2 ^ 64) ≡ pos (date * 86400 + hms)
signed_lem date hms p q =
    let small : ltb (word hms) (2 ^ 31) ≡ true = lt→ltb (word hms) (2 ^ 31) (omega arith) in
    let total : (date * 86400 + word hms) % 2 ^ 64 ≡ date * 86400 + hms = omega arith in
    let positive : ltb (date * 86400 + hms) (2 ^ 63) ≡ true =
      lt→ltb (date * 86400 + hms) (2 ^ 63) (omega arith) in
    rw (small, total, positive)

-- The seconds of the moment since the first of January 1970.
abbrev pub SecondsOf : Moment → ℕ → Type 0
SecondsOf t seconds =
    seconds + 719528 * 86400
    ≡ (days_before_year t.year + days_of_months (is_leap t.year) t.month + t.day) * 86400
      + t.hour * 3600
      + t.minute * 60
      + t.second

-- The time of a log line that starts with a printed moment, of a year from 1970 to 9999, is the
-- moment's seconds since the first of January 1970, as the Gregorian calendar counts the days: a year
-- of 366 days is divisible by 4, and by 400 if by 100.
pub log_parse_time-stamp :
    (t : Moment) (rest : Bytes)
    → IsMoment t
    → (seconds : ℕ) × (log_parse_time (stamp t rest) ≡ pos seconds) × SecondsOf t seconds
unfolding log_parse_time
log_parse_time-stamp t rest (since, until, month, day, hour, minute, second) =
    let s = stamp t rest in
    let date = days_from_civil t.year (t.month + 1) (t.day + 1) in
    let seconds = date * 86400 + (t.hour * 3600 + t.minute * 60 + t.second) in
    let civil = days_from_civil_lem t.year t.month t.day since until month (omega arith) in
    let bound = days_bound t.year t.month until month in
    let long : ltb (length s) 20 ≡ false = ground arith in
    let year_read = four_digits_lem s 8 t.year until refl refl refl refl in
    let day_read = two_digits_lem s 1 (t.day + 1) (omega arith) refl refl in
    let hour_read = two_digits_lem s 13 t.hour (omega arith) refl refl in
    let minute_read = two_digits_lem s 16 t.minute (omega arith) refl refl in
    let second_read = two_digits_lem s 19 t.second (omega arith) refl refl in
    (
      seconds,
      rw
          (
            long,
            find_month_lem t.month month,
            year_read,
            day_read,
            hour_read,
            minute_read,
            second_read,
          )
          (signed_lem date (t.hour * 3600 + t.minute * 60 + t.second) (omega (arith, civil, bound))
            (omega arith)),
      omega (arith, civil),
    )
