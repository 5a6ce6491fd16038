-- ===== src/Log/Calendar.antt =====
-- The time of a log line against the calendar.
use ngx_lua_cpp.Prelude.{
  ℕ, zero, suc, ◌+◌, ◌-◌, ◌*◌, ◌/◌, ◌%◌, ◌^◌, ◌≤◌, ◌<◌, ◌≡◌, refl, Bool, true, false, not, ◌&&◌,
  ◌||◌, [], ◌∷◌, get_or, ltb, leb, ◌==◌, ==_iff, if◌then◌else◌, arith, Bool-cases, all_below,
  all_below_sound, lt→ltb, leb→le, inl, inr,
}
use ngx_lua_cpp.Prelude.Order.{bytes_ord}
use ngx_lua_cpp.Log.Time.{word, era_of, days_of_era, days_from_civil}

abbrev pub is_leap : ℕ → Bool
is_leap year = ((year % 4) == 0) && (not ((year % 100) == 0) || ((year % 400) == 0))

-- The days of the years before `year`, from the year 0 on.
unfoldable pub days_before_year : ℕ → ℕ
days_before_year zero = 0
days_before_year (suc year) = days_before_year year + (if is_leap year then 366 else 365)

abbrev pub days_of_month : Bool → ℕ → ℕ
days_of_month leap month =
    let february = if leap then 29 else 28 in
    get_or (0 ∷ 31 ∷ february ∷ 31 ∷ 30 ∷ 31 ∷ 30 ∷ 31 ∷ 31 ∷ 30 ∷ 31 ∷ 30 ∷ 31 ∷ []) month 0

-- The days of the months 1 … `month` of a year.
abbrev pub days_of_months : Bool → ℕ → ℕ
days_of_months leap zero = 0
days_of_months leap (suc month) = days_of_months leap month + days_of_month leap (suc month)

-- The days from the first day of the year 0 to a date.
abbrev pub days_to : ℕ → ℕ → ℕ → ℕ
days_to year month day =
    days_before_year year + days_of_months (is_leap year) (month - 1) + (day - 1)

leap_lem :
    (year : ℕ)
    → (if is_leap year then 366 else 365) + (year + 100) / 100 + (year + 3) / 4 + (year + 399) / 400
      ≡ 365 + (year + 4) / 4 + (year + 400) / 400 + (year + 99) / 100
leap_lem year = ground arith

days_before_year_lem :
    (year : ℕ)
    → days_before_year year + (year + 99) / 100 ≡ 365 * year + (year + 3) / 4 + (year + 399) / 400
unfolding days_before_year
days_before_year_lem zero = refl
days_before_year_lem (suc year) =
    let step = leap_lem year in
    let before = days_before_year_lem year in omega (arith, step, before)

-- The days from the first of March of the year 0, where a year starts in March.
abbrev march_days : ℕ → ℕ → ℕ
march_days y doy = y / 400 * 146097 + y % 400 * 365 + y % 400 / 4 - y % 400 / 100 + doy

in_range :
    (y doy : ℕ)
    → y ≤ 9999
    → doy ≤ 600
    → 719468 ≤ march_days y doy
    → (y / 400 * 146097
            + word (y % 400 * 365 + y % 400 / 4 + (2 ^ 32 - y % 400 / 100) + doy)
            + (2 ^ 64 - 719468))
          % 2 ^ 64
        + 719468
      ≡ march_days y doy
in_range y doy p q r =
    let doe : word (y % 400 * 365 + y % 400 / 4 + (2 ^ 32 - y % 400 / 100) + doy)
        ≡ y % 400 * 365 + y % 400 / 4 - y % 400 / 100 + doy =
      omega arith in
    rw doe (omega arith)

days_of_era_lem :
    (y doy : ℕ)
    → y ≤ 9999
    → doy ≤ 600
    → 719468 ≤ march_days y doy
    → days_of_era y doy + 719468 ≡ march_days y doy
unfolding days_of_era
days_of_era_lem y doy p q r =
    let era : era_of y ≡ y / 400 = unfold era_of in ground arith in
    let yoe : word (y + (2 ^ 32 - word ((y / 400) * 400))) ≡ y % 400 = omega arith in
    let small : ltb (y / 400) (2 ^ 31) ≡ true = lt→ltb (y / 400) (2 ^ 31) (omega arith) in
    rw (era, yoe, small) (in_range y doy p q r)

-- The day of the year that starts in March.
abbrev march_day : ℕ → ℕ
march_day month = (153 * (if ltb 2 month then month - 3 else month + 9) + 2) / 5

abbrev agrees : Bool → ℕ → Bool
agrees leap month =
    let days = days_of_months leap month in
    if ltb month 2
    then (days + 306) == march_day (month + 1)
    else days == (march_day (month + 1) + (if leap then 60 else 59))

agrees_lem : (month : ℕ) (leap : Bool) → month < 12 → agrees leap month ≡ true
unfolding all_below
agrees_lem month true p = all_below_sound 12 (agrees true) month refl p
agrees_lem month false p = all_below_sound 12 (agrees false) month refl p

march_day_bound : (month : ℕ) → month ≤ 12 → march_day month ≤ 337
march_day_bound month p = ground arith

days_1970 : days_before_year 1970 ≡ 719528
days_1970 = omega (arith, days_before_year_lem 1970)

-- From the year that starts in March to the one that starts in January.
early :
    (year doy : ℕ)
    → 1970 ≤ year
    → days_before_year year + doy ≡ march_days (year - 1) (doy + 306) + 60
early year doy p = let before = days_before_year_lem year in omega (arith, before)

february : (leap : Bool) → (if leap then 60 else 59) + 306 ≡ (if leap then 366 else 365)
february true = refl
february false = refl

late :
    (year doy : ℕ)
    → 1970 ≤ year
    → days_before_year year + (if is_leap year then 60 else 59) + doy ≡ march_days year doy + 60
late year doy p =
    let before = days_before_year_lem year in
    let step = leap_lem year in
    let same_leap = february (is_leap year) in omega (arith, before, step, same_leap)

since_1970 : (year : ℕ) → 1970 ≤ year → 719528 ≤ days_before_year year
since_1970 year p = omega (arith, days_before_year_lem year)

if_true : (test x y : Bool) → test ≡ true → (if test then x else y) ≡ true → x ≡ true
if_true true x y h k = k
if_true false x y h k = ground arith

if_false : (test x y : Bool) → test ≡ false → (if test then x else y) ≡ true → y ≡ true
if_false true x y h k = ground arith
if_false false x y h k = k

in_winter :
    (month : ℕ) (leap : Bool)
    → ltb month 2 ≡ true
    → agrees leap month ≡ true
    → ((days_of_months leap month + 306) == march_day (month + 1)) ≡ true
in_winter month leap winter known = if_true (ltb month 2) _ _ winter known

in_summer :
    (month : ℕ) (leap : Bool)
    → ltb month 2 ≡ false
    → agrees leap month ≡ true
    → (days_of_months leap month == (march_day (month + 1) + (if leap then 60 else 59))) ≡ true
in_summer month leap summer known = if_false (ltb month 2) _ _ summer known

pub days_from_civil_lem :
    (year month day : ℕ)
    → 1970 ≤ year
    → year ≤ 9999
    → month < 12
    → day ≤ 98
    → days_from_civil year (month + 1) (day + 1) + 719528
      ≡ days_before_year year + days_of_months (is_leap year) month + day
unfolding days_from_civil
days_from_civil_lem year month day p q r t =
    let known = agrees_lem month (is_leap year) r in
    let bound = march_day_bound (month + 1) (omega arith) in
    let doy : word (march_day (month + 1) + (day + 1) + (2 ^ 32 - 1))
        ≡ march_day (month + 1) + day =
      omega (arith, bound) in
    let since = since_1970 year p in
    elim (Bool-cases (ltb month 2)) [
      | inl winter ↦
          let months : days_of_months (is_leap year) month + 306 ≡ march_day (month + 1) =
            (==_iff (days_of_months (is_leap year) month + 306) (march_day (month + 1))).0
              (in_winter month (is_leap year) winter known) in
          let test : leb (month + 1) 2 ≡ true = ground (arith, winter) in
          let y : word (year + (2 ^ 32 - 1)) ≡ year - 1 = omega arith in
          let start = early year (days_of_months (is_leap year) month + day) p in
          let same_day : days_of_months (is_leap year) month + day + 306
              ≡ march_day (month + 1) + day =
            omega (arith, months) in
          let days : days_of_era (year - 1) (march_day (month + 1) + day) + 719528
              ≡ days_before_year year + days_of_months (is_leap year) month + day =
            let era =
              days_of_era_lem (year - 1) (march_day (month + 1) + day) (omega arith)
                (omega (arith, bound)) (omega (arith, start, same_day, since)) in
            omega (arith, era, start, same_day) in
          rw (test, y, doy) days
      | inr summer ↦
          let months : days_of_months (is_leap year) month
              ≡ march_day (month + 1) + (if is_leap year then 60 else 59) =
            (==_iff (days_of_months (is_leap year) month)
                (march_day (month + 1) + (if is_leap year then 60 else 59))).0
              (in_summer month (is_leap year) summer known) in
          let test : leb (month + 1) 2 ≡ false = ground (arith, summer) in
          let start = late year (march_day (month + 1) + day) p in
          let days : days_of_era year (march_day (month + 1) + day) + 719528
              ≡ days_before_year year + days_of_months (is_leap year) month + day =
            let era =
              days_of_era_lem year (march_day (month + 1) + day) q (omega (arith, bound))
                (omega (arith, start, since)) in
            omega (arith, era, start, months) in
          rw (test, doy) days
    ]

months_bound : (month : ℕ) (leap : Bool) → month < 12 → days_of_months leap month ≤ 335
unfolding all_below
months_bound month true p =
    leb→le (days_of_months true month) 335
      (all_below_sound 12 (λ m. leb (days_of_months true m) 335) month refl p)
months_bound month false p =
    leb→le (days_of_months false month) 335
      (all_below_sound 12 (λ m. leb (days_of_months false m) 335) month refl p)

pub days_bound :
    (year month : ℕ)
    → year ≤ 9999
    → month < 12
    → days_before_year year + days_of_months (is_leap year) month ≤ 4000000
days_bound year month p q =
    let before = days_before_year_lem year in
    let months = months_bound month (is_leap year) q in omega (arith, before, months)

pub since_1971 : (year : ℕ) → 1971 ≤ year → 719529 ≤ days_before_year year
since_1971 year p = omega (arith, days_before_year_lem year)
