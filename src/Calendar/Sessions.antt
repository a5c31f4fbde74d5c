-- ===== src/Calendar/Sessions.antt =====
-- The functions of the module. Instants are counted in microseconds.
use alpha_agent.Base.{
  ℕ, zero, suc, ◌+◌, ◌-◌, ◌*◌, ◌/◌, ◌%◌, Bool, not, ◌&&◌, ◌==◌, ltb, leb, if◌then◌else◌, Option,
  none, some, List, [], ◌∷◌, ◌++◌, exists, select,
}
use alpha_agent.Calendar.Dates.{date, weekday, year_of}

-- `_EXCEPTIONAL_CLOSURES`
unfoldable pub exceptional_closures : List ℕ
exceptional_closures =
    date 2001 9 11
    ∷ date 2001 9 12
    ∷ date 2001 9 13
    ∷ date 2001 9 14
    ∷ date 2004 6 11
    ∷ date 2007 1 2
    ∷ date 2012 10 29
    ∷ date 2012 10 30
    ∷ date 2018 12 5
    ∷ date 2025 1 9
    ∷ []

unfoldable pub new_years_day : ℕ → ℕ
new_years_day year = if weekday (date year 1 1) == 6 then date year 1 1 + 1 else date year 1 1

unfoldable pub observed_fixed_holiday : (year month day : ℕ) → ℕ
observed_fixed_holiday year month day =
    if weekday (date year month day) == 5
    then date year month day - 1
    else if weekday (date year month day) == 6
    then date year month day + 1
    else date year month day

-- `(weekday - first.weekday()) % 7`, where Python's remainder is not negative.
unfoldable pub nth_weekday : (year month weekday_of occurrence : ℕ) → ℕ
nth_weekday year month w occurrence =
    date year month 1 + ((w + 7 - weekday (date year month 1)) % 7 + 7 * (occurrence - 1))

unfoldable pub last_of_month : (year month : ℕ) → ℕ
last_of_month year month =
    (if month == 12 then date (year + 1) 1 1 else date year (month + 1) 1) - 1

unfoldable pub last_weekday : (year month weekday_of : ℕ) → ℕ
last_weekday year month w =
    last_of_month year month - (weekday (last_of_month year month) + 7 - w) % 7

-- The computus up to the number from which the month and the day of Easter are read.
unfoldable pub easter_number : ℕ → ℕ
easter_number year =
    let a : ℕ = year % 19 in
    let b : ℕ = year / 100 in
    let c : ℕ = year % 100 in
    let d : ℕ = b / 4 in
    let e : ℕ = b % 4 in
    let f : ℕ = (b + 8) / 25 in
    let g : ℕ = (b - f + 1) / 3 in
    let h : ℕ = (19 * a + b - d - g + 15) % 30 in
    let i : ℕ = c / 4 in
    let k : ℕ = c % 4 in
    let ell : ℕ = (32 + 2 * e + 2 * i - h - k) % 7 in
    let m : ℕ = (a + 11 * h + 22 * ell) / 451 in h + ell - 7 * m + 114

unfoldable pub good_friday : ℕ → ℕ
good_friday year = date year (easter_number year / 31) (easter_number year % 31 + 1) - 2

unfoldable pub scheduled_holidays : ℕ → List ℕ
scheduled_holidays year =
    new_years_day year
    ∷ nth_weekday year 2 0 3
    ∷ good_friday year
    ∷ last_weekday year 5 0
    ∷ observed_fixed_holiday year 7 4
    ∷ nth_weekday year 9 0 1
    ∷ nth_weekday year 11 3 4
    ∷ observed_fixed_holiday year 12 25
    ∷ ((if leb 1998 year then nth_weekday year 1 0 3 ∷ [] else [])
        ++ (if leb 2022 year then observed_fixed_holiday year 6 19 ∷ [] else []))

-- `range(start, start + n)`, each year's holidays added to the set.
unfoldable pub holidays_of : (start n : ℕ) → List ℕ
holidays_of start zero = exceptional_closures
holidays_of start (suc n) = scheduled_holidays start ++ holidays_of (start + 1) n

abbrev pub is_in : ℕ → List ℕ → Bool
is_in d l = exists (λ x. x == d) l

-- The `while` loop, whose rounds are the days of the range.
unfoldable pub sessions_from : (holidays : List ℕ) → (current days : ℕ) → List ℕ
sessions_from holidays current zero = []
sessions_from holidays current (suc n) =
    let rest : List ℕ = sessions_from holidays (current + 1) n in
    if ltb (weekday current) 5 && not (is_in current holidays) then current ∷ rest else rest

unfoldable pub us_equity_sessions : (start end : ℕ) → List ℕ
us_equity_sessions start end =
    if leb end start
    then []
    else sessions_from (holidays_of (year_of start) (year_of end + 1 - year_of start)) start
        (end - start)

-- What the time zone America/New_York says: the local date of an instant, and the instant of the
-- local time 16:00 of a date.
pub record Zone : Type 0 where
  pub local_date : ℕ → ℕ
  pub close : ℕ → ℕ

-- `_EOD_FINALIZATION_DELAY`: thirty minutes.
abbrev pub finalization_delay : ℕ
finalization_delay = 1800000000

-- `list[-1]`, which raises on an empty list.
abbrev pub last_of : List ℕ → Option ℕ
last_of [] = none
last_of (x ∷ xs) = elim (last_of xs) [ none ↦ some x | some y ↦ some y ]

-- `none` is the ValueError that no session was found. `now` is an instant, with a timezone.
unfoldable pub latest_completed_us_equity_session : Zone → (now : ℕ) → Option ℕ
latest_completed_us_equity_session z now = last_of (
    select (λ session. leb (z.close session + finalization_delay) now)
      (us_equity_sessions (z.local_date now - 14) (z.local_date now + 1)))
