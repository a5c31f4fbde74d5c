-- ===== src/Calendar/Dates.antt =====
-- Python's `date`: a day of the proleptic Gregorian calendar as its ordinal, where 1 is the first of
-- January of the year 1.
use alpha_agent.Base.{ℕ, ◌+◌, ◌-◌, ◌*◌, ◌/◌, ◌%◌, Bool, not, ◌&&◌, ◌||◌, ◌==◌, ltb, if◌then◌else◌}

abbrev pub is_leap : ℕ → Bool
is_leap y = y % 4 == 0 && (not (y % 100 == 0) || y % 400 == 0)

abbrev pub days_before_year : ℕ → ℕ
days_before_year y = let p : ℕ = y - 1 in p * 365 + p / 4 - p / 100 + p / 400

-- The days before a month in a year that is no leap year.
abbrev pub days_before : ℕ → ℕ
days_before m =
    if m == 1
    then 0
    else if m == 2
    then 31
    else if m == 3
    then 59
    else if m == 4
    then 90
    else if m == 5
    then 120
    else if m == 6
    then 151
    else if m == 7
    then 181
    else if m == 8
    then 212
    else if m == 9
    then 243
    else if m == 10
    then 273
    else if m == 11
    then 304
    else 334

-- `date(year, month, day)`, of a day that exists.
unfoldable pub date : (year month day : ℕ) → ℕ
date y m d = days_before_year y + (days_before m + (if ltb 2 m && is_leap y then 1 else 0)) + d

-- `date.weekday()`: 0 is Monday.
abbrev pub weekday : ℕ → ℕ
weekday n = (n + 6) % 7

-- `date.year`
unfoldable pub year_of : ℕ → ℕ
year_of n =
    let m : ℕ = n - 1 in
    let n400 : ℕ = m / 146097 in
    let r : ℕ = m % 146097 in
    let n100 : ℕ = r / 36524 in
    let s : ℕ = r % 36524 in
    let n4 : ℕ = s / 1461 in
    let n1 : ℕ = s % 1461 / 365 in
    let years : ℕ = n400 * 400 + n100 * 100 + n4 * 4 + n1 in
    if n1 == 4 || n100 == 4 then years else years + 1
