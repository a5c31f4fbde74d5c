-- ===== src/Calendar/InYear.antt =====
-- The scheduled holidays of a year are days of that year.
use alpha_agent.Calendar.Holidays.{
  good_friday_day, Computus-bounds, last_weekday-weekday, easter_number-Computus,
  nth_weekday-weekday, year_size-le, date-bounds,
}
use alpha_agent.Calendar.Sessions.{
  easter_number, last_of_month, nth_weekday, observed_fixed_holiday, new_years_day,
  scheduled_holidays, good_friday, last_weekday,
}
use alpha_agent.Calendar.Dates.{date, weekday, days_before, days_before_year}
use alpha_agent.Base.{
  All-append, ◌==◌, ℕ, suc, ◌+◌, ◌-◌, ◌≤◌, ◌<◌, ◌≡◌, refl, arith, inl, inr, Bool, Bool-cases,
  if◌then◌else◌, All, leb,
}
use mathlib.Core.Bool.{true, false}
use alpha_agent.Base.{◌++◌, ◌∷◌, []}
use alpha_agent.Calendar.Years.{InYear}

-- A day from the first to day 366 less one of a year, counted from its first day.
within : (y n k : ℕ) → 0 < y → 0 < k → k ≤ 365 → n ≡ days_before_year y + k → InYear y n
within y n k h a b e = (omega (arith, e), omega (arith, e, year_size-le y h))

between : (y n : ℕ) → 0 < y → days_before_year y < n → n ≤ days_before_year y + 365 → InYear y n
between y n h a b = (a, omega (arith, b, year_size-le y h))

new_years_day-InYear : (y : ℕ) → 0 < y → InYear y (new_years_day y)
unfolding new_years_day
new_years_day-InYear y h = go (date y 1 1) (date-bounds y 1 1)
  where
    go :
        (x : ℕ)
        → (days_before_year y + 1 ≤ x) × (x ≤ days_before_year y + 1 + 1)
        → InYear y (if weekday x == 6 then x + 1 else x)
    go x b = elim (Bool-cases (weekday x == 6)) [
      | inl e ↦ rw e (between y (x + 1) h (omega (arith, b)) (omega (arith, b)))
      | inr e ↦ rw e (between y x h (omega (arith, b)) (omega (arith, b)))
    ]

nth_weekday-InYear :
    (y m w n : ℕ)
    → 0 < y
    → w < 7
    → days_before m ≤ 304
    → n ≤ 3
    → InYear y (nth_weekday y m w (suc n))
nth_weekday-InYear y m w n h k l j =
    let b = date-bounds y m 1 in
    let c = nth_weekday-weekday y m w n k in
    between y _ h (omega (arith, b, c)) (omega (arith, b, c))

observed-InYear :
    (y m d : ℕ)
    → 0 < y
    → days_before m + d ≤ 363
    → 2 ≤ days_before m + d
    → InYear y (observed_fixed_holiday y m d)
unfolding observed_fixed_holiday
observed-InYear y m d h k l = go (date y m d) (date-bounds y m d)
  where
    go :
        (x : ℕ)
        → (days_before_year y + (days_before m + d) ≤ x)
          × (x ≤ days_before_year y + (days_before m + d) + 1)
        → InYear y (if weekday x == 5 then x - 1 else if weekday x == 6 then x + 1 else x)
    go x b = elim (Bool-cases (weekday x == 5)) [
      | inl e ↦ rw e (between y (x - 1) h (omega (arith, b, k, l)) (omega (arith, b, k, l)))
      | inr e ↦ elim (Bool-cases (weekday x == 6)) [
        | inl f ↦ rw (e, f) (between y (x + 1) h (omega (arith, b, k, l)) (omega (arith, b, k, l)))
        | inr f ↦ rw (e, f) (between y x h (omega (arith, b, k, l)) (omega (arith, b, k, l)))
      ]
    ]

last_of_may : (y : ℕ) → last_of_month y 5 ≡ date y 6 1 - 1
unfolding last_of_month
last_of_may y = refl

last_weekday-InYear : (y : ℕ) → 0 < y → InYear y (last_weekday y 5 0)
last_weekday-InYear y h =
    let b = date-bounds y 6 1 in
    let e = last_of_may y in
    let c = last_weekday-weekday y 5 0 (omega arith) (omega (arith, b, e)) in
    between y _ h (omega (arith, b, c, e)) (omega (arith, b, c, e))

good_friday-InYear : (y : ℕ) → 0 < y → InYear y (good_friday y)
good_friday-InYear y h =
    let (g, l, m, c) = easter_number-Computus y in
    let b = Computus-bounds y (easter_number y) g l m c in
    let e = good_friday_day y h in
    let s = year_size-le y h in (omega (arith, b, e, s), omega (arith, b, e))

since-InYear : (y : ℕ) (b : Bool) (x : ℕ) → InYear y x → All (InYear y) (if b then x ∷ [] else [])
since-InYear y true x h = (h, tt)
since-InYear y false x h = tt

pub scheduled-InYear : (y : ℕ) → 0 < y → All (InYear y) (scheduled_holidays y)
unfolding scheduled_holidays
scheduled-InYear y h = (
  new_years_day-InYear y h,
  (
    nth_weekday-InYear y 2 0 2 h (omega arith) (omega arith) (omega arith),
    (
      good_friday-InYear y h,
      (
        last_weekday-InYear y h,
        (
          observed-InYear y 7 4 h (omega arith) (omega arith),
          (
            nth_weekday-InYear y 9 0 0 h (omega arith) (omega arith) (omega arith),
            (
              nth_weekday-InYear y 11 3 3 h (omega arith) (omega arith) (omega arith),
              (observed-InYear y 12 25 h (omega arith) (omega arith), added),
            ),
          ),
        ),
      ),
    ),
  ),
)
  where
    added : All (InYear y) (
        (if leb 1998 y then nth_weekday y 1 0 3 ∷ [] else [])
        ++ (if leb 2022 y then observed_fixed_holiday y 6 19 ∷ [] else []))
    added =
        All-append (InYear y) (if leb 1998 y then nth_weekday y 1 0 3 ∷ [] else [])
          (if leb 2022 y then observed_fixed_holiday y 6 19 ∷ [] else [])
          (since-InYear y (leb 1998 y) (nth_weekday y 1 0 3)
            (nth_weekday-InYear y 1 0 2 h (omega arith) (omega arith) (omega arith)))
          (since-InYear y (leb 2022 y) (observed_fixed_holiday y 6 19)
            (observed-InYear y 6 19 h (omega arith) (omega arith)))
