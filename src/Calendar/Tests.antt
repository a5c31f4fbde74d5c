-- ===== src/Calendar/Tests.antt =====
-- Holidays and sessions of some years, and runs of the theorems on them.
use alpha_agent.Base.{ℕ, ◌+◌, ◌-◌, ◌*◌, ◌/◌, ◌≤◌, ◌<◌, ◌≡◌, refl, arith, All, [], ◌∷◌, ◌++◌, some}
use mathlib.Core.Bool.{true}
use alpha_agent.Calendar.Dates.{date, weekday, year_of}
use alpha_agent.Calendar.Sessions.{
  Zone, latest_completed_us_equity_session, us_equity_sessions, nth_weekday, last_weekday,
  last_of_month, good_friday, easter_number, observed_fixed_holiday, scheduled_holidays,
  holidays_of, exceptional_closures, sessions_from, new_years_day, finalization_delay,
}
use alpha_agent.Calendar.Window.{is_session, days_where, sessions_window, sessions_adjacent}
use alpha_agent.Calendar.Latest.{latest_completed}
use alpha_agent.Calendar.Holidays.{
  Moved, nth_weekday-weekday, last_weekday-weekday, observed_fixed_holiday-weekday,
  good_friday-weekday,
}

good_friday_2026 : good_friday 2026 ≡ date 2026 4 3
unfolding good_friday easter_number date
good_friday_2026 = refl

thanksgiving_2025 : nth_weekday 2025 11 3 4 ≡ date 2025 11 27
unfolding nth_weekday date
thanksgiving_2025 = refl

memorial_day_2024 : last_weekday 2024 5 0 ≡ date 2024 5 27
unfolding last_weekday last_of_month date
memorial_day_2024 = refl

last_day_of_leap_year : year_of (date 2024 12 31) ≡ 2024
unfolding year_of date
last_day_of_leap_year = refl

-- The week of Easter 2026.
easter_week :
    us_equity_sessions (date 2026 3 30) (date 2026 4 7)
    ≡ date 2026 3 30 ∷ date 2026 3 31 ∷ date 2026 4 1 ∷ date 2026 4 2 ∷ date 2026 4 6 ∷ []
unfolding us_equity_sessions year_of holidays_of scheduled_holidays exceptional_closures
    sessions_from new_years_day nth_weekday good_friday easter_number last_weekday last_of_month
    observed_fixed_holiday date
easter_week = refl

-- A zone four hours behind, with its days counted from 2026-03-30.
abbrev zone : Zone
zone = record {
  local_date = λ t. 739700 + (t - 14400000000) / 86400000000;
  close = λ d. (d - 739700) * 86400000000 + 72000000000;
}

abbrev noon : ℕ
noon = 7 * 86400000000 + 57600000000

latest_of_easter : latest_completed_us_equity_session zone noon ≡ some 739706
unfolding latest_completed_us_equity_session us_equity_sessions year_of holidays_of
    scheduled_holidays exceptional_closures sessions_from new_years_day nth_weekday good_friday
    easter_number last_weekday last_of_month observed_fixed_holiday date
latest_of_easter = refl

nth_weekday-weekday_example :
    (weekday (nth_weekday 2025 11 3 4) ≡ 3)
    × (date 2025 11 1 + 7 * 3 ≤ nth_weekday 2025 11 3 4)
    × (nth_weekday 2025 11 3 4 < date 2025 11 1 + 7 * (3 + 1))
nth_weekday-weekday_example = nth_weekday-weekday 2025 11 3 3 (omega arith)

may_is_late : 6 < last_of_month 2024 5
unfolding last_of_month date
may_is_late = omega arith

last_weekday-weekday_example :
    (weekday (last_weekday 2024 5 0) ≡ 0)
    × (last_weekday 2024 5 0 ≤ last_of_month 2024 5)
    × (last_of_month 2024 5 < last_weekday 2024 5 0 + 7)
last_weekday-weekday_example = last_weekday-weekday 2024 5 0 (omega arith) may_is_late

july_positive : 0 < date 2026 7 4
unfolding date
july_positive = omega arith

observed_fixed_holiday-weekday_example :
    (weekday (observed_fixed_holiday 2026 7 4) < 5)
    × Moved (date 2026 7 4) (observed_fixed_holiday 2026 7 4)
observed_fixed_holiday-weekday_example = observed_fixed_holiday-weekday 2026 7 4 july_positive

good_friday-weekday_example : weekday (good_friday 2026) ≡ 4
good_friday-weekday_example = good_friday-weekday 2026 (omega arith)

sessions_window_example :
    us_equity_sessions 739700 739708 ≡ days_where is_session 739700 (739708 - 739700)
sessions_window_example = sessions_window 739700 739708 (omega arith)

sessions_adjacent_example :
    us_equity_sessions 739700 739708
    ≡ us_equity_sessions 739700 739703 ++ us_equity_sessions 739703 739708
sessions_adjacent_example =
    sessions_adjacent 739700 739703 739708 (omega arith) (omega arith) (omega arith)

latest_completed_example :
    (is_session 739706 ≡ true)
    × (zone.close 739706 + finalization_delay ≤ noon)
    × (739706 ≤ zone.local_date noon)
    × All
        (λ d. noon < zone.close d + finalization_delay)
        (days_where is_session (739706 + 1) (zone.local_date noon - 739706))
latest_completed_example = latest_completed zone noon 739706 (omega arith) latest_of_easter
