-- ===== src/Calendar/Holidays.antt =====
-- The holidays of a year: the weekday each falls on, and that they lie in that year.
use alpha_agent.Calendar.Years.{days_before_year-form}
use alpha_agent.Calendar.Sessions.{
  good_friday, easter_number, last_of_month, last_weekday, observed_fixed_holiday, nth_weekday,
}
use mathlib.Core.Bool.{true, false}
use alpha_agent.Base.{
  ◌∙◌, ap, ltb→lt, ◌&&◌, Bool, ltb, ◌/◌, ℕ, suc, ◌+◌, ◌-◌, ◌*◌, ◌%◌, ◌≤◌, ◌<◌, ◌≡◌, refl, arith,
  ◌⊎◌, inl, inr, Bool-cases, if◌then◌else◌, ◌==◌,
}
use alpha_agent.Calendar.Dates.{days_before, date, weekday, is_leap, days_before_year}

-- The occurrence-th such weekday of the month falls on the weekday, and within the seven days that
-- begin seven days after the first of the month for each occurrence before it.
pub nth_weekday-weekday :
    (y m w n : ℕ)
    → w < 7
    → (weekday (nth_weekday y m w (suc n)) ≡ w)
      × (date y m 1 + 7 * n ≤ nth_weekday y m w (suc n))
      × (nth_weekday y m w (suc n) < date y m 1 + 7 * (n + 1))
unfolding nth_weekday
nth_weekday-weekday y m w n h = (go (date y m 1), go1 (date y m 1), go2 (date y m 1))
  where
    go : (f : ℕ) → weekday (f + ((w + 7 - weekday f) % 7 + 7 * (suc n - 1))) ≡ w
    go f = omega arith

    go1 : (f : ℕ) → f + 7 * n ≤ f + ((w + 7 - weekday f) % 7 + 7 * (suc n - 1))
    go1 f = omega arith

    go2 : (f : ℕ) → f + ((w + 7 - weekday f) % 7 + 7 * (suc n - 1)) < f + 7 * (n + 1)
    go2 f = omega arith

-- The last such weekday of the month falls on the weekday, within the last seven days of the month,
-- where that ends after day 6 of the calendar.
pub last_weekday-weekday :
    (y m w : ℕ)
    → w < 7
    → 6 < last_of_month y m
    → (weekday (last_weekday y m w) ≡ w)
      × (last_weekday y m w ≤ last_of_month y m)
      × (last_of_month y m < last_weekday y m w + 7)
unfolding last_weekday
last_weekday-weekday y m w h k =
    (go (last_of_month y m) k, go1 (last_of_month y m) k, go2 (last_of_month y m) k)
  where
    go : (f : ℕ) → 6 < f → weekday (f - (weekday f + 7 - w) % 7) ≡ w
    go f k = omega arith

    go1 : (f : ℕ) → 6 < f → f - (weekday f + 7 - w) % 7 ≤ f
    go1 f k = omega arith

    go2 : (f : ℕ) → 6 < f → f < f - (weekday f + 7 - w) % 7 + 7
    go2 f k = omega arith

abbrev moved : ℕ → ℕ
moved x = if weekday x == 5 then x - 1 else if weekday x == 6 then x + 1 else x

-- Where a day that falls on a weekend is moved.
abbrev pub Moved : ℕ → ℕ → Type 0
Moved x z =
    ((weekday x < 5) × (z ≡ x)) ⊎ ((weekday x ≡ 5) × (z + 1 ≡ x)) ⊎ ((weekday x ≡ 6) × (z ≡ x + 1))

moved_lem : (x : ℕ) → 0 < x → (weekday (moved x) < 5) × Moved x (moved x)
moved_lem x h = elim (Bool-cases (weekday x == 5)) [
  | inl e ↦ rw e (ground arith, inr (inl (ground arith, ground arith)))
  | inr e ↦ elim (Bool-cases (weekday x == 6)) [
    | inl f ↦ rw (e, f) (ground arith, inr (inr (ground arith, refl)))
    | inr f ↦ rw (e, f) (ground arith, inl (ground arith, refl))
  ]
]

-- A holiday with a date is kept on a weekday: on its date where that is one, on the Friday before a
-- Saturday, and on the Monday after a Sunday.
pub observed_fixed_holiday-weekday :
    (y m d : ℕ)
    → 0 < date y m d
    → (weekday (observed_fixed_holiday y m d) < 5)
      × Moved (date y m d) (observed_fixed_holiday y m d)
unfolding observed_fixed_holiday
observed_fixed_holiday-weekday y m d h = moved_lem (date y m d) h

pub year_size :
    (y : ℕ)
    → 0 < y
    → days_before_year (y + 1) ≡ days_before_year y + (365 + (if is_leap y then 1 else 0))
year_size y h = ground arith

pub year_size-le : (y : ℕ) → 0 < y → days_before_year y + 365 ≤ days_before_year (y + 1)
year_size-le y h = omega arith

-- The number of a date, up to the leap day.
pub date-bounds :
    (y m d : ℕ)
    → (days_before_year y + (days_before m + d) ≤ date y m d)
      × (date y m d ≤ days_before_year y + (days_before m + d) + 1)
unfolding date
date-bounds y m d = (ground arith, ground arith)

-- What the computus says of its numbers.
pub record Computus (y n h l m : ℕ) : Type 0 where
  pub number : n ≡ h + l - 7 * m + 114
  pub h_lt : h < 30
  pub l_eq : l ≡ (32 + 2 * (y / 100 % 4) + 2 * (y % 100 / 4) - h - y % 100 % 4) % 7
  pub m_low : 451 * m ≤ y % 19 + 11 * h + 22 * l

pub easter_number-Computus :
    (y : ℕ) → (h : ℕ) × (l : ℕ) × (m : ℕ) × Computus y (easter_number y) h l m
unfolding easter_number
easter_number-Computus y =
    let h : ℕ =
      (19 * (y % 19) + y / 100 - y / 100 / 4 - (y / 100 - (y / 100 + 8) / 25 + 1) / 3 + 15) % 30 in
    let l : ℕ = (32 + 2 * (y / 100 % 4) + 2 * (y % 100 / 4) - h - y % 100 % 4) % 7 in
    (
      h,
      l,
      (y % 19 + 11 * h + 22 * l) / 451,
      record { number = refl; h_lt = omega arith; l_eq = refl; m_low = omega arith },
    )

-- Easter falls between the middle of March and the end of April.
pub Computus-bounds :
    (y n h l m : ℕ) → Computus y n h l m → (107 ≤ n) × (n ≤ 149) × (7 * m ≤ h + l) × (m ≤ 1)
Computus-bounds y n h l m c =
    let e : l < 7 = omega arith in
    let f : m ≤ 1 = omega (arith, e) in
    (omega (arith, e, f), omega (arith, e, f), omega (arith, e, f), f)

easter_day :
    (b n k : ℕ) (leap : Bool)
    → n ≡ 31 * k + n % 31
    → k ≡ 3 ⊎ k ≡ 4
    → b + (days_before k + (if ltb 2 k && leap then 1 else 0)) + (n % 31 + 1)
      ≡ b + (if leap then 1 else 0) + n - 33
easter_day b n k true e (inl p) = rw p (omega (arith, e, p))
easter_day b n k false e (inl p) = rw p (omega (arith, e, p))
easter_day b n k true e (inr p) = rw p (omega (arith, e, p))
easter_day b n k false e (inr p) = rw p (omega (arith, e, p))

date-easter :
    (y n : ℕ)
    → 107 ≤ n
    → n ≤ 149
    → date y (n / 31) (n % 31 + 1) ≡ days_before_year y + (if is_leap y then 1 else 0) + n - 33
unfolding date
date-easter y n h k =
    easter_day (days_before_year y) n (n / 31) (is_leap y) (omega arith) (march_or_april n h k)
  where
    march_or_april : (n : ℕ) → 107 ≤ n → n ≤ 149 → (n / 31 ≡ 3) ⊎ (n / 31 ≡ 4)
    march_or_april n h k = elim (Bool-cases (ltb n 124)) [
      | inl e ↦ inl (let f = ltb→lt n 124 e in omega (arith, f))
      | inr e ↦ inr (ground arith)
    ]

pub good_friday_day :
    (y : ℕ) → 0 < y → good_friday y ≡ days_before_year (y + 1) + easter_number y - 400
unfolding good_friday
good_friday_day y h = go (easter_number-Computus y)
  where
    combine :
        (d d' x n : ℕ) {z : ℕ}
        → z ≡ d + x + n - 33
        → 107 ≤ n
        → d' ≡ d + (365 + x)
        → z - 2 ≡ d' + n - 400
    combine d d' x n e k f = omega arith

    go :
        ((g : ℕ) × (l : ℕ) × (m : ℕ) × Computus y (easter_number y) g l m)
        → date y (easter_number y / 31) (easter_number y % 31 + 1) - 2
          ≡ days_before_year (y + 1) + easter_number y - 400
    go (g, l, m, c) =
        let b = Computus-bounds y (easter_number y) g l m c in
        let e = date-easter y (easter_number y) b.0 b.1 in
        combine (days_before_year y) (days_before_year (y + 1)) (if is_leap y then 1 else 0)
          (easter_number y) e b.0 (year_size y h)

friday :
    (d e i k h l m n : ℕ)
    → e ≤ 3
    → h < 30
    → k ≤ 3
    → l ≡ (32 + 2 * e + 2 * i - h - k) % 7
    → 7 * m ≤ h + l
    → n ≡ h + l - 7 * m + 114
    → 107 ≤ n
    → 0 < 400 * d + 100 * e + 4 * i + k
    → weekday (146097 * d + 36524 * e + 1461 * i + 365 * k + n - 400) ≡ 4
friday d e i k h l m n a b c f g j x y = omega arith

-- Good Friday is a Friday, in every year from 1.
pub good_friday-weekday : (y : ℕ) → 0 < y → weekday (good_friday y) ≡ 4
good_friday-weekday y h = rw (good_friday_day y h) (go (easter_number-Computus y))
  where
    split :
        (y : ℕ)
        → y + 1 ≡ suc (400 * (y / 100 / 4) + 100 * (y / 100 % 4) + 4 * (y % 100 / 4) + y % 100 % 4)
    split y = omega arith

    go :
        ((g : ℕ) × (l : ℕ) × (m : ℕ) × Computus y (easter_number y) g l m)
        → weekday (days_before_year (y + 1) + easter_number y - 400) ≡ 4
    go (g, l, m, c) =
        rw
          (ap days_before_year (split y)
            ∙ days_before_year-form (y / 100 / 4) (y / 100 % 4) (y % 100 / 4) (y % 100 % 4)
                (omega arith) (omega arith) (omega arith))
          (friday (y / 100 / 4) (y / 100 % 4) (y % 100 / 4) (y % 100 % 4) g l m (easter_number y)
            (omega arith) c.h_lt (omega arith) c.l_eq
            (Computus-bounds y (easter_number y) g l m c).2 c.number
            (Computus-bounds y (easter_number y) g l m c).0 (omega (arith, h)))
