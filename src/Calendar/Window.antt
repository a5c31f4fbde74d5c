-- ===== src/Calendar/Window.antt =====
-- The sessions of a range, described apart from the range.
use alpha_agent.Calendar.InYear.{scheduled-InYear}
use alpha_agent.Base.{
  leb→le, subst, ℕ, zero, suc, ◌+◌, ◌-◌, ◌≤◌, ◌<◌, ◌≡◌, refl, sym, ap, ◌∙◌, arith, inl, inr, Bool,
  Bool-cases, if◌then◌else◌, All, leb, ltb, ◌==◌, not, ◌&&◌, ◌||◌, List, [], ◌∷◌, ◌++◌,
  exists-append,
}
use mathlib.Core.Bool.{true, false}
use alpha_agent.Calendar.Dates.{weekday, year_of}
use alpha_agent.Calendar.Sessions.{
  us_equity_sessions, is_in, holidays_of, sessions_from, scheduled_holidays, exceptional_closures,
}
use alpha_agent.Calendar.Years.{InYear-le, year_of-InYear, InYear}

-- A weekday that is neither a holiday scheduled for its year nor an exceptional closure.
unfoldable pub is_session : ℕ → Bool
is_session d =
    ltb (weekday d) 5
    && not (is_in d (scheduled_holidays (year_of d)) || is_in d exceptional_closures)

found : (P : ℕ → Type 0) (d : ℕ) (l : List ℕ) → All P l → is_in d l ≡ true → P d
found P d [] h e = absurd cc
found P d (x ∷ xs) h e = elim (Bool-cases (x == d)) [
  | inl k ↦ subst P (ground (arith, k)) h.0
  | inr k ↦ found P d xs h.1 (rw k at e)
]

-- A day is no scheduled holiday of another year than its own.
other_year :
    (y d : ℕ) → 0 < y → 0 < d → (y ≡ year_of d → ⊥) → is_in d (scheduled_holidays y) ≡ false
other_year y d h k other = elim (Bool-cases (is_in d (scheduled_holidays y))) [
  | inr e ↦ e
  | inl e ↦
      let a = found (InYear y) d (scheduled_holidays y) (scheduled-InYear y h) e in
      let b = year_of-InYear d k in
      let c = InYear-le y (year_of d) d d a b (omega arith) in
      let f = InYear-le (year_of d) y d d b a (omega arith) in absurd (other (omega (arith, c, f)))
]

-- The holidays of years after that of a day do not have it.
holidays_after :
    (d start n : ℕ)
    → 0 < d
    → year_of d < start
    → is_in d (holidays_of start n) ≡ is_in d exceptional_closures
unfolding holidays_of
holidays_after d start zero h a = refl
holidays_after d start (suc n) h a =
    exists-append (λ x. x == d) (scheduled_holidays start) (holidays_of (start + 1) n)
    ∙ (rw (other_year start d (omega (arith, a)) h (λ e. omega (arith, a, e)))
        (holidays_after d (start + 1) n h (omega (arith, a))))

-- The set of the holidays has a day exactly when its own year schedules it or it is exceptional.
holidays_lem :
    (d start n : ℕ)
    → 0 < d
    → 0 < start
    → start ≤ year_of d
    → year_of d < start + n
    → is_in d (holidays_of start n)
      ≡ (is_in d (scheduled_holidays (year_of d)) || is_in d exceptional_closures)
unfolding holidays_of
holidays_lem d start zero h k a b = absurd (omega (arith, a, b))
holidays_lem d start (suc n) h k a b =
    exists-append (λ x. x == d) (scheduled_holidays start) (holidays_of (start + 1) n)
    ∙ (elim (Bool-cases (start == year_of d)) [
      | inl e ↦
          ap (λ (b : Bool). is_in d (scheduled_holidays start) || b)
            (holidays_after d (start + 1) n h (ground (arith, e)))
          ∙ ap (λ (y : ℕ). is_in d (scheduled_holidays y) || is_in d exceptional_closures)
              (ground (arith, e))
      | inr e ↦
          rw (other_year start d k h (λ f. absurd (ground (arith, e, f))))
            (holidays_lem d (start + 1) n h (omega arith) (ground (arith, e, a)) (omega (arith, b)))
    ])

-- The days of a range of which `p` holds, in order.
abbrev pub days_where : (ℕ → Bool) → (start n : ℕ) → List ℕ
days_where p start zero = []
days_where p start (suc n) =
    if p start then start ∷ days_where p (start + 1) n else days_where p (start + 1) n

sessions_lem :
    (hs : List ℕ) (start n : ℕ)
    → ((d : ℕ)
        → start ≤ d
        → d < start + n
        → is_in d hs ≡ (is_in d (scheduled_holidays (year_of d)) || is_in d exceptional_closures))
    → sessions_from hs start n ≡ days_where is_session start n
unfolding sessions_from is_session
sessions_lem hs start zero same = refl
sessions_lem hs start (suc n) same =
    rw
      (
        same start (omega arith) (omega arith),
        sessions_lem hs (start + 1) n (λ d h k. same d (omega (arith, h)) (omega (arith, k))),
      )
      refl

year_of-positive : (n : ℕ) → 0 < n → 0 < year_of n
year_of-positive n h = let b = year_of-InYear n h in omega (arith, b, h)

-- The years of the days of a range lie between those of its ends.
range_holidays :
    (start end d : ℕ)
    → 0 < start
    → start ≤ d
    → d < end
    → is_in d (holidays_of (year_of start) (year_of end + 1 - year_of start))
      ≡ (is_in d (scheduled_holidays (year_of d)) || is_in d exceptional_closures)
range_holidays start end d h a b =
    let s = year_of-InYear start h in
    let m = year_of-InYear d (omega (arith, h, a)) in
    let e = year_of-InYear end (omega (arith, b)) in
    let x = InYear-le (year_of start) (year_of d) start d s m a in
    let y = InYear-le (year_of d) (year_of end) d end m e (omega (arith, b)) in
    holidays_lem d (year_of start) (year_of end + 1 - year_of start) (omega (arith, h, a))
      (year_of-positive start h) x (omega (arith, x, y))

-- The sessions of a range that starts after day 0 are its days that are sessions, in order: the weekdays
-- that are no holiday scheduled for their own year and no exceptional closure.
pub sessions_window :
    (start end : ℕ)
    → 0 < start
    → us_equity_sessions start end ≡ days_where is_session start (end - start)
unfolding us_equity_sessions
sessions_window start end h = elim (Bool-cases (leb end start)) [
  | inl e ↦ rw e (sym (ap (days_where is_session start) (none_left (leb→le end start e))))
  | inr e ↦ rw e (
      sessions_lem (holidays_of (year_of start) (year_of end + 1 - year_of start)) start
        (end - start) (λ d a b. range_holidays start end d h a (omega (arith, a, b))))
]
  where
    none_left : end ≤ start → end - start ≡ 0
    none_left k = omega (arith, k)

days_where-append :
    (p : ℕ → Bool) (start m n : ℕ)
    → days_where p start (m + n) ≡ days_where p start m ++ days_where p (start + m) n
days_where-append p start zero n =
    ap (λ (k : ℕ). days_where p start k) (omega arith)
    ∙ ap (λ (k : ℕ). days_where p k n) (omega arith)
days_where-append p start (suc m) n =
    ap (λ (k : ℕ). days_where p start k) {y = suc (m + n)} (omega arith)
    ∙ step (
        days_where-append p (start + 1) m n
        ∙ ap (λ (k : ℕ). days_where p (start + 1) m ++ days_where p k n) (omega arith))
  where
    step :
        days_where p (start + 1) (m + n)
          ≡ days_where p (start + 1) m ++ days_where p (start + suc m) n
        → days_where p start (suc (m + n))
          ≡ days_where p start (suc m) ++ days_where p (start + suc m) n
    step ih = elim (Bool-cases (p start)) [
      | inl e ↦ rw e (ap (λ (l : List ℕ). start ∷ l) ih)
      | inr e ↦ rw e ih
    ]

-- The sessions of two adjacent ranges, one after the other, are those of the range of both.
pub sessions_adjacent :
    (start middle end : ℕ)
    → 0 < start
    → start ≤ middle
    → middle ≤ end
    → us_equity_sessions start end
      ≡ us_equity_sessions start middle ++ us_equity_sessions middle end
sessions_adjacent start middle end h k l =
    rw
      (
        sessions_window start end h,
        sessions_window start middle h,
        sessions_window middle end (omega (arith, h, k)),
      )
      (ap (days_where is_session start) (omega (arith, k, l))
        ∙ days_where-append is_session start (middle - start) (end - middle)
        ∙ ap
            (λ (m : ℕ).
              days_where is_session start (middle - start)
              ++ days_where is_session m (end - middle))
            (omega (arith, k)))
