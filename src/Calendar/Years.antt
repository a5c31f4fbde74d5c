-- ===== src/Calendar/Years.antt =====
-- The years of the calendar: a day lies in exactly one.
use alpha_agent.Calendar.Dates.{days_before_year, year_of}
use alpha_agent.Base.{
  ltb→lt, ltb, ◌≢◌, ◌||◌, sym, if◌then◌else◌, subst, ◌==◌, ℕ, zero, suc, ◌+◌, ◌-◌, ◌*◌, ◌/◌, ◌%◌,
  ◌≤◌, ◌<◌, ◌≡◌, arith, inl, inr, true, false, Bool-cases,
}

abbrev pub InYear : ℕ → ℕ → Type 0
InYear y n = (days_before_year y < n) × (n ≤ days_before_year (y + 1))

pub days_before_year-form :
    (a b c e : ℕ)
    → b ≤ 3
    → c ≤ 24
    → e ≤ 3
    → days_before_year (suc (400 * a + 100 * b + 4 * c + e))
      ≡ 146097 * a + 36524 * b + 1461 * c + 365 * e
days_before_year-form a b c e h k l = omega arith

pub days_before_year-le : (y : ℕ) → days_before_year y ≤ days_before_year (suc y)
days_before_year-le y = omega arith

year_length :
    (a b c e : ℕ)
    → b ≤ 3
    → c ≤ 24
    → e ≤ 3
    → 146097 * a + 36524 * b + 1461 * c + 365 * e + 365
      ≤ days_before_year (suc (400 * a + 100 * b + 4 * c + e) + 1)
year_length a b c e h k l = omega arith

leap_length_century :
    (a c : ℕ)
    → c ≤ 24
    → 146097 * a + 36524 * 3 + 1461 * c + 365 * 3 + 366
      ≤ days_before_year (suc (400 * a + 100 * 3 + 4 * c + 3) + 1)
leap_length_century a c k = omega arith

leap_length :
    (a b c : ℕ)
    → b ≤ 3
    → c ≤ 23
    → 146097 * a + 36524 * b + 1461 * c + 365 * 3 + 366
      ≤ days_before_year (suc (400 * a + 100 * b + 4 * c + 3) + 1)
leap_length a b c h k = omega arith

-- A day by its place in the cycles of 400, 100, 4 years and one year.
record Place (n a b c e x : ℕ) : Type 0 where
  is_day : n ≡ suc (146097 * a + 36524 * b + 1461 * c + 365 * e + x)
  is_century : b ≤ 3
  is_cycle : c ≤ 24
  is_year : e ≤ 3

InYear-ordinary :
    (n a b c e x : ℕ) → Place n a b c e x → x < 365 → InYear (suc (400 * a + 100 * b + 4 * c + e)) n
InYear-ordinary n a b c e x p h =
    let f = days_before_year-form a b c e p.is_century p.is_cycle p.is_year in
    let g = year_length a b c e p.is_century p.is_cycle p.is_year in
    (omega (arith, f, p.is_day), omega (arith, g, p.is_day, h))

-- The last day of a leap year.
InYear-last :
    (n a b c : ℕ)
    → b ≤ 3
    → c ≤ 24
    → n ≡ suc (146097 * a + 36524 * b + 1461 * c + 365 * 3 + 365)
    → 146097 * a + 36524 * b + 1461 * c + 365 * 3 + 366
      ≤ days_before_year (suc (400 * a + 100 * b + 4 * c + 3) + 1)
    → InYear (suc (400 * a + 100 * b + 4 * c + 3)) n
InYear-last n a b c h k p g =
    let f = days_before_year-form a b c 3 h k (omega arith) in
    (omega (arith, f, p), omega (arith, g, p))

-- The quotients and the remainders of the cycles.
record Cycles (m a r b s c t e x : ℕ) : Type 0 where
  first_eq : m ≡ 146097 * a + r
  first_lt : r < 146097
  second_eq : r ≡ 36524 * b + s
  second_lt : s < 36524
  third_eq : s ≡ 1461 * c + t
  third_lt : t < 1461
  fourth_eq : t ≡ 365 * e + x
  fourth_lt : x < 365

abbrev year_at : (a b c e : ℕ) → ℕ
year_at a b c e =
    let years : ℕ = a * 400 + b * 100 + c * 4 + e in if e == 4 || b == 4 then years else years + 1

at_year : {y z n : ℕ} → y ≡ z → InYear z n → InYear y n
at_year {n = n} e h = subst (λ (w : ℕ). InYear w n) (sym e) h

eq4 : (e : ℕ) → (e == 4) ≡ true → e ≡ 4
eq4 e p = ground arith

ne4 : (e : ℕ) → (e == 4) ≡ false → e ≢ 4
ne4 e p = ground arith

year_at-one : (a b c e : ℕ) → e ≡ 4 → year_at a b c e ≡ suc (400 * a + 100 * b + 4 * c + 3)
year_at-one a b c e p = rw p (omega arith)

year_at-century :
    (a b c e : ℕ) → b ≡ 4 → c ≡ 0 → e ≡ 0 → year_at a b c e ≡ suc (400 * a + 100 * 3 + 4 * 24 + 3)
year_at-century a b c e p q r = rw (p, q, r) (omega arith)

year_at-other :
    (a b c e : ℕ)
    → (e == 4) ≡ false
    → (b == 4) ≡ false
    → year_at a b c e ≡ suc (400 * a + 100 * b + 4 * c + e)
year_at-other a b c e p q = rw (p, q) (omega arith)

Cycles-InYear :
    (m a r b s c t e x : ℕ) → Cycles m a r b s c t e x → InYear (year_at a b c e) (suc m)
Cycles-InYear m a r b s c t e x k = elim (Bool-cases (e == 4)) [
  | inl p ↦
      let f = eq4 e p in
      let b3 : b ≤ 3 = omega (arith, f) in
      let c23 : c ≤ 23 = omega (arith, f) in
      at_year (year_at-one a b c e f) (
        InYear-last (suc m) a b c b3 (omega (arith, c23)) (omega (arith, f))
          (leap_length a b c b3 c23))
  | inr p ↦ elim (Bool-cases (b == 4)) [
    | inl q ↦
        let f = eq4 b q in
        at_year (year_at-century a b c e f (omega (arith, f)) (omega (arith, f))) (
          InYear-last (suc m) a 3 24 (omega arith) (omega arith) (omega (arith, f))
            (leap_length_century a 24 (omega arith)))
    | inr q ↦ at_year (year_at-other a b c e p q) (
        InYear-ordinary (suc m) a b c e x
          (record {
            is_day = omega arith;
            is_century = omega (arith, ne4 b q);
            is_cycle = omega arith;
            is_year = omega (arith, ne4 e p);
          })
          k.fourth_lt)
  ]
]

cycles :
    (m : ℕ)
    → Cycles m
        (m / 146097)
        (m % 146097)
        (m % 146097 / 36524)
        (m % 146097 % 36524)
        (m % 146097 % 36524 / 1461)
        (m % 146097 % 36524 % 1461)
        (m % 146097 % 36524 % 1461 / 365)
        (m % 146097 % 36524 % 1461 % 365)
cycles m = record {
  first_eq = omega arith;
  first_lt = omega arith;
  second_eq = omega arith;
  second_lt = omega arith;
  third_eq = omega arith;
  third_lt = omega arith;
  fourth_eq = omega arith;
  fourth_lt = omega arith;
}

pub year_of-InYear : (n : ℕ) → 0 < n → InYear (year_of n) n
unfolding year_of
year_of-InYear n h =
    subst (λ (w : ℕ). InYear (year_of n) w) (omega (arith, h))
      (Cycles-InYear (n - 1) ((n - 1) / 146097) ((n - 1) % 146097) ((n - 1) % 146097 / 36524)
        ((n - 1) % 146097 % 36524) ((n - 1) % 146097 % 36524 / 1461)
        ((n - 1) % 146097 % 36524 % 1461) ((n - 1) % 146097 % 36524 % 1461 / 365)
        ((n - 1) % 146097 % 36524 % 1461 % 365) (cycles (n - 1)))

pub days_before_year_mono : (y n : ℕ) → days_before_year y ≤ days_before_year (y + n)
days_before_year_mono y zero = omega arith
days_before_year_mono y (suc n) =
    omega (arith, days_before_year_mono y n, days_before_year-le (y + n))

-- Later days lie in no earlier year.
pub InYear-le : (y z a b : ℕ) → InYear y a → InYear z b → a ≤ b → y ≤ z
InYear-le y z a b h k l = elim (Bool-cases (ltb z y)) [
  | inl q ↦
      let f = days_before_year_mono (z + 1) (y - (z + 1)) in
      absurd (go (omega (arith, ltb→lt z y q)) f)
  | inr q ↦ ground (arith, q)
]
  where
    go :
        (z + 1) + (y - (z + 1)) ≡ y
        → days_before_year (z + 1) ≤ days_before_year ((z + 1) + (y - (z + 1)))
        → ⊥
    go e f = let g = rw e at f in omega (arith, g, h, k, l)
