-- ===== src/Calendar/Latest.antt =====
-- `latest_completed_us_equity_session`: the last session that is ready.
use alpha_agent.Base.{
  leb→le, subst, ℕ, zero, suc, ◌+◌, ◌-◌, ◌≤◌, ◌<◌, ◌≡◌, sym, ap, ◌∙◌, arith, inl, inr, Bool,
  Bool-cases, All, leb, List, [], ◌∷◌, none, some, Option-cases, select, All-map,
}
use mathlib.Core.Bool.{true, false}
use alpha_agent.Calendar.Sessions.{
  Zone, latest_completed_us_equity_session, last_of, finalization_delay,
}
use alpha_agent.Calendar.Window.{is_session, days_where, sessions_window}

last_of-none : (q : ℕ → Bool) (l : List ℕ) → last_of (select q l) ≡ none → All (λ x. q x ≡ false) l
last_of-none q [] e = tt
last_of-none q (x ∷ xs) e = elim (Bool-cases (q x)) [
  | inr k ↦ (k, last_of-none q xs (rw k at e))
  | inl k ↦ absurd (elim (Option-cases (last_of (select q xs))) [
    | inl m ↦ (let c = rw (k, m) at e in cc)
    | inr (y, m) ↦ (let c = rw (k, m) at e in cc)
  ])
]

-- The last day of a range with both properties.
record IsLast (p q : ℕ → Bool) (start n s : ℕ) : Type 0 where
  day : p s ≡ true
  ready : q s ≡ true
  above : start ≤ s
  below : s < start + n
  unready : All (λ x. q x ≡ false) (days_where p (s + 1) (start + n - (s + 1)))

later-IsLast :
    (p q : ℕ → Bool) (start n s : ℕ) → IsLast p q (start + 1) n s → IsLast p q start (suc n) s
later-IsLast p q start n s h = record {
  day = h.day;
  ready = h.ready;
  above = omega (arith, h.above);
  below = omega (arith, h.below);
  unready =
      subst (λ (k : ℕ). All (λ x. q x ≡ false) (days_where p (s + 1) k)) (omega arith) h.unready;
}

here-IsLast :
    (p q : ℕ → Bool) (start n : ℕ)
    → p start ≡ true
    → q start ≡ true
    → All (λ x. q x ≡ false) (days_where p (start + 1) n)
    → IsLast p q start (suc n) start
here-IsLast p q start n d r u = record {
  day = d;
  ready = r;
  above = omega arith;
  below = omega arith;
  unready = subst (λ (k : ℕ). All (λ x. q x ≡ false) (days_where p (start + 1) k)) (omega arith) u;
}

some_inj : {a b : ℕ} → some a ≡ some b → a ≡ b
some_inj e = cc

last_of-IsLast :
    (p q : ℕ → Bool) (start n s : ℕ)
    → last_of (select q (days_where p start n)) ≡ some s
    → IsLast p q start n s
last_of-IsLast p q start zero s e = absurd cc
last_of-IsLast p q start (suc n) s e =
    let ih = last_of-IsLast p q (start + 1) n s in
    elim (Bool-cases (p start)) [
      | inr k ↦ later-IsLast p q start n s (ih (rw k at e))
      | inl k ↦ elim (Bool-cases (q start)) [
        | inr m ↦ later-IsLast p q start n s (ih (rw (k, m) at e))
        | inl m ↦ elim (Option-cases (last_of (select q (days_where p (start + 1) n)))) [
          | inr (y, o) ↦ later-IsLast p q start n s (ih (o ∙ (rw (k, m, o) at e)))
          | inl o ↦
              subst (λ (x : ℕ). IsLast p q start (suc n) x) (some_inj (rw (k, m, o) at e))
                (here-IsLast p q start n k m (last_of-none q (days_where p (start + 1) n) o))
        ]
      ]
    ]

-- Where the local date is after the fourteenth day of the calendar, the result is a session, not after
-- the local date, whose close was half an hour ago or more, and of no later session up to the local
-- date was the close half an hour ago.
pub latest_completed :
    (z : Zone) (now s : ℕ)
    → 14 < z.local_date now
    → latest_completed_us_equity_session z now ≡ some s
    → (is_session s ≡ true)
      × (z.close s + finalization_delay ≤ now)
      × (s ≤ z.local_date now)
      × All
          (λ d. now < z.close d + finalization_delay)
          (days_where is_session (s + 1) (z.local_date now - s))
unfolding latest_completed_us_equity_session
latest_completed z now s h e = go (
    last_of-IsLast is_session ready (z.local_date now - 14)
      (z.local_date now + 1 - (z.local_date now - 14)) s
      (sym (
          ap (λ (l : List ℕ). last_of (select ready l))
            (sessions_window (z.local_date now - 14) (z.local_date now + 1) (omega (arith, h))))
        ∙ e))
  where
    ready : ℕ → Bool
    ready d = leb (z.close d + finalization_delay) now

    unfinished : (d : ℕ) → ready d ≡ false → now < z.close d + finalization_delay
    unfinished d k = ground (arith, k)

    go :
        IsLast is_session ready
          (z.local_date now - 14)
          (z.local_date now + 1 - (z.local_date now - 14))
          s
        → (is_session s ≡ true)
          × (z.close s + finalization_delay ≤ now)
          × (s ≤ z.local_date now)
          × All
              (λ d. now < z.close d + finalization_delay)
              (days_where is_session (s + 1) (z.local_date now - s))
    go x = (
      x.day,
      leb→le (z.close s + finalization_delay) now x.ready,
      omega (arith, x.below, h),
      All-map (days_where is_session (s + 1) (z.local_date now - s)) unfinished (
          subst (λ (k : ℕ). All (λ d. ready d ≡ false) (days_where is_session (s + 1) k))
            (omega (arith, h)) x.unready),
    )
