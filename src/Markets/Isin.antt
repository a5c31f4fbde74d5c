-- ===== src/Markets/Isin.antt =====
-- The check digit of an ISIN.
use alpha_agent.Markets.Outcomes.{refuse_when_inv, done_inj}
use mathlib.Core.Logic.{◌≢◌}
use alpha_agent.Base.{
  ℕ, ◌+◌, ◌-◌, ◌%◌, ◌≤◌, ◌≡◌, refl, sym, ap, arith, inl, inr, Bool, Bool-cases, Option, none, some,
  List, [], ◌∷◌, ◌++◌, String, not, ◌==◌, ◌∙◌, strip, is_blank,
}
use mathlib.Core.Bool.{true, false}
use alpha_agent.Markets.Schema.{Python, done}
use alpha_agent.Markets.Checks.{
  checked_isin, check_digit, digit_total, weighed, body_digits, last_digit,
}

-- Whether the digit after `xs` is doubled, and the sum of the others.
doubled_after : Bool → List ℕ → Bool
doubled_after b [] = b
doubled_after b (x ∷ xs) = doubled_after (not b) xs

others : Bool → List ℕ → List ℕ → ℕ
others b [] ys = digit_total (not b) ys
others b (x ∷ xs) ys = weighed b x + others (not b) xs ys

total-split :
    (b : Bool) (xs ys : List ℕ) (d : ℕ)
    → digit_total b (xs ++ (d ∷ ys)) ≡ weighed (doubled_after b xs) d + others b xs ys
unfolding doubled_after others
total-split b [] ys d = refl
total-split b (x ∷ xs) ys d = omega (arith, total-split (not b) xs ys d)

weighed_inj :
    (b : Bool) (c d e : ℕ) → d ≤ 9 → e ≤ 9 → (weighed b d + c) % 10 ≡ (weighed b e + c) % 10 → d ≡ e
weighed_inj false c d e h k m = omega (arith, h, k, m)
weighed_inj true c d e h k m = ground (arith, h, k, m)

-- Digits that differ in one place have different check digits.
pub check_digit-inj :
    (xs ys : List ℕ) (d e : ℕ)
    → d ≤ 9
    → e ≤ 9
    → check_digit (xs ++ (d ∷ ys)) ≡ check_digit (xs ++ (e ∷ ys))
    → d ≡ e
unfolding check_digit
check_digit-inj xs ys d e h k m = weighed_inj (doubled_after true xs) (others true xs ys) d e h k (
    same_rest (digit_total true (xs ++ (d ∷ ys))) (digit_total true (xs ++ (e ∷ ys))) m
      (total-split true xs ys d) (total-split true xs ys e))
  where
    same_rest :
        (t u : ℕ) {v w : ℕ}
        → (10 - t % 10) % 10 ≡ (10 - u % 10) % 10
        → t ≡ v
        → u ≡ w
        → v % 10 ≡ w % 10
    same_rest t u m a b = omega (arith, m, a, b)

some_inj : {A : Type 0} {a b : A} → some a ≡ some b → a ≡ b
some_inj e = cc

isin_checked :
    (py : Python) (s a : String)
    → checked_isin py s ≡ done (some a)
    → check_digit (body_digits a []) ≡ last_digit a
unfolding checked_isin
isin_checked py s a e = elim (Bool-cases (is_blank (strip s))) [
  | inl b ↦ absurd (go (done_inj (rw b at e)))
  | inr b ↦
      let c = refuse_when_inv _ _ _ (rw b at e) in
      let d = refuse_when_inv _ _ _ c.1 in
      let f = some_inj (done_inj d.1) in rw (← f) (same _ _ d.0)
]
  where
    go : ◌≡◌ {A = Option String} none (some a) → ⊥
    go e = absurd cc

    same : (x y : ℕ) → not (x == y) ≡ false → x ≡ y
    same x y e = ground (arith, e)

-- Two ISINs that are accepted and differ in one digit of what stands before the check digit, with each
-- letter written as its two digits in base 36, have different check digits.
pub isin_one_digit :
    (py : Python) (s s' a a' : String) (xs ys : List ℕ) (d e : ℕ)
    → checked_isin py s ≡ done (some a)
    → checked_isin py s' ≡ done (some a')
    → body_digits a [] ≡ xs ++ (d ∷ ys)
    → body_digits a' [] ≡ xs ++ (e ∷ ys)
    → d ≤ 9
    → e ≤ 9
    → d ≢ e
    → last_digit a ≢ last_digit a'
isin_one_digit py s s' a a' xs ys d e p q m n h k other l = other (
    check_digit-inj xs ys d e h k (
      ap check_digit (sym m)
      ∙ isin_checked py s a p
      ∙ l
      ∙ sym (isin_checked py s' a' q)
      ∙ ap check_digit n))
