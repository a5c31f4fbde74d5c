-- ===== src/Base/Tally.antt =====
-- How many rows a test selects.
use Prim.Native.Nat.{ℕ, ◌+◌, ◌≤◌}
use mathlib.Core.Path.{◌≡◌, refl}
use mathlib.Core.Bool.{Bool, true, false, not}
use mathlib.Core.List.{List, [], ◌∷◌, ◌++◌, map}
use native.Mathlib.Omega.{arith}
use alpha_agent.Base.Lists.{length}
use alpha_agent.Base.Table.{select}

module _ {ℓ} {A : Type ℓ} where
  abbrev pub tally : (A → Bool) → List A → ℕ
  tally p xs = length (select p xs)

  pub tally-append : (p : A → Bool) (xs ys : List A) → tally p (xs ++ ys) ≡ tally p xs + tally p ys
  tally-append p [] ys = omega arith
  tally-append p (x ∷ xs) ys = ground (arith, tally-append p xs ys)

  pub tally-not : (p : A → Bool) (xs : List A) → tally p xs + tally (λ x. not (p x)) xs ≡ length xs
  tally-not p [] = omega arith
  tally-not p (x ∷ xs) = ground (arith, tally-not p xs)

  -- Two tests that no row passes together select no more rows than there are.
  pub tally-apart :
      (p q : A → Bool) (xs : List A)
      → ((x : A) → p x ≡ true → q x ≡ false)
      → tally p xs + tally q xs ≤ length xs
  tally-apart p q [] h = omega arith
  tally-apart p q (x ∷ xs) h = ground (arith, h x, tally-apart p q xs h)

module _ {ℓ κ} {A : Type ℓ} {B : Type κ} where
  pub length-map : (f : A → B) (xs : List A) → length (map f xs) ≡ length xs
  length-map f [] = refl
  length-map f (x ∷ xs) = omega (arith, length-map f xs)
