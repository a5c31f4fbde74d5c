-- ===== src/Base/Found.antt =====
-- The rows that are found after an INSERT or an UPDATE.
use mathlib.Core.Path.{◌≡◌, refl}
use mathlib.Core.Logic.{inl, inr}
use mathlib.Core.Bool.{Bool, true, false}
use mathlib.Core.Option.{some}
use mathlib.Core.List.{List, [], ◌∷◌, ◌++◌, Memᴰ}
use native.Mathlib.Omega.{arith}
use alpha_agent.Base.Tests.{if◌then◌else◌, Bool-cases}
use alpha_agent.Base.Table.{first, exists, update}

module _ {ℓ} {A : Type ℓ} where
  -- A narrower test finds nothing either.
  pub exists-narrow :
      (p q : A → Bool) (xs : List A)
      → ((x : A) → p x ≡ true → q x ≡ true)
      → exists q xs ≡ false
      → exists p xs ≡ false
  exists-narrow p q [] h e = refl
  exists-narrow p q (x ∷ xs) h e = ground (arith, h x, exists-narrow p q xs h)

  -- What was found is found after an INSERT.
  pub first-append :
      (p : A → Bool) (xs ys : List A) {a : A} → first p xs ≡ some a → first p (xs ++ ys) ≡ some a
  first-append p [] ys h = absurd (ground arith)
  first-append p (x ∷ xs) ys h = elim (Bool-cases (p x)) [
    | inl e ↦ rw e (rw e at h)
    | inr e ↦ rw e (first-append p xs ys (rw e at h))
  ]

  -- An UPDATE leaves the rows that it does not select.
  pub mem-update_other :
      (p : A → Bool) (f : A → A) (xs : List A) {x : A}
      → Memᴰ x xs
      → p x ≡ false
      → Memᴰ x (update p f xs)
  mem-update_other p f [] m h = elim m [ ]
  mem-update_other p f (y ∷ ys) {x} (Memᴰ.head e) h = Memᴰ.head (kept (rw e at h))
    where
      kept : p y ≡ false → x ≡ (if p y then f y else y)
      kept k = rw k e
  mem-update_other p f (y ∷ ys) (Memᴰ.tail m) h = Memᴰ.tail (mem-update_other p f ys m h)

  -- The first row that an UPDATE selects stands in the table as it is changed.
  pub mem-update_first :
      (p : A → Bool) (f : A → A) (xs : List A) {a : A}
      → first p xs ≡ some a
      → Memᴰ (f a) (update p f xs)
  mem-update_first p f [] h = absurd (ground arith)
  mem-update_first p f (x ∷ xs) {a} h = elim (Bool-cases (p x)) [
    | inl e ↦ Memᴰ.head (rw e (changed (rw e at h)))
    | inr e ↦ Memᴰ.tail (mem-update_first p f xs (rw e at h))
  ]
    where
      changed : some x ≡ some a → f a ≡ f x
      changed q = cc
