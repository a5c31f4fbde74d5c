-- ===== src/Base/Table.antt =====
-- SQL statements over a table held as its rows in rowid order: SELECT, the first row of a
-- SELECT, EXISTS, UPDATE ... WHERE, and ORDER BY as a stable sort.
use mathlib.Core.Path.{◌≡◌, refl}
use mathlib.Core.Logic.{inl, inr}
use mathlib.Core.Bool.{Bool, true, false, ◌||◌}
use mathlib.Core.Option.{Option, none, some}
use mathlib.Core.List.{List, [], ◌∷◌, ◌++◌}
use native.Mathlib.Omega.{arith}
use Prim.Native.Nat.{ℕ}
use alpha_agent.Base.Tests.{leb, if◌then◌else◌, Bool-cases}
use alpha_agent.Base.Lists.{All, Grows}

module _ {ℓ} {A : Type ℓ} where
  abbrev pub select : (A → Bool) → List A → List A
  select p [] = []
  select p (x ∷ xs) = if p x then x ∷ select p xs else select p xs

  abbrev pub first : (A → Bool) → List A → Option A
  first p [] = none
  first p (x ∷ xs) = if p x then some x else first p xs

  abbrev pub exists : (A → Bool) → List A → Bool
  exists p [] = false
  exists p (x ∷ xs) = p x || exists p xs

  abbrev pub update : (A → Bool) → (A → A) → List A → List A
  update p f [] = []
  update p f (x ∷ xs) = (if p x then f x else x) ∷ update p f xs

  -- A new row goes before the first one that it does not come after.
  abbrev pub insert_by : (A → A → Bool) → A → List A → List A
  insert_by before x [] = x ∷ []
  insert_by before x (y ∷ ys) = if before x y then x ∷ y ∷ ys else y ∷ insert_by before x ys

  -- Stable where `before` holds of equal keys.
  abbrev pub sort_by : (A → A → Bool) → List A → List A
  sort_by before [] = []
  sort_by before (x ∷ xs) = insert_by before x (sort_by before xs)

  -- ORDER BY a key DESC, rowid DESC LIMIT 1.
  abbrev pub latest : (A → ℕ) → List A → Option A
  latest key [] = none
  latest key (x ∷ xs) = elim (latest key xs) [
    | none ↦ some x
    | some y ↦ if leb (key x) (key y) then some y else some x
  ]

  pub first-holds : (p : A → Bool) (xs : List A) {a : A} → first p xs ≡ some a → p a ≡ true
  first-holds p [] h = ground arith
  first-holds p (x ∷ xs) h = elim (Bool-cases (p x)) [
    | inl e ↦ ground arith
    | inr e ↦ first-holds p xs (rw e at h)
  ]

  pub first-none : (p : A → Bool) (xs : List A) → exists p xs ≡ false → first p xs ≡ none
  first-none p [] h = refl
  first-none p (x ∷ xs) h = ground (arith, first-none p xs)

  pub first-append_new :
      (p : A → Bool) (xs : List A) (a : A)
      → exists p xs ≡ false
      → p a ≡ true
      → first p (xs ++ a ∷ []) ≡ some a
  first-append_new p [] a h e = rw e
  first-append_new p (x ∷ xs) a h e = ground (arith, first-append_new p xs a)

module _ {ℓ κ} {A : Type ℓ} where
  pub All-first :
      (P : A → Type κ) (p : A → Bool) (xs : List A) {a : A} → All P xs → first p xs ≡ some a → P a
  All-first P p [] h e = absurd (ground arith)
  All-first P p (x ∷ xs) {a} h e = elim (Bool-cases (p x)) [
    | inl t ↦ rw (← some_inj (rw t at e)) h.0
    | inr t ↦ All-first P p xs h.1 (rw t at e)
  ]
    where
      some_inj : some x ≡ some a → x ≡ a
      some_inj q = cc

  pub All-select : (P : A → Type κ) (p : A → Bool) (xs : List A) → All P xs → All P (select p xs)
  All-select P p [] h = tt
  All-select P p (x ∷ xs) h = elim (Bool-cases (p x)) [
    | inl e ↦ rw e (h.0, All-select P p xs h.1)
    | inr e ↦ rw e (All-select P p xs h.1)
  ]

  pub All-insert_by :
      (P : A → Type κ) (before : A → A → Bool) (a : A) (xs : List A)
      → P a
      → All P xs
      → All P (insert_by before a xs)
  All-insert_by P before a [] pa h = (pa, tt)
  All-insert_by P before a (x ∷ xs) pa h = elim (Bool-cases (before a x)) [
    | inl e ↦ rw e (pa, h)
    | inr e ↦ rw e (h.0, All-insert_by P before a xs pa h.1)
  ]

  pub All-sort_by :
      (P : A → Type κ) (before : A → A → Bool) (xs : List A) → All P xs → All P (sort_by before xs)
  All-sort_by P before [] h = tt
  All-sort_by P before (x ∷ xs) h =
      All-insert_by P before x (sort_by before xs) h.0 (All-sort_by P before xs h.1)

  -- An UPDATE keeps what its assignment keeps.
  pub All-update :
      (P : A → Type κ) (p : A → Bool) (f : A → A) (xs : List A)
      → ((x : A) → P x → p x ≡ true → P (f x))
      → All P xs
      → All P (update p f xs)
  All-update P p f [] keep h = tt
  All-update P p f (x ∷ xs) keep h = elim (Bool-cases (p x)) [
    | inl e ↦ rw e (keep x h.0 e, All-update P p f xs keep h.1)
    | inr e ↦ rw e (h.0, All-update P p f xs keep h.1)
  ]

  pub Grows-refl : (R : A → A → Type κ) → ((x : A) → R x x) → (xs : List A) → Grows R xs xs
  Grows-refl R same [] = tt
  Grows-refl R same (x ∷ xs) = (same x, Grows-refl R same xs)

  pub Grows-trans :
      (R : A → A → Type κ)
      → ((x y z : A) → R x y → R y z → R x z)
      → (xs ys zs : List A) → Grows R xs ys
      → Grows R ys zs
      → Grows R xs zs
  Grows-trans R t [] ys zs h k = tt
  Grows-trans R t (x ∷ xs) [] zs h k = absurd (h tt)
  Grows-trans R t (x ∷ xs) (y ∷ ys) [] h k = absurd (k tt)
  Grows-trans R t (x ∷ xs) (y ∷ ys) (z ∷ zs) h k =
      (t x y z h.0 k.0, Grows-trans R t xs ys zs h.1 k.1)

  pub Grows-update :
      (R : A → A → Type κ) (p : A → Bool) (f : A → A)
      → ((x : A) → R x x)
      → ((x : A) → p x ≡ true → R x (f x))
      → (xs : List A) → Grows R xs (update p f xs)
  Grows-update R p f same keep [] = tt
  Grows-update R p f same keep (x ∷ xs) = elim (Bool-cases (p x)) [
    | inl e ↦ rw e (keep x e, Grows-update R p f same keep xs)
    | inr e ↦ rw e (same x, Grows-update R p f same keep xs)
  ]

  pub Grows-append :
      (R : A → A → Type κ) → ((x : A) → R x x) → (xs ys : List A) → Grows R xs (xs ++ ys)
  Grows-append R same [] ys = tt
  Grows-append R same (x ∷ xs) ys = (same x, Grows-append R same xs ys)

  pub All-map : {P Q : A → Type κ} (xs : List A) → ((x : A) → P x → Q x) → All P xs → All Q xs
  All-map [] f h = tt
  All-map (x ∷ xs) f h = (f x h.0, All-map xs f h.1)

module _ {ℓ} {A : Type ℓ} where
  pub none-exists : (p : A → Bool) (xs : List A) → exists p xs ≡ false → All (λ x. p x ≡ false) xs
  none-exists p [] h = tt
  none-exists p (x ∷ xs) h = (ground arith, none-exists p xs (ground arith))

  pub exists-none : (p : A → Bool) (xs : List A) → All (λ x. p x ≡ false) xs → exists p xs ≡ false
  exists-none p [] h = refl
  exists-none p (x ∷ xs) h = rw (h.0, exists-none p xs h.1) refl

  -- A test that the assignment does not change finds the same rows after an UPDATE.
  pub exists-update :
      (p q : A → Bool) (f : A → A) (xs : List A)
      → ((x : A) → p (f x) ≡ p x)
      → exists p (update q f xs) ≡ exists p xs
  exists-update p q f [] h = refl
  exists-update p q f (x ∷ xs) h = elim (Bool-cases (q x)) [
    | inl e ↦ rw (e, h x, exists-update p q f xs h)
    | inr e ↦ rw (e, exists-update p q f xs h)
  ]

  pub exists-append :
      (p : A → Bool) (xs ys : List A) → exists p (xs ++ ys) ≡ (exists p xs || exists p ys)
  exists-append p [] ys = refl
  exists-append p (x ∷ xs) ys = ground (arith, exists-append p xs ys)

module _ {ℓ} {A : Type ℓ} where
  pub select-holds : (p : A → Bool) (xs : List A) → All (λ x. p x ≡ true) (select p xs)
  select-holds p [] = tt
  select-holds p (x ∷ xs) = elim (Bool-cases (p x)) [
    | inl e ↦ rw e (e, select-holds p xs)
    | inr e ↦ rw e (select-holds p xs)
  ]

module _ {ℓ κ κ'} {A : Type ℓ} where
  pub All-zip :
      (P : A → Type κ) (Q : A → Type κ') (xs : List A)
      → All P xs
      → All Q xs
      → All (λ x. P x × Q x) xs
  All-zip P Q [] h k = tt
  All-zip P Q (x ∷ xs) h k = ((h.0, k.0), All-zip P Q xs h.1 k.1)
