-- ===== src/Base/Sort.antt =====
-- ORDER BY and LIMIT: what a sorted and cut list holds.
use mathlib.Core.Path.{◌≡◌, refl, ap}
use mathlib.Core.Logic.{◌⊎◌, inl, inr}
use mathlib.Core.Bool.{Bool, true, false, ◌||◌}
use mathlib.Core.List.{List, [], ◌∷◌, Memᴰ}
use native.Mathlib.Omega.{arith}
use Prim.Native.Nat.{ℕ, zero, suc}
use alpha_agent.Base.Tests.{if◌then◌else◌, Bool-cases}
use alpha_agent.Base.Lists.{All-take, All, length, take}
use alpha_agent.Base.Table.{
  All-zip, select, exists, insert_by, sort_by, update, All-map, All-insert_by,
}

module _ {ℓ} {A : Type ℓ} where
  pub exists-insert_by :
      (p : A → Bool) (before : A → A → Bool) (x : A) (xs : List A)
      → exists p (insert_by before x xs) ≡ (p x || exists p xs)
  exists-insert_by p before x [] = refl
  exists-insert_by p before x (y ∷ ys) = ground (arith, exists-insert_by p before x ys)

  pub exists-sort_by :
      (p : A → Bool) (before : A → A → Bool) (xs : List A)
      → exists p (sort_by before xs) ≡ exists p xs
  exists-sort_by p before [] = refl
  exists-sort_by p before (x ∷ xs) =
      rw (exists-insert_by p before x (sort_by before xs), exists-sort_by p before xs)

  exists-weaken :
      (p : A → Bool) (b : Bool) (x : A) (xs : List A)
      → exists p xs ≡ true
      → exists p (if b then x ∷ xs else xs) ≡ true
  exists-weaken p b x xs h = elim (Bool-cases b) [
    | inl e ↦ rw e (elim (Bool-cases (p x)) [ inl k ↦ rw k refl | inr k ↦ rw k h ])
    | inr e ↦ rw e h
  ]

  -- A selected row is found among the selected ones.
  pub select-exists :
      (q : A → Bool) (same : A → A → Bool)
      → ((x : A) → same x x ≡ true)
      → (xs : List A) → All (λ x. q x ≡ true → exists (same x) (select q xs) ≡ true) xs
  select-exists q same r [] = tt
  select-exists q same r (x ∷ xs) = (
    here (Bool-cases (q x)),
    All-map xs (λ y h t. exists-weaken (same y) (q x) x (select q xs) (h t))
        (select-exists q same r xs),
  )
    where
      here : (q x ≡ true) ⊎ (q x ≡ false) → q x ≡ true → exists (same x) (select q (x ∷ xs)) ≡ true
      here (inl e) t = rw e (rw (r x) refl)
      here (inr e) t = absurd (ground (arith, e, t))

module _ {ℓ κ} {A : Type ℓ} where
  pub All-every : {P : A → Type κ} (xs : List A) → ((x : A) → P x) → All P xs
  All-every [] f = tt
  All-every (x ∷ xs) f = (f x, All-every xs f)

  pub All-update_both :
      {P Q : A → Type κ} (p : A → Bool) (f : A → A) (xs : List A)
      → ((x : A) → P x → p x ≡ true → Q (f x))
      → ((x : A) → P x → p x ≡ false → Q x)
      → All P xs
      → All Q (update p f xs)
  All-update_both p f [] on off h = tt
  All-update_both p f (x ∷ xs) on off h = elim (Bool-cases (p x)) [
    | inl e ↦ rw e (on x h.0 e, All-update_both p f xs on off h.1)
    | inr e ↦ rw e (off x h.0 e, All-update_both p f xs on off h.1)
  ]

  pub All-of_insert_by :
      (P : A → Type κ) (before : A → A → Bool) (x : A) (xs : List A)
      → All P (insert_by before x xs)
      → P x × All P xs
  All-of_insert_by P before x [] h = (h.0, tt)
  All-of_insert_by P before x (y ∷ ys) h = elim (Bool-cases (before x y)) [
    | inl e ↦ rw e at h
    | inr e ↦ let k = rw e at h in let r = All-of_insert_by P before x ys k.1 in (r.0, (k.0, r.1))
  ]

  pub All-of_sort_by :
      (P : A → Type κ) (before : A → A → Bool) (xs : List A) → All P (sort_by before xs) → All P xs
  All-of_sort_by P before [] h = tt
  All-of_sort_by P before (x ∷ xs) h =
      let r = All-of_insert_by P before x (sort_by before xs) h in
      (r.0, All-of_sort_by P before xs r.1)

  pub All-of_select :
      (P : A → Type κ) (q : A → Bool) (xs : List A)
      → All P (select q xs)
      → All (λ x. q x ≡ true → P x) xs
  All-of_select P q [] h = tt
  All-of_select P q (x ∷ xs) h = elim (Bool-cases (q x)) [
    | inl e ↦ let k = rw e at h in (λ _. k.0, All-of_select P q xs k.1)
    | inr e ↦ (λ t. absurd (ground arith), All-of_select P q xs (rw e at h))
  ]

module _ {ℓ} {A : Type ℓ} (R : A → A → Type 0) where
  -- Each row stands in the relation to all that follow it.
  abbrev pub IsOrdered : List A → Type ℓ
  IsOrdered [] = Unit
  IsOrdered (x ∷ xs) = All (R x) xs × IsOrdered xs

  pub take-IsOrdered : (n : ℕ) (xs : List A) → IsOrdered xs → IsOrdered (take n xs)
  take-IsOrdered zero xs h = tt
  take-IsOrdered (suc n) [] h = tt
  take-IsOrdered (suc n) (x ∷ xs) h = (All-take (R x) n xs h.0, take-IsOrdered n xs h.1)

  -- What a LIMIT leaves out comes after all that it keeps, and is left out only when it is full.
  pub take-leaves :
      (n : ℕ) (xs : List A)
      → IsOrdered xs
      → All (λ y. Memᴰ y (take n xs) ⊎ (All (λ x. R x y) (take n xs) × (length (take n xs) ≡ n))) xs
  take-leaves zero xs h = All-every xs (λ y. inr (tt, refl))
  take-leaves (suc n) [] h = tt
  take-leaves (suc n) (x ∷ xs) h =
      (inl (Memᴰ.head refl), All-map xs widen (All-zip _ _ xs h.0 (take-leaves n xs h.1)))
    where
      widen :
          (y : A)
          → R x y × (Memᴰ y (take n xs) ⊎ (All (λ z. R z y) (take n xs) × (length (take n xs) ≡ n)))
          → Memᴰ y (x ∷ take n xs)
            ⊎ ((R x y × All (λ z. R z y) (take n xs)) × (suc (length (take n xs)) ≡ suc n))
      widen y (r, inl m) = inl (Memᴰ.tail m)
      widen y (r, inr (a, e)) = inr ((r, a), ap suc e)

module _ {ℓ} {A : Type ℓ} (before : A → A → Bool)
    (before_trans : (x y z : A) → before x y ≡ true → before y z ≡ true → before x z ≡ true)
    (before_total : (x y : A) → before x y ≡ false → before y x ≡ true) where
  insert_by-IsOrdered :
      (x : A) (xs : List A)
      → IsOrdered (λ y z. before y z ≡ true) xs
      → IsOrdered (λ y z. before y z ≡ true) (insert_by before x xs)
  insert_by-IsOrdered x [] h = (tt, tt)
  insert_by-IsOrdered x (y ∷ ys) h = elim (Bool-cases (before x y)) [
    | inl e ↦ rw e ((e, All-map ys (λ z k. before_trans x y z e k) h.0), h)
    | inr e ↦ rw e (
      All-insert_by (λ z. before y z ≡ true) before x ys (before_total x y e) h.0,
      insert_by-IsOrdered x ys h.1,
    )
  ]

  pub sort_by-IsOrdered : (xs : List A) → IsOrdered (λ y z. before y z ≡ true) (sort_by before xs)
  sort_by-IsOrdered [] = tt
  sort_by-IsOrdered (x ∷ xs) = insert_by-IsOrdered x (sort_by before xs) (sort_by-IsOrdered xs)
