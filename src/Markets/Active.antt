-- ===== src/Markets/Active.antt =====
-- `active_listing`: which listing it answers with.
use alpha_agent.Markets.Checks.{identifier, required_text}
use alpha_agent.Markets.Outcomes.{done_inj, identifier-result, required_text-result, outcome_inv}
use alpha_agent.Base.{
  leb→le, ℕ, ◌≤◌, ◌<◌, ◌≡◌, refl, arith, ◌⊎◌, inl, inr, Bool, Bool-cases, Option, none, some,
  Option-cases, List, [], ◌∷◌, String, str_eq, eq_iff, if◌then◌else◌, All, All-map, Memᴰ, leb, not,
  ◌&&◌, select, latest, strip, lower, subst,
}
use mathlib.Core.Bool.{true, false}
use alpha_agent.Markets.Schema.{Store, SecurityListing, done}
use alpha_agent.Markets.Registry.{
  active_listing, active_row, is_answer, known_moment, covers, ends_by,
}

-- A listing of the security at the venue that covers the day `t` and was known by `k`.
pub record Visible (i v : String) (t k : ℕ) (r : SecurityListing) : Type 0 where
  pub of_security : r.security_id ≡ i
  pub at_venue : r.venue_id ≡ v
  pub started : r.listed_start ≤ t
  pub not_ended : (r.listed_end ≡ none) ⊎ ((e : ℕ) × (r.listed_end ≡ some e) × (t < e))
  pub known : r.known_at ≤ k

and_inv : (a b : Bool) → (a && b) ≡ true → (a ≡ true) × (b ≡ true)
and_inv true b e = (refl, e)
and_inv false b e = absurd cc

open_end :
    (o : Option ℕ) (t : ℕ)
    → not (ends_by o t) ≡ true
    → (o ≡ none) ⊎ ((e : ℕ) × (o ≡ some e) × (t < e))
open_end none t h = inl refl
open_end (some e) t h = inr (e, refl, ground arith)

end_open :
    (o : Option ℕ) (t : ℕ)
    → ((o ≡ none) ⊎ ((e : ℕ) × (o ≡ some e) × (t < e)))
    → not (ends_by o t) ≡ true
end_open o t (inl e) = rw e refl
end_open o t (inr (e, p, h)) = rw p (ground arith)

pub is_answer-Visible :
    (i v : String) (t k : ℕ) (r : SecurityListing) → is_answer i v t k r ≡ true → Visible i v t k r
is_answer-Visible i v t k r h =
    let a =
      and_inv (str_eq r.security_id i && str_eq r.venue_id v && covers t r) (leb r.known_at k) h in
    let b = and_inv (str_eq r.security_id i && str_eq r.venue_id v) (covers t r) a.0 in
    let c = and_inv (str_eq r.security_id i) (str_eq r.venue_id v) b.0 in
    let d = and_inv (leb r.listed_start t) (not (ends_by r.listed_end t)) b.1 in
    record {
      of_security = (eq_iff r.security_id i).0 c.0;
      at_venue = (eq_iff r.venue_id v).0 c.1;
      started = leb→le r.listed_start t d.0;
      not_ended = open_end r.listed_end t d.1;
      known = leb→le r.known_at k a.1;
    }

pub Visible-is_answer :
    (i v : String) (t k : ℕ) (r : SecurityListing) → Visible i v t k r → is_answer i v t k r ≡ true
Visible-is_answer i v t k r h =
    rw
      (
        (eq_iff r.security_id i).1 h.of_security,
        (eq_iff r.venue_id v).1 h.at_venue,
        le→leb r.listed_start t h.started,
        end_open r.listed_end t h.not_ended,
        le→leb r.known_at k h.known,
      )
      refl
  where
    le→leb : (a b : ℕ) → a ≤ b → leb a b ≡ true
    le→leb a b h = ground arith

some_row : {A : Type 0} {a b : A} → some a ≡ some b → a ≡ b
some_row e = cc

latest-empty : {A : Type 0} (key : A → ℕ) (l : List A) → latest key l ≡ none → l ≡ []
latest-empty key [] e = refl
latest-empty key (x ∷ xs) e = elim (Option-cases (latest key xs)) [
  | inl n ↦ absurd (let c = rw n at e in cc)
  | inr (y, n) ↦ elim (Bool-cases (leb (key x) (key y))) [
    | inl m ↦ absurd (let c = rw (n, m) at e in cc)
    | inr m ↦ absurd (let c = rw (n, m) at e in cc)
  ]
]

-- The row that is chosen is one of the rows, and none has a later key.
latest-max :
    {A : Type 0} (key : A → ℕ) (l : List A) (a : A)
    → latest key l ≡ some a
    → Memᴰ a l × All (λ x. key x ≤ key a) l
latest-max key [] a e = absurd cc
latest-max {A} key (x ∷ xs) a e = elim (Option-cases (latest key xs)) [
  | inl n ↦ alone (some_row (rw n at e)) (latest-empty key xs n)
  | inr (y, n) ↦ choose y (latest-max key xs y n) (Bool-cases (leb (key x) (key y))) (rw n at e)
]
  where
    alone : x ≡ a → xs ≡ [] → Memᴰ a (x ∷ xs) × All (λ x. key x ≤ key a) (x ∷ xs)
    alone f g = rw (g, f) (Memᴰ.head refl, (omega arith, tt))

    choose :
        (y : A)
        → Memᴰ y xs × All (λ x. key x ≤ key y) xs
        → (leb (key x) (key y) ≡ true) ⊎ (leb (key x) (key y) ≡ false)
        → (if leb (key x) (key y) then some y else some x) ≡ some a
        → Memᴰ a (x ∷ xs) × All (λ x. key x ≤ key a) (x ∷ xs)
    choose y ih (inl m) f =
        subst (λ (w : A). Memᴰ w (x ∷ xs) × All (λ z. key z ≤ key w) (x ∷ xs))
          (some_row (rw m at f)) (Memᴰ.tail ih.0, (leb→le (key x) (key y) m, ih.1))
    choose y ih (inr m) f =
        subst (λ (w : A). Memᴰ w (x ∷ xs) × All (λ z. key z ≤ key w) (x ∷ xs))
          (some_row (rw m at f))
          (Memᴰ.head refl, (omega arith, All-map xs (λ z k. ground (arith, m, k)) ih.1))

pub Memᴰ-select :
    {A : Type 0} (p : A → Bool) (l : List A) (a : A) → Memᴰ a (select p l) → Memᴰ a l × (p a ≡ true)
Memᴰ-select p [] a m = elim m [ ]
Memᴰ-select p (x ∷ xs) a m = elim (Bool-cases (p x)) [
  | inl e ↦ here e (Memᴰ-select p xs a) (rw e at m)
  | inr e ↦ let r = Memᴰ-select p xs a (rw e at m) in (Memᴰ.tail r.0, r.1)
]
  where
    here :
        p x ≡ true
        → (Memᴰ a (select p xs) → Memᴰ a xs × (p a ≡ true))
        → Memᴰ a (x ∷ select p xs)
        → Memᴰ a (x ∷ xs) × (p a ≡ true)
    here e ih (Memᴰ.head f) = (Memᴰ.head f, rw f e)
    here e ih (Memᴰ.tail n) = let r = ih n in (Memᴰ.tail r.0, r.1)

-- What the rows that are not selected lack.
All-of_selected :
    {A : Type 0} (p : A → Bool) (P : A → Type 0) (l : List A)
    → All P (select p l)
    → All (λ x. (p x ≡ false) ⊎ P x) l
All-of_selected p P [] h = tt
All-of_selected p P (x ∷ xs) h = elim (Bool-cases (p x)) [
  | inl e ↦ let k = rw e at h in (inr k.0, All-of_selected p P xs k.1)
  | inr e ↦ (inl e, All-of_selected p P xs (rw e at h))
]

-- A listing that `active_listing` answers with is stored, is of the security at the venue, covers the day
-- and was known by the day asked for; and no other stored listing of which that holds starts later.
pub active_listing-Visible :
    (st : Store) (sec ven : String) (t : ℕ) (ko : Option ℕ) (r : SecurityListing)
    → active_listing st sec ven t ko ≡ done (some r)
    → Visible (strip sec) (lower (strip ven)) t (known_moment t ko) r
      × Memᴰ r st.listings
      × All
          (λ x.
            (¬ Visible (strip sec) (lower (strip ven)) t (known_moment t ko) x)
            ⊎ (x.listed_start ≤ r.listed_start))
          st.listings
unfolding active_listing active_row
active_listing-Visible st sec ven t ko r e =
    let a = outcome_inv (required_text 200 sec) _ e in
    let b = outcome_inv (identifier ven) _ a.2 in
    go a.0 b.0 (required_text-result 200 sec a.1) (identifier-result ven b.1) (done_inj b.2)
  where
    k : ℕ
    k = known_moment t ko

    Found : String → String → Type 0
    Found i v =
        Visible i v t k r
        × Memᴰ r st.listings
        × All (λ x. (¬ Visible i v t k x) ⊎ (x.listed_start ≤ r.listed_start)) st.listings

    unseen :
        (i v : String) (x : SecurityListing)
        → (is_answer i v t k x ≡ false) ⊎ (x.listed_start ≤ r.listed_start)
        → (¬ Visible i v t k x) ⊎ (x.listed_start ≤ r.listed_start)
    unseen i v x (inl m) = inl (λ h. let n = Visible-is_answer i v t k x h in absurd (clash m n))
      where
        clash : {b : Bool} → b ≡ false → b ≡ true → ⊥
        clash m n = cc
    unseen i v x (inr m) = inr m

    found : (i v : String) → active_row i v t k st ≡ some r → Found i v
    found i v m =
        let b = latest-max (λ x. x.listed_start) (select (is_answer i v t k) st.listings) r m in
        let c = Memᴰ-select (is_answer i v t k) st.listings r b.0 in
        (
          is_answer-Visible i v t k r c.1,
          c.0,
          All-map st.listings (unseen i v) (
              All-of_selected (is_answer i v t k) (λ x. x.listed_start ≤ r.listed_start) st.listings
                b.1),
        )

    go :
        (i v : String)
        → strip sec ≡ i
        → lower (strip ven) ≡ v
        → active_row i v t k st ≡ some r
        → Found (strip sec) (lower (strip ven))
    go i v f g m = rw (f, g) (found i v m)
