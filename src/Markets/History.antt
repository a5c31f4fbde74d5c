-- ===== src/Markets/History.antt =====
-- Registrations and what was known before them.
use alpha_agent.Markets.Active.{Memᴰ-select, active_listing-Visible}
use alpha_agent.Markets.Checks.{identifier, required_text}
use alpha_agent.Markets.Outcomes.{done_inj, refuse_when_inv, outcome_inv}
use alpha_agent.Base.{
  subst, ℕ, ◌<◌, ◌≡◌, refl, sym, ap, arith, inl, inr, Bool, Bool-cases, Option, some, List, [], ◌∷◌,
  ◌++◌, String, str_eq, leb, not, ◌&&◌, select, exists, ◌∙◌, latest, Memᴰ,
}
use mathlib.Core.Bool.{true, false}
use alpha_agent.Markets.Schema.{Python, Store, SecurityListing, done, ◌>>=◌}
use alpha_agent.Markets.Registry.{
  is_known_late, with_listing, ends_by, NewListing, register_security_listing, active_listing,
  active_row, is_answer, known_moment, replace, is_key,
}
use mathlib.Core.Path.{fun_ext}
use mathlib.Core.Logic.{◌⊎◌}

select-append :
    {A : Type 0} (p : A → Bool) (xs ys : List A) → select p (xs ++ ys) ≡ select p xs ++ select p ys
select-append p [] ys = refl
select-append p (x ∷ xs) ys = elim (Bool-cases (p x)) [
  | inl e ↦ rw e (ap (λ l. x ∷ l) (select-append p xs ys))
  | inr e ↦ rw e (select-append p xs ys)
]

append_nil : {A : Type 0} (xs : List A) → xs ++ [] ≡ xs
append_nil [] = refl
append_nil (x ∷ xs) = ap (λ l. x ∷ l) (append_nil xs)

-- A new row that is not selected, in the place of rows that are none.
select-replace :
    {A : Type 0} (p same : A → Bool) (a : A) (l : List A)
    → exists same l ≡ false
    → p a ≡ false
    → select p (replace same a l) ≡ select p l
select-replace {A} p same a l h k =
    select-append p (select (λ r. not (same r)) l) (a ∷ [])
    ∙ (rw (keeps l h, k) (append_nil (select p l)))
  where
    keeps : (l : List A) → exists same l ≡ false → select (λ r. not (same r)) l ≡ l
    keeps [] h = refl
    keeps (x ∷ xs) h = elim (Bool-cases (same x)) [
      | inl e ↦ absurd (let c = rw e at h in cc)
      | inr e ↦ rw e (ap (λ l. x ∷ l) (keeps xs (rw e at h)))
    ]

-- What a registration needs of its listing, and what the stores hold of theirs.
pub record IsListing (st : Store) (r : SecurityListing) : Type 0 where
  pub has_venue : exists (λ x. str_eq x.venue_id r.venue_id) st.venues ≡ true
  pub has_security : exists (λ x. str_eq x r.security_id) st.securities ≡ true
  pub ends_later : ends_by r.listed_end r.listed_start ≡ false
  pub known_in_time : is_known_late r.listed_end r.known_at ≡ false

inserted :
    (st st' : Store) (r row : SecurityListing)
    → IsListing st r
    → ◌≡◌ {A = SecurityListing × Store} (r, with_listing st r) (row, st')
    → (st' ≡ with_listing st row) × IsListing st row
inserted st st' r row h e =
    let p : r ≡ row = ap (λ (x : SecurityListing × Store). x.0) e in
    let q : with_listing st r ≡ st' = ap (λ (x : SecurityListing × Store). x.1) e in
    (sym q ∙ ap (with_listing st) p, subst (IsListing st) p h)

-- What a registration that is not refused leaves.
pub registered :
    (py : Python) (st st' : Store) (new : NewListing) (row : SecurityListing)
    → register_security_listing py st new ≡ done (row, st')
    → (st' ≡ with_listing st row) × IsListing st row
unfolding register_security_listing
registered py st st' new row e =
    let a = outcome_inv _ _ e in
    let b = refuse_when_inv _ _ _ a.2 in
    let c = outcome_inv _ _ b.1 in
    let d = refuse_when_inv _ _ _ c.2 in
    let f = refuse_when_inv _ _ _ d.1 in
    let g = refuse_when_inv _ _ _ f.1 in
    let h = outcome_inv _ _ g.1 in
    let i = outcome_inv _ _ h.2 in
    let j = outcome_inv _ _ i.2 in
    let k = outcome_inv _ _ j.2 in
    let l = outcome_inv _ _ k.2 in
    inserted st st' _ row
      (record {
        has_venue = yes_of b.0;
        has_security = yes_of d.0;
        ends_later = f.0;
        known_in_time = g.0;
      })
      (done_inj l.2)
  where
    yes_of : {b : Bool} → not b ≡ false → b ≡ true
    yes_of {b} e = ground arith

unknown : (b : Bool) (a k : ℕ) → k < a → (b && leb a k) ≡ false
unknown true a k h = ground arith
unknown false a k h = refl

member_append :
    {A : Type 0} (a : A) (xs : List A) (b : A) → Memᴰ a (xs ++ (b ∷ [])) → Memᴰ a xs ⊎ (a ≡ b)
member_append a [] b (Memᴰ.head e) = inr e
member_append a [] b (Memᴰ.tail m) = elim m [ ]
member_append a (x ∷ xs) b (Memᴰ.head e) = inl (Memᴰ.head e)
member_append a (x ∷ xs) b (Memᴰ.tail m) = elim (member_append a xs b m) [
  | inl n ↦ inl (Memᴰ.tail n)
  | inr n ↦ inr n
]

-- The registration of a listing under a key that is new does not change what `active_listing` answers
-- about what was known before that listing was.
pub no_look_ahead :
    (py : Python) (st st' : Store) (new : NewListing) (row : SecurityListing) (sec ven : String)
    (t : ℕ) (ko : Option ℕ)
    → register_security_listing py st new ≡ done (row, st')
    → exists (is_key row) st.listings ≡ false
    → known_moment t ko < row.known_at
    → active_listing st' sec ven t ko ≡ active_listing st sec ven t ko
unfolding active_listing active_row with_listing
no_look_ahead py st st' new row sec ven t ko e f k =
    ap
      (λ (q : String → String → Option SecurityListing).
        required_text 200 sec >>= λ i. identifier ven >>= λ v. done (q i v))
      (fun_ext (λ i. fun_ext (λ v. same i v)))
  where
    late : (i v : String) → is_answer i v t (known_moment t ko) row ≡ false
    late i v = unknown _ row.known_at (known_moment t ko) k

    same :
        (i v : String)
        → active_row i v t (known_moment t ko) st' ≡ active_row i v t (known_moment t ko) st
    same i v =
        ap
          (λ (s : Store).
            latest (λ x. x.listed_start) (select (is_answer i v t (known_moment t ko)) s.listings))
          (registered py st st' new row e).0
        ∙ ap (latest (λ x. x.listed_start)) (
            select-replace (is_answer i v t (known_moment t ko)) (is_key row) row st.listings f
              (late i v))

-- After the registration of a listing, another listing with its security, venue and first day is no
-- answer about what was known before the new one was.
pub replaced_forgotten :
    (py : Python) (st st' : Store) (new : NewListing) (row old : SecurityListing) (sec ven : String)
    (t : ℕ) (ko : Option ℕ)
    → register_security_listing py st new ≡ done (row, st')
    → known_moment t ko < row.known_at
    → is_key row old ≡ true
    → ¬ (active_listing st' sec ven t ko ≡ done (some old))
unfolding with_listing
replaced_forgotten py st st' new row old sec ven t ko e k same h =
    let a = active_listing-Visible st' sec ven t ko old h in
    let m = subst (λ (s : Store). Memᴰ old s.listings) (registered py st st' new row e).0 a.1 in
    absurd (elim (member_append old (select (λ r. not (is_key row r)) st.listings) row m) [
      | inl n ↦
          (let c = (Memᴰ-select (λ r. not (is_key row r)) st.listings old n).1 in
            let g = rw same at c in cc)
      | inr n ↦ (let b = a.0.known in let g = rw n at b in omega (arith, g, k))
    ])
