-- ===== src/Alerts/Safety/Ids.antt =====
-- The primary key of the outbox: no two rows have one identifier, so a statement that names an
-- identifier writes the one row that a SELECT by it has read.
use alpha_agent.Base.{
  Bool, true, false, some, List, [], ◌∷◌, ◌++◌, String, str_eq, eq_iff, ◌≡◌, refl, ap, ◌∙◌, inl,
  inr, All, All-map, All-zip, All-first, exists, first, update, exists-update, exists-append,
  none-exists, Bool-cases, arith,
}
use alpha_agent.Alerts.Schema.{Message}

abbrev pub has_id : String → Message → Bool
has_id i m = str_eq m.notification_id i

abbrev pub Distinct : List Message → Type 0
Distinct [] = Unit
Distinct (m ∷ ms) = (exists (has_id m.notification_id) ms ≡ false) × Distinct ms

pub str_eq_sym : (a b : String) → str_eq a b ≡ false → str_eq b a ≡ false
str_eq_sym a b h = ground (arith, eq_iff a b, eq_iff b a)

pub Distinct-update :
    (p : Message → Bool) (f : Message → Message) (ms : List Message)
    → ((m : Message) → (f m).notification_id ≡ m.notification_id)
    → Distinct ms
    → Distinct (update p f ms)
Distinct-update p f [] same h = tt
Distinct-update p f (m ∷ ms) same h = elim (Bool-cases (p m)) [
  | inl e ↦ rw (e, same m) (fresh, Distinct-update p f ms same h.1)
  | inr e ↦ rw e (fresh, Distinct-update p f ms same h.1)
]
  where
    fresh : exists (has_id m.notification_id) (update p f ms) ≡ false
    fresh =
        exists-update (has_id m.notification_id) p f ms
          (λ x. ap (λ i. str_eq i m.notification_id) (same x))
        ∙ h.0

pub Distinct-append :
    (ms : List Message) (m : Message)
    → exists (has_id m.notification_id) ms ≡ false
    → Distinct ms
    → Distinct (ms ++ m ∷ [])
Distinct-append [] m e h = (refl, tt)
Distinct-append (x ∷ xs) m e h = (
  rw (exists-append (has_id x.notification_id) xs (m ∷ []))
      (ground (arith, str_eq_sym x.notification_id m.notification_id)),
  Distinct-append xs m (ground arith) h.1,
)

-- The rows with an identifier are the row that a SELECT by it returns.
pub unique_row :
    (i : String) (ms : List Message) {r : Message}
    → Distinct ms
    → first (has_id i) ms ≡ some r
    → All (λ m. has_id i m ≡ true → m ≡ r) ms
unique_row i [] h e = tt
unique_row i (m ∷ ms) {r} h e = elim (Bool-cases (has_id i m)) [
  | inl t ↦ (
    λ _. ground arith,
    All-map ms (λ x k same. absurd (clash x k same t))
        (none-exists (has_id m.notification_id) ms h.0),
  )
  | inr t ↦ (λ same. absurd (ground arith), unique_row i ms h.1 (rw t at e))
]
  where
    clash :
        (x : Message)
        → has_id m.notification_id x ≡ false
        → has_id i x ≡ true
        → has_id i m ≡ true
        → ⊥
    clash x k same t = ground (
      arith,
      eq_iff x.notification_id m.notification_id,
      eq_iff x.notification_id i,
      eq_iff m.notification_id i,
    )

-- Each row is the only one with its identifier.
pub unique_rows :
    (ms : List Message)
    → Distinct ms
    → All (λ r. All (λ m. has_id r.notification_id m ≡ true → m ≡ r) ms) ms
unique_rows [] h = tt
unique_rows (x ∷ xs) h = (
  (λ _. refl, All-map xs (λ m k same. absurd (ground arith)) others),
  All-map xs (λ r k. (λ same. absurd (clash r k.0 same), k.1))
      (All-zip _ _ xs others (unique_rows xs h.1)),
)
  where
    others : All (λ m. has_id x.notification_id m ≡ false) xs
    others = none-exists (has_id x.notification_id) xs h.0

    clash :
        (r : Message) → has_id x.notification_id r ≡ false → has_id r.notification_id x ≡ true → ⊥
    clash r k same = ground (
      arith,
      eq_iff r.notification_id x.notification_id,
      eq_iff x.notification_id r.notification_id,
    )

-- What a SELECT returns is the only row with its identifier.
pub first_is_only :
    (p : Message → Bool) (ms : List Message) {r : Message}
    → Distinct ms
    → first p ms ≡ some r
    → All (λ m. has_id r.notification_id m ≡ true → m ≡ r) ms
first_is_only p ms h e =
    All-first (λ r. All (λ m. has_id r.notification_id m ≡ true → m ≡ r) ms) p ms (unique_rows ms h)
      e
