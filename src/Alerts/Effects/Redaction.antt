-- ===== src/Alerts/Effects/Redaction.antt =====
-- What a stored payload never holds.
use alpha_agent.Base.{lower, ℕ, true, ◌≡◌, refl, ltb, arith, inl, inr, Bool-cases}
use alpha_agent.Json.{
  Json, null, bool, int, float, str, arr, obj, Items, nil, cons, Fields, end, field,
}
use alpha_agent.Alerts.Payload.{
  truncated, is_secret, redact, redact_items, redact_fields, payload_json, size, max_payload_bytes,
}

-- At every depth, the value of a member with a secret name is the mark of a redaction.
unfoldable mutual
  pub Redacted : Json → Type 0
  Redacted (arr items) = RedactedItems items
  Redacted (obj fields) = RedactedFields fields
  Redacted null = Unit
  Redacted (bool b) = Unit
  Redacted (int s n) = Unit
  Redacted (float t) = Unit
  Redacted (str t) = Unit

  pub RedactedItems : Items → Type 0
  RedactedItems nil = Unit
  RedactedItems (cons x r) = Redacted x × RedactedItems r

  pub RedactedFields : Fields → Type 0
  RedactedFields end = Unit
  RedactedFields (field k v r) =
      (is_secret k ≡ true → v ≡ str "[REDACTED]") × Redacted v × RedactedFields r

mutual
  unfolding Redacted RedactedItems RedactedFields redact redact_items redact_fields

  redact-Redacted : (j : Json) → Redacted (redact j)
  redact-Redacted (arr items) = redact_items-Redacted items
  redact-Redacted (obj fields) = redact_fields-Redacted fields
  redact-Redacted null = tt
  redact-Redacted (bool b) = tt
  redact-Redacted (int s n) = tt
  redact-Redacted (float t) = tt
  redact-Redacted (str t) = tt

  redact_items-Redacted : (r : Items) → RedactedItems (redact_items r)
  redact_items-Redacted nil = tt
  redact_items-Redacted (cons x r) = (redact-Redacted x, redact_items-Redacted r)

  redact_fields-Redacted : (r : Fields) → RedactedFields (redact_fields r)
  redact_fields-Redacted end = tt
  redact_fields-Redacted (field k v r) = elim (Bool-cases (is_secret k)) [
    | inl e ↦ rw e (λ _. refl, tt, redact_fields-Redacted r)
    | inr e ↦ rw e (λ t. absurd (ground arith), redact-Redacted v, redact_fields-Redacted r)
  ]

mutual
  unfolding Redacted RedactedItems RedactedFields redact redact_items redact_fields

  Redacted-redact : (j : Json) → Redacted j → redact j ≡ j
  Redacted-redact (arr items) h = rw (Redacted-redact_items items h) refl
  Redacted-redact (obj fields) h = rw (Redacted-redact_fields fields h) refl
  Redacted-redact null h = refl
  Redacted-redact (bool b) h = refl
  Redacted-redact (int s n) h = refl
  Redacted-redact (float t) h = refl
  Redacted-redact (str t) h = refl

  Redacted-redact_items : (r : Items) → RedactedItems r → redact_items r ≡ r
  Redacted-redact_items nil h = refl
  Redacted-redact_items (cons x r) h = rw (Redacted-redact x h.0, Redacted-redact_items r h.1) refl

  Redacted-redact_fields : (r : Fields) → RedactedFields r → redact_fields r ≡ r
  Redacted-redact_fields end h = refl
  Redacted-redact_fields (field k v r) h = elim (Bool-cases (is_secret k)) [
    | inl e ↦ rw (e, h.0 e, Redacted-redact_fields r h.2) refl
    | inr e ↦ rw (e, Redacted-redact v h.1, Redacted-redact_fields r h.2) refl
  ]

truncated-Redacted : (n : ℕ) → Redacted (truncated n)
unfolding truncated Redacted RedactedFields is_secret lower
truncated-Redacted n = (λ e. absurd (ground arith), tt, (λ e. absurd (ground arith), tt, tt))

-- Whatever is given as a payload: in what is stored, at every depth, the member of a secret name
-- holds the mark of a redaction as its value, and redacting it again changes nothing.
pub payload_json-Redacted :
    (j : Json) → Redacted (payload_json j) × (redact (payload_json j) ≡ payload_json j)
unfolding payload_json
payload_json-Redacted j = (stored, Redacted-redact (payload_json j) stored)
  where
    stored : Redacted (payload_json j)
    stored = elim (Bool-cases (ltb max_payload_bytes (size (redact j)))) [
      | inl e ↦ rw e (truncated-Redacted (size (redact j)))
      | inr e ↦ rw e (redact-Redacted j)
    ]
