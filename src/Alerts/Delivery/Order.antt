-- ===== src/Alerts/Delivery/Order.antt =====
-- Which messages a claim takes, and in which order.
use alpha_agent.Base.{
  ◌∷◌, Bool-cases, ℕ, ◌≤◌, ◌<◌, true, false, none, List, ◌≡◌, ◌⊎◌, inl, inr, All, All-map, All-take,
  All-sort_by, All-of_sort_by, IsOrdered, sort_by-IsOrdered, take-IsOrdered, take-leaves, length,
  length-take-le, [], ◌∷◌, select, select-holds, sort_by, arith, ltb, exists,
}
use mathlib.Core.List.{Memᴰ}
use alpha_agent.Alerts.Schema.{Message, pending, urgency}
use alpha_agent.Alerts.Outbox.Recover.{max_attempts}
use alpha_agent.Alerts.Outbox.Claim.{
  ClaimScope, in_scope, is_due, is_released, releases, comes_before, candidates,
}

-- The message may be attempted now: it waits, its time has come, it has attempts left, a message
-- that it depends on is delivered under its own activation, and the claim is for it.
pub record MayBeSent (now : ℕ) (scope : ClaimScope) (outbox : List Message) (m : Message)
    : Type 0 where
  pub waits : m.state ≡ pending
  pub is_time : m.available_at ≤ now
  pub has_attempts : m.attempt_count < max_attempts
  pub released : (m.depends_on_notification_id ≡ none) ⊎ (exists (releases m) outbox ≡ true)
  pub is_wanted : in_scope scope m ≡ true

-- The severity decides first, and then the age; a message of a graver severity and an older one
-- come first.
abbrev pub Precedes : Message → Message → Type 0
Precedes a b =
    (urgency a.severity < urgency b.severity)
    ⊎ ((urgency a.severity ≡ urgency b.severity) × (a.created_at ≤ b.created_at))

is_released-cases :
    (outbox : List Message) (m : Message)
    → is_released outbox m ≡ true
    → (m.depends_on_notification_id ≡ none) ⊎ (exists (releases m) outbox ≡ true)
is_released-cases outbox m h = ground arith

due-MayBeSent :
    (now : ℕ) (scope : ClaimScope) (outbox : List Message) (m : Message)
    → is_due now scope outbox m ≡ true
    → MayBeSent now scope outbox m
unfolding is_due
due-MayBeSent now scope outbox m h = record {
  waits = ground arith;
  is_time = ground arith;
  has_attempts = ground arith;
  released = is_released-cases outbox m (ground arith);
  is_wanted = ground arith;
}

comes_before-Precedes : (a b : Message) → comes_before a b ≡ true → Precedes a b
comes_before-Precedes a b h = elim (Bool-cases (ltb (urgency a.severity) (urgency b.severity))) [
  | inl e ↦ inl (ground arith)
  | inr e ↦ inr (ground arith)
]

comes_before_trans :
    (a b c : Message) → comes_before a b ≡ true → comes_before b c ≡ true → comes_before a c ≡ true
comes_before_trans a b c h k = ground arith

comes_before_total : (a b : Message) → comes_before a b ≡ false → comes_before b a ≡ true
comes_before_total a b h = ground arith

IsOrdered-map :
    {R S : Message → Message → Type 0} (xs : List Message)
    → ((a b : Message) → R a b → S a b)
    → IsOrdered R xs
    → IsOrdered S xs
IsOrdered-map [] f h = tt
IsOrdered-map (x ∷ xs) f h = (All-map xs (f x) h.0, IsOrdered-map xs f h.1)

-- The candidates of a claim at a time are at most as many as its limit; each waits, is due,
-- has attempts left, depends on no message or on one that is delivered under its activation, and is
-- in the scope of the claim; they stand by severity and then by age; and a message of the outbox that
-- is due is left out only when the limit is reached by messages that all come before it.
pub candidates_order :
    (now : ℕ) (scope : ClaimScope) (limit : ℕ) (outbox : List Message)
    → let rows : List Message = candidates now scope limit outbox in
      (length rows ≤ limit)
      × All (MayBeSent now scope outbox) rows
      × IsOrdered Precedes rows
      × All
          (λ m. Memᴰ m rows ⊎ (All (λ r. Precedes r m) rows × (length rows ≡ limit)))
          (select (is_due now scope outbox) outbox)
unfolding candidates
candidates_order now scope limit outbox = (
  length-take-le limit sorted,
  All-take _ limit sorted (
      All-sort_by _ comes_before selected (
        All-map selected (λ m e. due-MayBeSent now scope outbox m e)
          (select-holds (is_due now scope outbox) outbox))),
  take-IsOrdered Precedes limit sorted in_order,
  All-of_sort_by _ comes_before selected (take-leaves Precedes limit sorted in_order),
)
  where
    selected : List Message
    selected = select (is_due now scope outbox) outbox

    sorted : List Message
    sorted = sort_by comes_before selected

    in_order : IsOrdered Precedes sorted
    in_order =
        IsOrdered-map sorted comes_before-Precedes
          (sort_by-IsOrdered comes_before comes_before_trans comes_before_total selected)
