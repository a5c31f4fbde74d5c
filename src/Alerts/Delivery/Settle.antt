-- ===== src/Alerts/Delivery/Settle.antt =====
-- The ends of `complete_notification_delivery`: a delivered message, or a failed attempt.
use alpha_agent.Alerts.Outbox.Recover.{expired_by}
use alpha_agent.Alerts.Reads.{check_optional-Reads, check_text-Reads}
use alpha_agent.Alerts.Checks.{check_optional, check_text}
use alpha_agent.Alerts.Payload.{provider_response_json}
use alpha_agent.Json.{Json}
use alpha_agent.Alerts.Ends.{
  Ends-raise_if, Reads-raise_if, Ends-if, Ends-map, Ends-bind, Reads-or_raise, Ends-after, Ends,
}
use alpha_agent.Alerts.Schema.{Delivery, Message}
use alpha_agent.Alerts.Outbox.Complete.{
  is_held_by, is_open_delivery, fail, deliver, failure_of, is_failure, Completion, check_completion,
  settle_delivery, complete_notification_delivery,
}
use alpha_agent.Base.{
  first, ℕ, ◌&&◌, ◌||◌, not, true, false, ◌≡◌, refl, inl, inr, arith, Bool-cases, Option-cases,
  is_some,
}
use alpha_agent.Alerts.Ledger.{
  unsupported_failure, failure_without_type, success_with_failure, unsafe_response, Ledger, ◌>>=◌,
  ◌>>◌, pure, raise_if, or_raise,
}

pub settle_delivery-Ends :
    (Q : Message → Ledger → Type 0) (c : Completion) (response : Json) (now : ℕ) (l : Ledger)
    → ((d : Delivery) (m : Message) → c.succeeded ≡ true → Ends Q (deliver c response now d m l))
    → ((d : Delivery) (m : Message) → c.succeeded ≡ false → Ends Q (fail c response now d m l))
    → Ends Q (settle_delivery c response now l)
unfolding settle_delivery
settle_delivery-Ends Q c response now l h k =
    elim (Option-cases (first (is_open_delivery c.delivery_id) l.deliveries)) [
      | inl e ↦ rw e tt
      | inr (d, e) ↦ rw e (elim (Option-cases (first (is_held_by d c.lease_token) l.outbox)) [
        | inl e ↦ rw e tt
        | inr (m, e) ↦ rw e (elim (Bool-cases (expired_by now m.lease_expires_at)) [
          | inl x ↦ rw x tt
          | inr x ↦ rw x (
              Ends-if Q c.succeeded (deliver c response now d m) (fail c response now d m) l (h d m)
                (k d m))
        ])
      ])
    ]

checked_failure :
    (c : Completion) (l : Ledger)
    → Ends
        (λ _ l'. (l' ≡ l) × (c.succeeded ≡ false → is_failure (failure_of c) ≡ true))
        (check_completion c l)
unfolding check_completion
checked_failure c l =
    Ends-after _ (check_text c.delivery_id) _ l (check_text-Reads c.delivery_id) λ _.
      Ends-after _ (check_text c.lease_token) _ l (check_text-Reads c.lease_token) λ _.
        Ends-after _ (check_optional c.provider_message_id) _ l
          (check_optional-Reads c.provider_message_id)
          λ _.
            Ends-after _
              (raise_if (c.succeeded && (is_some c.error_type || is_some c.failure_state))
                success_with_failure)
              _ l (Reads-raise_if _ _)
              λ _.
                Ends-if _ c.succeeded (pure tt)
                  (raise_if (not (is_some c.error_type)) failure_without_type
                    >> (check_optional c.error_type
                        >> raise_if (not (is_failure (failure_of c))) unsupported_failure))
                  l (λ e. (refl, λ t. absurd (ground arith)))
                  λ e.
                    Ends-after _ (raise_if (not (is_some c.error_type)) failure_without_type) _ l
                      (Reads-raise_if _ _)
                      λ _.
                        Ends-after _ (check_optional c.error_type) _ l
                          (check_optional-Reads c.error_type)
                          λ _.
                            Ends-raise_if _ (not (is_failure (failure_of c))) unsupported_failure l
                              λ k. (refl, λ _. ground arith)

-- A completion whose arguments are valid comes to its transaction.
pub completion-Ends :
    (Q : Message → Ledger → Type 0) (c : Completion) (now : ℕ) (l : Ledger)
    → ((response : Json)
        → (c.succeeded ≡ false → is_failure (failure_of c) ≡ true)
        → Ends Q (settle_delivery c response now l))
    → Ends Q (complete_notification_delivery c now l)
unfolding complete_notification_delivery
completion-Ends Q c now l h =
    Ends-bind Q (check_completion c) _ l
      (Ends-map _ _ (check_completion c l) (λ u l' k. rest l' k.0 k.1) (checked_failure c l))
  where
    rest :
        (l' : Ledger)
        → l' ≡ l
        → (c.succeeded ≡ false → is_failure (failure_of c) ≡ true)
        → Ends Q (
            (or_raise (provider_response_json c.provider_response) unsafe_response >>= λ response.
            settle_delivery c response now)
              l')
    rest l' e s = rw e (
        Ends-after Q (or_raise (provider_response_json c.provider_response) unsafe_response) _ l
          (Reads-or_raise _ _) (λ response. h response s))
