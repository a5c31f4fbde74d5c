-- ===== src/Alerts/Delivery/Final.antt =====
-- An attempt is completed at most once.
use alpha_agent.Alerts.Delivery.Settle.{settle_delivery-Ends, completion-Ends}
use alpha_agent.Json.{Json}
use alpha_agent.Alerts.Ends.{Ends-ok, Ends}
use alpha_agent.Alerts.Schema.{Delivery, is_started, Message, DeliveryState}
use alpha_agent.Alerts.Outbox.Complete.{
  retry_time, mark_failed, mark_succeeded, should_retry, failure_of, complete_notification_delivery,
  is_open_delivery, is_failure, Completion, settle_delivery, deliver, fail,
}
use alpha_agent.Alerts.Outbox.Recover.{hold_unreachable}
use alpha_agent.Alerts.Schema.{
  started, succeeded, retryable_failure, permanent_failure, ambiguous, abandoned,
}
use alpha_agent.Base.{
  All-every, exists-none, All-update_both, first-none, first, ℕ, Bool, true, false, none, str_eq,
  ◌≡◌, refl, if◌then◌else◌, arith, All,
}
use alpha_agent.Alerts.Ledger.{Ledger, ok}

abbrev IsClosed : Completion → Ledger → Type 0
IsClosed c l = All (λ d. is_open_delivery c.delivery_id d ≡ false) l.deliveries

failure-not_started : (s : DeliveryState) → is_failure s ≡ true → is_started s ≡ false
failure-not_started started h = absurd (ground arith)
failure-not_started succeeded h = refl
failure-not_started retryable_failure h = refl
failure-not_started permanent_failure h = refl
failure-not_started ambiguous h = refl
failure-not_started abandoned h = refl

delivered-IsClosed :
    (c : Completion) (response : Json) (now : ℕ) (d : Delivery) (m : Message) (l : Ledger)
    → Ends (λ _ l'. IsClosed c l') (deliver c response now d m l)
unfolding deliver
delivered-IsClosed c response now d m l =
    All-update_both {P = λ _. Unit {0}} (λ x. str_eq x.delivery_id c.delivery_id)
      (mark_succeeded c response now) l.deliveries (λ x _ e. ground arith) (λ x _ e. ground arith)
      (All-every l.deliveries (λ _. tt))

unless-IsClosed :
    (c : Completion) (b : Bool) (l : Ledger)
    → IsClosed c l
    → IsClosed c (if b then l else hold_unreachable l)
unfolding hold_unreachable
unless-IsClosed c true l h = h
unless-IsClosed c false l h = h

failed-IsClosed :
    (c : Completion) (response : Json) (now : ℕ) (d : Delivery) (m : Message) (l : Ledger)
    → is_failure (failure_of c) ≡ true
    → Ends (λ _ l'. IsClosed c l') (fail c response now d m l)
unfolding fail
failed-IsClosed c response now d m l s = unless-IsClosed c (should_retry c d) _ (
    All-update_both {P = λ _. Unit {0}} (λ x. str_eq x.delivery_id c.delivery_id)
      (mark_failed c response now (retry_time (should_retry c d) now d.attempt_number)) l.deliveries
      (λ x _ e. ground (arith, failure-not_started (failure_of c) s)) (λ x _ e. ground arith)
      (All-every l.deliveries (λ _. tt)))

completed-IsClosed :
    (c : Completion) (now : ℕ) (l : Ledger)
    → Ends (λ _ l'. IsClosed c l') (complete_notification_delivery c now l)
completed-IsClosed c now l =
    completion-Ends (λ _ l'. IsClosed c l') c now l
      λ response s.
        settle_delivery-Ends (λ _ l'. IsClosed c l') c response now l
          (λ d m _. delivered-IsClosed c response now d m l)
          (λ d m e. failed-IsClosed c response now d m l (s e))

closed-none :
    (c : Completion) (l : Ledger)
    → IsClosed c l
    → first (is_open_delivery c.delivery_id) l.deliveries ≡ none
closed-none c l h = first-none _ l.deliveries (exists-none _ l.deliveries h)

closed-refuses :
    (c : Completion) (now : ℕ) (l : Ledger)
    → IsClosed c l
    → Ends (λ _ _. ⊥) (complete_notification_delivery c now l)
unfolding settle_delivery
closed-refuses c now l h = completion-Ends (λ _ _. ⊥) c now l (λ response _. refuse response)
  where
    refuse : (response : Json) → Ends (λ _ _. ⊥) (settle_delivery c response now l)
    refuse response = rw (closed-none c l h) tt

-- In the ledger that a completion leaves when it commits, another completion of the same attempt
-- is refused, whatever it reports, under whatever token and at whatever time.
pub completed_once :
    (c : Completion) (now : ℕ) (l : Ledger) (m : Message) (l' : Ledger)
    → complete_notification_delivery c now l ≡ ok (m, l')
    → (again : Completion) (later : ℕ) (r : Message) (l'' : Ledger)
    → again.delivery_id ≡ c.delivery_id
    → ¬ (complete_notification_delivery again later l' ≡ ok (r, l''))
completed_once c now l m l' e again later r l'' same f =
    Ends-ok (λ _ _. ⊥) (complete_notification_delivery again later l')
      (closed-refuses again later l' (
        rw same (
          Ends-ok (λ _ x. IsClosed c x) (complete_notification_delivery c now l)
            (completed-IsClosed c now l) e)))
      f
