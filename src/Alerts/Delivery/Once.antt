-- ===== src/Alerts/Delivery/Once.antt =====
-- What `complete_notification_delivery` leaves behind: an attempt is completed once, and what it
-- settled is sent again only by a retry.
use alpha_agent.Alerts.Delivery.Settle.{settle_delivery-Ends, completion-Ends}
use alpha_agent.Alerts.Ends.{Ends-ok, Ends}
use alpha_agent.Json.{Json}
use alpha_agent.Alerts.Ledger.{ok, Ledger}
use alpha_agent.Alerts.Outbox.Recover.{is_unreachable, hold_unreached, hold_unreachable}
use alpha_agent.Base.{
  Memᴰ, All-member, if◌then◌else◌, refl, All-every, All-update_both, All, Bool, str_eq, ℕ, ◌+◌, ◌≤◌,
  true, false, List, ◌≡◌, inl, inr, arith, Bool-cases,
}
use alpha_agent.Alerts.Schema.{Message, Delivery, is_pending}
use alpha_agent.Alerts.Outbox.Claim.{ClaimScope, is_due}
use alpha_agent.Alerts.Outbox.Complete.{
  mark_delivered, complete_notification_delivery, fail, deliver, Completion, fail_message,
  is_retryable, failure_of, should_retry, retry_time,
}
use alpha_agent.Alerts.Delivery.Retry.{retry_delay_backoff}

-- The row is due at a time only after a failure that is to be retried, and after its delay.
abbrev DueLater : Completion → ℕ → Message → Type 0
DueLater c now r =
    (t : ℕ) (scope : ClaimScope) (outbox : List Message)
    → is_due t scope outbox r ≡ true
    → (c.succeeded ≡ false) × (is_retryable (failure_of c) ≡ true) × (now + 60 ≤ t)

waiting-DueLater :
    (c : Completion) (now : ℕ) (m : Message) → is_pending m.state ≡ false → DueLater c now m
unfolding is_due
waiting-DueLater c now m e t scope outbox h = absurd (ground arith)

fail_message-DueLater :
    (c : Completion) (now : ℕ) (d : Delivery) (m : Message)
    → c.succeeded ≡ false
    → DueLater c now (fail_message c now (retry_time (should_retry c d) now d.attempt_number) m)
unfolding is_due
fail_message-DueLater c now d m s t scope outbox = elim (Bool-cases (should_retry c d)) [
  | inl e ↦ rw e (λ h. (s, ground arith, ground (arith, (retry_delay_backoff d.attempt_number).0)))
  | inr e ↦ rw e (λ h. absurd (ground arith))
]

-- The rows that carry the identifier of a message.
abbrev Named : Message → (Message → Type 0) → Message → Type 0
Named m P r = str_eq r.notification_id m.notification_id ≡ true → P r

delivered_rows :
    (c : Completion) (response : Json) (now : ℕ) (d : Delivery) (m : Message) (l : Ledger)
    → Ends (λ r l'. All (Named r (DueLater c now)) l'.outbox) (deliver c response now d m l)
unfolding deliver
delivered_rows c response now d m l =
    All-update_both {P = λ _. Unit {0}} _ (mark_delivered now) l.outbox
      (λ x _ _ _. waiting-DueLater c now (mark_delivered now x) refl)
      (λ x _ e t. absurd (ground arith)) (All-every l.outbox (λ _. tt))

unless_held :
    (P : Message → Type 0) (m : Message) (b : Bool) (l : Ledger)
    → ((x : Message) → P (hold_unreached x))
    → All (Named m P) l.outbox
    → All (Named m P) (if b then l else hold_unreachable l).outbox
unfolding hold_unreachable
unless_held P m true l p h = h
unless_held P m false l p h =
    All-update_both (is_unreachable l.outbox) hold_unreached l.outbox (λ x _ _ _. p x) (λ x k _. k)
      h

failed_rows :
    (c : Completion) (response : Json) (now : ℕ) (d : Delivery) (m : Message) (l : Ledger)
    → c.succeeded ≡ false
    → Ends (λ r l'. All (Named r (DueLater c now)) l'.outbox) (fail c response now d m l)
unfolding fail
failed_rows c response now d m l s =
    unless_held (DueLater c now) m (should_retry c d) _
      (λ x. waiting-DueLater c now (hold_unreached x) refl)
      (All-update_both {P = λ _. Unit {0}} _
        (fail_message c now (retry_time (should_retry c d) now d.attempt_number)) l.outbox
        (λ x _ _ _. fail_message-DueLater c now d x s) (λ x _ e t. absurd (ground arith))
        (All-every l.outbox (λ _. tt)))

-- In the ledger that a completion leaves when it commits, a row of its message is due under no
-- claim at any time, except where the attempt failed in a way that is to be retried, and then not
-- before a minute has passed.
pub completed_not_resent :
    (c : Completion) (now : ℕ) (l : Ledger) (m : Message) (l' : Ledger)
    → complete_notification_delivery c now l ≡ ok (m, l')
    → (r : Message) → Memᴰ r l'.outbox
    → str_eq r.notification_id m.notification_id ≡ true
    → (t : ℕ) (scope : ClaimScope) (outbox : List Message) → is_due t scope outbox r ≡ true
    → (c.succeeded ≡ false) × (is_retryable (failure_of c) ≡ true) × (now + 60 ≤ t)
completed_not_resent c now l m l' e r found =
    All-member _ l'.outbox
      (Ends-ok (λ x l'. All (Named x (DueLater c now)) l'.outbox)
        (complete_notification_delivery c now l)
        (completion-Ends (λ x l'. All (Named x (DueLater c now)) l'.outbox) c now l
          λ response _.
            settle_delivery-Ends _ c response now l (λ d x _. delivered_rows c response now d x l)
              (λ d x s. failed_rows c response now d x l s))
        e)
      found
