-- ===== src/Alerts/Safety/Complete.antt =====
-- A completion is safe.
use alpha_agent.Base.{
  if◌then◌else◌, ℕ, Bool, true, false, String, ◌≡◌, refl, inl, inr, All, first, first-holds, update,
  arith, Bool-cases, Option-cases,
}
use alpha_agent.Json.{Json}
use alpha_agent.Alerts.Schema.{Message, Delivery, is_leased, is_delivered}
use alpha_agent.Alerts.Ledger.{Ledger}
use alpha_agent.Alerts.Outbox.Recover.{hold_unreachable, expired_by}
use alpha_agent.Alerts.Outbox.Complete.{
  Completion, mark_delivered, fail_message, mark_succeeded, mark_failed, write_both, deliver, fail,
  settle_delivery, complete_notification_delivery, is_held_by, is_open_delivery, should_retry,
  retry_time,
}
use alpha_agent.Alerts.Safety.Rows.{
  Keeps-change, leased-not_delivered, mark_delivered-IsConsistent, fail_message-IsConsistent,
  IsConsistent, Keeps,
}
use alpha_agent.Alerts.Safety.Ids.{has_id, first_is_only}
use alpha_agent.Alerts.Safety.Recover.{hold_unreachable-Advances}
use alpha_agent.Alerts.Safety.Checks.{check_completion-Safe}
use alpha_agent.Alerts.Safety.Advance.{
  Advances, Post, Safe, Advances-refl, Advances-trans, Advances-same, Advances-update_where,
  Post-assume, safe_rules,
}

-- The two UPDATE statements of a completion, where the message with the identifier is leased.
write_both-Advances :
    (delivery_id : String) (m : Message) (finish : Delivery → Delivery) (settle : Message → Message)
    (l : Ledger)
    → ((x : Message) → (settle x).notification_id ≡ x.notification_id)
    → ((x : Message) → IsConsistent x → IsConsistent (settle x))
    → ((x : Message) → is_delivered x.state ≡ false → Keeps x (settle x))
    → is_leased m.state ≡ true
    → All (λ x. has_id m.notification_id x ≡ true → x ≡ m) l.outbox
    → Advances l (write_both delivery_id m.notification_id finish settle l)
write_both-Advances delivery_id m finish settle l same row keep leased only =
    let l' = record l { outbox = update (has_id m.notification_id) settle l.outbox } in
    Advances-trans l l' (write_both delivery_id m.notification_id finish settle l)
      (Advances-update_where (λ x. has_id m.notification_id x ≡ true → x ≡ m)
        (has_id m.notification_id) settle l same (λ x _ _ c. row x c)
        (λ x u t. keep x (rw (u t) (leased-not_delivered m.state leased))) only)
      (Advances-same l' (write_both delivery_id m.notification_id finish settle l) refl)

deliver-Post :
    (c : Completion) (response : Json) (now : ℕ) (d : Delivery) (m : Message) (l : Ledger)
    → is_leased m.state ≡ true
    → All (λ x. has_id m.notification_id x ≡ true → x ≡ m) l.outbox
    → Post l (deliver c response now d m l)
unfolding deliver
deliver-Post c response now d m l leased only =
    write_both-Advances c.delivery_id m (mark_succeeded c response now) (mark_delivered now) l
      (λ x. refl) (λ x h. mark_delivered-IsConsistent now x h)
      (λ x h. Keeps-change x (mark_delivered now x) refl (omega arith) h) leased only

unless-Advances : (b : Bool) (l : Ledger) → Advances l (if b then l else hold_unreachable l)
unless-Advances true l = Advances-refl l
unless-Advances false l = hold_unreachable-Advances l

fail-Post :
    (c : Completion) (response : Json) (now : ℕ) (d : Delivery) (m : Message) (l : Ledger)
    → is_leased m.state ≡ true
    → All (λ x. has_id m.notification_id x ≡ true → x ≡ m) l.outbox
    → Post l (fail c response now d m l)
unfolding fail
fail-Post c response now d m l leased only =
    let retry_at = retry_time (should_retry c d) now d.attempt_number in
    let l' =
      write_both c.delivery_id m.notification_id (mark_failed c response now retry_at)
        (fail_message c now retry_at) l in
    Advances-trans l l' _
      (write_both-Advances c.delivery_id m (mark_failed c response now retry_at)
        (fail_message c now retry_at) l (λ x. refl)
        (λ x h. fail_message-IsConsistent c now retry_at x h)
        (λ x h. Keeps-change x (fail_message c now retry_at x) refl (omega arith) h) leased only)
      (unless-Advances (should_retry c d) l')

settle_delivery-Safe :
    (c : Completion) (response : Json) (now : ℕ) → Safe (settle_delivery c response now)
unfolding settle_delivery
settle_delivery-Safe c response now l = Post-assume l (settle_delivery c response now l) λ w.
    elim (Option-cases (first (is_open_delivery c.delivery_id) l.deliveries)) [
      | inl e ↦ rw e tt
      | inr (d, e) ↦ rw e (elim (Option-cases (first (is_held_by d c.lease_token) l.outbox)) [
        | inl k ↦ rw k tt
        | inr (m, k) ↦ rw k (elim (Bool-cases (expired_by now m.lease_expires_at)) [
          | inl x ↦ rw x tt
          | inr x ↦ rw x (
              settle d m (leased d m (first-holds (is_held_by d c.lease_token) l.outbox k))
                (first_is_only (is_held_by d c.lease_token) l.outbox w.distinct k))
        ])
      ])
    ]
  where
    leased :
        (d : Delivery) (m : Message)
        → is_held_by d c.lease_token m ≡ true
        → is_leased m.state ≡ true
    leased d m h = ground arith

    settle :
        (d : Delivery) (m : Message)
        → is_leased m.state ≡ true
        → All (λ x. has_id m.notification_id x ≡ true → x ≡ m) l.outbox
        → Post l ((if c.succeeded then deliver c response now d m else fail c response now d m) l)
    settle d m h only = elim (Bool-cases c.succeeded) [
      | inl e ↦ rw e (deliver-Post c response now d m l h only)
      | inr e ↦ rw e (fail-Post c response now d m l h only)
    ]

pub complete_notification_delivery-Safe :
    (c : Completion) (now : ℕ) → Safe (complete_notification_delivery c now)
unfolding complete_notification_delivery
complete_notification_delivery-Safe c now =
    search (safe_rules, check_completion-Safe, settle_delivery-Safe) depth 9
