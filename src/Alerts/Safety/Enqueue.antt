-- ===== src/Alerts/Safety/Enqueue.antt =====
-- Insertions into the outbox and holds are safe.
use alpha_agent.Base.{
  exists-narrow, ℕ, Bool, true, false, ◌||◌, Option, none, some, String, ◌≡◌, refl, inl, inr,
  All-map, first, exists, update, arith, Bool-cases, Option-cases,
}
use Prim.Native.String.{◌++◌ as str_append}
use alpha_agent.Alerts.Schema.{Message, Request, is_leased, is_delivered}
use alpha_agent.Alerts.Ledger.{Ledger, fresh_id}
use alpha_agent.Alerts.Outbox.Enqueue.{
  clashes, dangles, put_on_hold, new_message, insert_message, insert_or_match,
  insert_outbox_message, enqueue_notification, hold_resolved, hold_notification, same_content,
}
use alpha_agent.Alerts.Safety.Rows.{IsConsistent, Keeps-change, put_on_hold-IsConsistent}
use alpha_agent.Alerts.Safety.Ids.{has_id, unique_row}
use alpha_agent.Alerts.Safety.Advance.{
  Advances, Safe, Advances-refl, Advances-update_where, Advances-append, safe_rules, Post-bind,
  Safe-fresh_id,
}
use alpha_agent.Alerts.Safety.Checks.{check_rules, check_request-Safe, resolve_notification_id-Safe}

pub insert_message-Safe : (m : Message) → IsConsistent m → Safe (insert_message m)
unfolding insert_message
insert_message-Safe m c l = elim (Bool-cases (exists (clashes m) l.outbox || dangles m l)) [
  | inl e ↦ rw e tt
  | inr e ↦ rw e (
      Advances-append m l
        (exists-narrow (has_id m.notification_id) (clashes m) l.outbox (λ n h. rw h refl)
          (ground arith))
        c)
]

pub new_message-IsConsistent :
    (r : Request) (timestamp : ℕ) (hold : Bool) (activation depends last : Option String)
    (id : String)
    → IsConsistent (new_message r timestamp hold activation depends last id)
unfolding new_message
new_message-IsConsistent r timestamp hold activation depends last id = ground arith

insert_or_match-Safe :
    (u : ℕ → String) (make : String → Message) (existing : Option Message)
    → ((id : String) → IsConsistent (make id))
    → Safe (insert_or_match u make existing)
unfolding insert_or_match
insert_or_match-Safe u make (some m) h l =
    elim (Bool-cases (same_content m (make m.notification_id))) [
      | inl e ↦ rw e (Advances-refl l)
      | inr e ↦ rw e tt
    ]
insert_or_match-Safe u make none h l =
    Post-bind (fresh_id u (str_append "notification-")) (λ id. insert_message (make id)) l
      (Safe-fresh_id u (str_append "notification-") l)
      (λ id l' _. insert_message-Safe (make id) (h id) l')

pub insert_outbox_message-Safe :
    (u : ℕ → String) (r : Request) (timestamp : ℕ) (hold : Bool)
    (activation depends last : Option String)
    → Safe (insert_outbox_message u r timestamp hold activation depends last)
unfolding insert_outbox_message
insert_outbox_message-Safe u r timestamp hold activation depends last =
    search (safe_rules, check_request-Safe, insert_or_match-Safe, new_message-IsConsistent) depth 9

pub enqueue_notification-Safe :
    (u : ℕ → String) (r : Request) (hold : Bool) (timestamp : ℕ)
    → Safe (enqueue_notification u r hold timestamp)
unfolding enqueue_notification
enqueue_notification-Safe u r hold timestamp =
    search (safe_rules, check_request-Safe, insert_outbox_message-Safe)

put_on_hold-Advances :
    (reason : String) (m : Message) (i : String) (l : Ledger)
    → first (has_id i) l.outbox ≡ some m
    → is_delivered m.state ≡ false
    → Advances l (record l { outbox = update (has_id i) (put_on_hold reason) l.outbox })
put_on_hold-Advances reason m i l e d w =
    Advances-update_where (λ x. has_id i x ≡ true → is_delivered x.state ≡ false) (has_id i)
      (put_on_hold reason) l (λ x. refl) (λ x u t c. put_on_hold-IsConsistent reason x (u t) c)
      (λ x u t. Keeps-change x (put_on_hold reason x) refl (omega arith) (u t))
      (All-map l.outbox (λ x k t. rw (k t) d) (unique_row i l.outbox w.distinct e)) w

hold_resolved-Safe : (i reason : String) → Safe (hold_resolved i reason)
unfolding hold_resolved
hold_resolved-Safe i reason l = elim (Option-cases (first (has_id i) l.outbox)) [
  | inl e ↦ rw e tt
  | inr (m, e) ↦ rw e (elim (Bool-cases (is_leased m.state)) [
    | inl s ↦ rw s tt
    | inr s ↦ rw s (elim (Bool-cases (is_delivered m.state)) [
      | inl d ↦ rw d (Advances-refl l)
      | inr d ↦ rw d (put_on_hold-Advances reason m i l e d)
    ])
  ])
]

pub hold_notification-Safe : (reference reason : String) → Safe (hold_notification reference reason)
unfolding hold_notification
hold_notification-Safe reference reason =
    search (check_rules, resolve_notification_id-Safe, hold_resolved-Safe)
