-- ===== src/Alerts/Safety/Rows.antt =====
-- Rows of the outbox one by one: when a row is consistent, and how a row may change.
use alpha_agent.Base.{
  ℕ, ◌≤◌, true, false, Option, none, some, String, ◌≡◌, refl, ◌∙◌, is_some, arith,
}
use alpha_agent.Alerts.Schema.{
  Message, MessageState, pending, is_leased, is_pending, is_delivered, is_dead_letter,
}
use alpha_agent.Alerts.Outbox.Recover.{max_attempts, expire_lease, exhaust, hold_unreached}
use alpha_agent.Alerts.Outbox.Enqueue.{put_on_hold}
use alpha_agent.Alerts.Outbox.Claim.{lease_message}
use alpha_agent.Alerts.Outbox.Complete.{Completion, mark_delivered, fail_message}
use alpha_agent.Alerts.Routes.{hold_because}

-- The columns of a row agree with its state, and the attempts are within the limit.
pub record IsConsistent (m : Message) : Type 0 where
  pub lease :
      is_leased m.state ≡ true
      → (is_some m.lease_token ≡ true) × (is_some m.lease_expires_at ≡ true)
  pub no_lease : is_leased m.state ≡ false → (m.lease_token ≡ none) × (m.lease_expires_at ≡ none)
  pub delivery_stamp : is_some m.delivered_at ≡ is_delivered m.state
  pub death_stamp : is_some m.dead_lettered_at ≡ is_dead_letter m.state
  pub attempts : m.attempt_count ≤ max_attempts

-- A row without the columns that the outbox may write after the insertion.
abbrev pub content : Message → Message
content m = record m {
  state = pending;
  available_at = 0;
  attempt_count = 0;
  lease_token = none;
  lease_expires_at = none;
  delivered_at = none;
  dead_lettered_at = none;
  last_error_type = none;
}

-- How a row may change: its content stays, attempts are not taken back, and a delivered row stays
-- as it is.
pub record Keeps (m m' : Message) : Type 0 where
  pub kept_content : content m' ≡ content m
  pub no_fewer_attempts : m.attempt_count ≤ m'.attempt_count
  pub final : is_delivered m.state ≡ true → m' ≡ m

pub Keeps-refl : (m : Message) → Keeps m m
Keeps-refl m = record { kept_content = refl; no_fewer_attempts = omega arith; final = λ h. refl }

pub Keeps-trans : (a b c : Message) → Keeps a b → Keeps b c → Keeps a c
Keeps-trans a b c h k = record {
  kept_content = k.kept_content ∙ h.kept_content;
  no_fewer_attempts = omega arith;
  final = λ d. k.final (rw (h.final d) d) ∙ h.final d;
}

pub expire_lease-IsConsistent :
    (now : ℕ) (m : Message) → IsConsistent m → IsConsistent (expire_lease now m)
expire_lease-IsConsistent now m h = ground arith

pub exhaust-IsConsistent :
    (now : ℕ) (m : Message)
    → is_pending m.state ≡ true
    → IsConsistent m
    → IsConsistent (exhaust now m)
exhaust-IsConsistent now m p h = ground arith

pub hold_unreached-IsConsistent :
    (m : Message) → is_pending m.state ≡ true → IsConsistent m → IsConsistent (hold_unreached m)
hold_unreached-IsConsistent m p h = ground arith

pub hold_because-IsConsistent :
    (reason : String) (m : Message)
    → is_pending m.state ≡ true
    → IsConsistent m
    → IsConsistent (hold_because reason m)
hold_because-IsConsistent reason m p h = ground arith

pub put_on_hold-IsConsistent :
    (reason : String) (m : Message)
    → is_delivered m.state ≡ false
    → IsConsistent m
    → IsConsistent (put_on_hold reason m)
put_on_hold-IsConsistent reason m p h = ground arith

pub lease_message-IsConsistent :
    (n : ℕ) (token : String) (expires : ℕ) (m : Message)
    → is_pending m.state ≡ true
    → n ≤ max_attempts
    → IsConsistent m
    → IsConsistent (lease_message n token expires m)
lease_message-IsConsistent n token expires m p le h = ground arith

pub mark_delivered-IsConsistent :
    (now : ℕ) (m : Message) → IsConsistent m → IsConsistent (mark_delivered now m)
mark_delivered-IsConsistent now m h = ground arith

pub fail_message-IsConsistent :
    (c : Completion) (now : ℕ) (retry_at : Option ℕ) (m : Message)
    → IsConsistent m
    → IsConsistent (fail_message c now retry_at m)
fail_message-IsConsistent c now none m h = ground arith
fail_message-IsConsistent c now (some t) m h = ground arith

-- A change of the columns that may change, of a row that is not delivered.
pub Keeps-change :
    (m m' : Message)
    → content m' ≡ content m
    → m.attempt_count ≤ m'.attempt_count
    → is_delivered m.state ≡ false
    → Keeps m m'
Keeps-change m m' same le d = record {
  kept_content = same;
  no_fewer_attempts = le;
  final = λ h. absurd (ground arith);
}

pub pending-not_delivered : (s : MessageState) → is_pending s ≡ true → is_delivered s ≡ false
pending-not_delivered s h = ground arith

pub leased-not_delivered : (s : MessageState) → is_leased s ≡ true → is_delivered s ≡ false
leased-not_delivered s h = ground arith
