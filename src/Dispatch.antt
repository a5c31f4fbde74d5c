-- ===== src/Dispatch.antt =====
-- The dispatcher of src/aios/notifications.py: `dispatch_notifications` and
-- `dispatch_email_notifications`. The channel is a parameter: what its `send` did with a message.
use alpha_agent.Base.{
  length, ℕ, zero, suc, ◌+◌, ◌-◌, ◌*◌, ◌≤◌, ◌<◌, ◌&&◌, ◌||◌, not, Bool, true, false, Option, none,
  some, List, [], ◌∷◌, ◌++◌, String, str_eq, ◌≡◌, refl, sym, ap, ◌⊎◌, inl, inr, if◌then◌else◌, ltb,
  leb, ◌==◌, arith, Bool-cases, Option-cases, All, is_some, is_none,
}
use alpha_agent.Alerts.Ledger.{
  test_needs_id, unsupported_limit, Ledger, Error, Result, ok, err, Tx, ◌>>=◌, ◌>>◌, pure, raise,
  raise_if, gets, modify, or_raise, fresh_id, is_id, option_eq,
}
use alpha_agent.Json.{Fields, str, field, end}
use alpha_agent.Alerts.Schema.{Message, Claim, DeliveryState, permanent_failure, is_dead_letter}
use alpha_agent.Alerts.Outbox.Claim.{ClaimRequest, claim_notifications}
use alpha_agent.Alerts.Outbox.Complete.{Completion, complete_notification_delivery}
pub mod Trace
pub mod Loop
pub mod Rounds
pub mod Counts
mod Tests

-- What came of `channel.send`: an outcome, a NotificationChannelError, or another exception.
pub data Sent : Type 0 where
  accepted : Option String → Fields → Sent
  rejected : String → Option DeliveryState → Fields → Sent
  crashed : Sent

-- `DispatchSummary`
pub record Summary : Type 0 where
  pub claimed : ℕ
  pub succeeded : ℕ
  pub failed : ℕ
  pub dead_lettered : ℕ

-- Outside a transaction an exception keeps what earlier transactions have committed.
abbrev pub Run : Type 0 → Type 0
Run A = Ledger → Result A × Ledger

abbrev pub commit : {A : Type 0} → Tx A → Run A
commit m l = elim (m l) [ ok r ↦ (ok r.0, r.1) | err e ↦ (err e, l) ]

abbrev pub after : {A B : Type 0} → Result A × Ledger → (A → Run B) → Result B × Ledger
after r f = elim r.0 [ ok a ↦ f a r.1 | err e ↦ (err e, r.1) ]

-- The arguments of `complete_notification_delivery` in the three branches of the loop.
unfoldable pub completion_of : Claim → Sent → Completion
completion_of c (accepted message_id response) = record {
  delivery_id = c.delivery.delivery_id;
  lease_token = c.lease_token;
  succeeded = true;
  provider_message_id = message_id;
  provider_response = response;
  error_type = none;
  failure_state = none;
}
completion_of c (rejected error_type failure_state response) = record {
  delivery_id = c.delivery.delivery_id;
  lease_token = c.lease_token;
  succeeded = false;
  provider_message_id = none;
  provider_response = response;
  error_type = some error_type;
  failure_state = failure_state;
}
completion_of c crashed = record {
  delivery_id = c.delivery.delivery_id;
  lease_token = c.lease_token;
  succeeded = false;
  provider_message_id = none;
  provider_response =
      field "delivery_phase" (str "channel_send")
        (field "provider_state" (str "internal_error") end);
  error_type = some "internal_channel_error";
  failure_state = some permanent_failure;
}

abbrev pub is_accepted : Sent → Bool
is_accepted (accepted i r) = true
is_accepted _ = false

-- `succeeded += 1`, or `failed += 1` and `dead_lettered += int(message.state == "dead_letter")`.
unfoldable pub count : Sent → Message → Summary → Summary
count sent m s = if is_accepted sent then record s { succeeded = s.succeeded + 1 } else record s {
  failed = s.failed + 1;
  dead_lettered = s.dead_lettered + (if is_dead_letter m.state then 1 else 0);
}

-- The loop over the claims.
unfoldable pub dispatch_claims : (Message → Sent) → (now : ℕ) → List Claim → Summary → Run Summary
unfolding completion_of count
dispatch_claims send now [] s l = (ok s, l)
dispatch_claims send now (c ∷ claims) s l =
    after (commit (complete_notification_delivery (completion_of c (send c.message)) now) l)
      (λ m. dispatch_claims send now claims (count (send c.message) m s))

abbrev pub started_with : ℕ → Summary
started_with n = record { claimed = n; succeeded = 0; failed = 0; dead_lettered = 0 }

-- `dispatch_notifications`; the claim request carries the channel's name and alias.
unfoldable pub dispatch_notifications :
    (ℕ → String) → (Message → Sent) → ClaimRequest → (now : ℕ) → Run Summary
unfolding dispatch_claims
dispatch_notifications u send a now l =
    after (commit (claim_notifications u a now) l)
      (λ claims. dispatch_claims send now claims (started_with (length claims)))

abbrev pub add_summary : Summary → Summary → Summary
add_summary s t = record {
  claimed = s.claimed + t.claimed;
  succeeded = s.succeeded + t.succeeded;
  failed = s.failed + t.failed;
  dead_lettered = s.dead_lettered + t.dead_lettered;
}

-- The claim of one round of `dispatch_email_notifications`.
abbrev pub email_claim :
    (notification_id : Option String) (require_enabled_route : Bool) (fingerprint : String)
    → ClaimRequest
email_claim notification_id require_enabled_route fingerprint = record {
  channel = "smtp-email";
  route_alias = "primary";
  limit = 1;
  lease_seconds = 300;
  notification_id = notification_id;
  config_fingerprint = if require_enabled_route then some fingerprint else none;
  test_config_fingerprint = if require_enabled_route then none else some fingerprint;
}

-- `while remaining`, on fuel; `none` when the fuel is used up.
unfoldable pub email_rounds :
    (ℕ → String)
    → (Message → Sent)
    → ClaimRequest
    → (now fuel remaining : ℕ) → Summary
    → Run (Option Summary)
unfolding dispatch_notifications
email_rounds u send a now zero remaining total l =
    if remaining == 0 then (ok (some total), l) else (ok none, l)
email_rounds u send a now (suc fuel) remaining total l =
    if remaining == 0
    then (ok (some total), l)
    else after (dispatch_notifications u send a now l) (λ current.
      if current.claimed == 0 || is_some a.notification_id
      then (λ l'. (ok (some (add_summary total current)), l'))
      else email_rounds u send a now fuel (remaining - current.claimed) (add_summary total current))

-- `dispatch_email_notifications`, with one unit of fuel for each message of the limit.
unfoldable pub dispatch_email_notifications :
    (ℕ → String)
    → (Message → Sent)
    → (fingerprint : String) (limit : ℕ) (notification_id : Option String)
      (require_enabled_route : Bool) (now : ℕ)
    → Run (Option Summary)
unfolding email_rounds
dispatch_email_notifications u send fingerprint limit notification_id require_enabled_route now l =
    if ltb limit 1 || ltb 100 limit
    then (err unsupported_limit, l)
    else if not require_enabled_route && is_none notification_id
    then (err test_needs_id, l)
    else email_rounds u send (email_claim notification_id require_enabled_route fingerprint) now
        limit limit (started_with 0) l
