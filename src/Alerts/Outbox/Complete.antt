-- ===== src/Alerts/Outbox/Complete.antt =====
-- `AlertStore.complete_notification_delivery` and `_notification_retry_at`.
use alpha_agent.Base.{
  ℕ, ◌+◌, ◌*◌, ◌-◌, ◌^◌, min, ◌&&◌, ◌||◌, not, Bool, true, false, Option, none, some, String,
  str_eq, ltb, if◌then◌else◌, is_some, first, update,
}
use alpha_agent.Json.{Json, Fields}
use alpha_agent.Alerts.Schema.{
  Message, Delivery, DeliveryState, succeeded, retryable_failure, permanent_failure, ambiguous,
  pending, delivered, dead_letter, is_started, is_leased,
}
use alpha_agent.Alerts.Payload.{provider_response_json}
use alpha_agent.Alerts.Ledger.{
  Ledger, Tx, ◌>>=◌, ◌>>◌, pure, raise_if, gets, modify, or_raise, is_id, success_with_failure,
  failure_without_type, unsupported_failure, unsafe_response, delivery_missing, lease_missing,
  lease_expired,
}
use alpha_agent.Alerts.Checks.{check_text, check_optional}
use alpha_agent.Alerts.Outbox.Recover.{max_attempts, hold_unreachable, expired_by}

abbrev pub retry_base_seconds : ℕ
retry_base_seconds = 60

abbrev pub retry_max_seconds : ℕ
retry_max_seconds = 60 * 60

-- The `delay` of `_notification_retry_at`.
unfoldable pub retry_delay : ℕ → ℕ
retry_delay attempt_number = min (retry_base_seconds * 2 ^ (attempt_number - 1)) retry_max_seconds

-- The arguments of a completion.
pub record Completion : Type 0 where
  pub delivery_id : String
  pub lease_token : String
  pub succeeded : Bool
  pub provider_message_id : Option String
  pub provider_response : Fields
  pub error_type : Option String
  pub failure_state : Option DeliveryState

abbrev pub is_retryable : DeliveryState → Bool
is_retryable retryable_failure = true
is_retryable _ = false

-- NOTIFICATION_DELIVERY_STATES - {"started", "succeeded", "abandoned"}
abbrev pub is_failure : DeliveryState → Bool
is_failure retryable_failure = true
is_failure permanent_failure = true
is_failure ambiguous = true
is_failure _ = false

-- `failure_state or "retryable_failure"`
abbrev pub failure_of : Completion → DeliveryState
failure_of c = elim c.failure_state [ none ↦ retryable_failure | some s ↦ s ]

-- The checks of the arguments, before the transaction.
unfoldable pub check_completion : Completion → Tx (Unit {0})
unfolding check_text check_optional
check_completion c = do
  check_text c.delivery_id
  check_text c.lease_token
  check_optional c.provider_message_id
  raise_if (c.succeeded && (is_some c.error_type || is_some c.failure_state)) success_with_failure
  if c.succeeded
      then pure tt
      else (raise_if (not (is_some c.error_type)) failure_without_type
          >> (check_optional c.error_type
              >> raise_if (not (is_failure (failure_of c))) unsupported_failure))

abbrev pub mark_succeeded : Completion → Json → ℕ → Delivery → Delivery
mark_succeeded c response now d = record d {
  state = succeeded;
  finished_at = some now;
  provider_message_id = c.provider_message_id;
  provider_response = response;
  error_type = none;
  retry_at = none;
}

abbrev pub mark_delivered : ℕ → Message → Message
mark_delivered now m = record m {
  state = delivered;
  lease_token = none;
  lease_expires_at = none;
  delivered_at = some now;
  dead_lettered_at = none;
  last_error_type = none;
}

-- `_notification_retry_at(moment, attempt_number) if should_retry else None`
abbrev pub retry_time : Bool → ℕ → ℕ → Option ℕ
retry_time should_retry now attempt_number =
    if should_retry then some (now + retry_delay attempt_number) else none

abbrev pub mark_failed : Completion → Json → ℕ → Option ℕ → Delivery → Delivery
mark_failed c response now retry_at d = record d {
  state = failure_of c;
  finished_at = some now;
  provider_message_id = c.provider_message_id;
  provider_response = response;
  error_type = c.error_type;
  retry_at = retry_at;
}

abbrev pub fail_message : Completion → ℕ → Option ℕ → Message → Message
fail_message c now retry_at m = record m {
  state = if is_some retry_at then pending else dead_letter;
  available_at = elim retry_at [ none ↦ now | some t ↦ t ];
  lease_token = none;
  lease_expires_at = none;
  delivered_at = none;
  dead_lettered_at = if is_some retry_at then none else some now;
  last_error_type = c.error_type;
}

-- `should_retry`
abbrev pub should_retry : Completion → Delivery → Bool
should_retry c d = is_retryable (failure_of c) && ltb d.attempt_number max_attempts

-- What a delivery and its message become, and the two UPDATE statements that write it.
abbrev pub write_both :
    String → String → (Delivery → Delivery) → (Message → Message) → Ledger → Ledger
write_both delivery_id notification_id finish settle l = record l {
  deliveries = update (λ d. str_eq d.delivery_id delivery_id) finish l.deliveries;
  outbox = update (λ m. str_eq m.notification_id notification_id) settle l.outbox;
}

unfoldable pub deliver : Completion → Json → ℕ → Delivery → Message → Tx Message
deliver c response now d m = do
  modify (
      write_both c.delivery_id m.notification_id (mark_succeeded c response now)
        (mark_delivered now))
  pure (mark_delivered now m)

unfoldable pub fail : Completion → Json → ℕ → Delivery → Message → Tx Message
unfolding retry_delay hold_unreachable
fail c response now d m = do
  let retry_at = retry_time (should_retry c d) now d.attempt_number
  modify (
      write_both c.delivery_id m.notification_id (mark_failed c response now retry_at)
        (fail_message c now retry_at))
  modify (λ l. if should_retry c d then l else hold_unreachable l)
  pure (fail_message c now retry_at m)

-- The started delivery of this identifier.
abbrev pub is_open_delivery : String → Delivery → Bool
is_open_delivery i d = str_eq d.delivery_id i && is_started d.state

-- The message that the delivery's lease holds.
abbrev pub is_held_by : Delivery → String → Message → Bool
is_held_by d token m =
    str_eq m.notification_id d.notification_id && is_leased m.state && is_id token m.lease_token

-- The transaction of a completion whose arguments are valid.
unfoldable pub settle_delivery : Completion → (response : Json) (now : ℕ) → Tx Message
unfolding deliver fail
settle_delivery c response now = do
  open_delivery ← gets (λ l. first (is_open_delivery c.delivery_id) l.deliveries)
  d ← or_raise open_delivery delivery_missing
  leased_message ← gets (λ l. first (is_held_by d c.lease_token) l.outbox)
  m ← or_raise leased_message lease_missing
  raise_if (expired_by now m.lease_expires_at) lease_expired
  if c.succeeded then deliver c response now d m else fail c response now d m

-- `complete_notification_delivery`
unfoldable pub complete_notification_delivery : Completion → (now : ℕ) → Tx Message
unfolding check_completion provider_response_json settle_delivery
complete_notification_delivery c now = do
  check_completion c
  response ← or_raise (provider_response_json c.provider_response) unsafe_response
  settle_delivery c response now
