-- ===== src/Alerts/Outbox/Claim.antt =====
-- `AlertStore.claim_notifications`: due messages are leased, and an attempt is started for each.
use Prim.Native.String.{◌++◌ as str_append}
use alpha_agent.Base.{
  ℕ, ◌+◌, ◌&&◌, ◌||◌, not, Bool, Option, none, some, List, [], ◌∷◌, ◌++◌, String, str_eq, ltb, leb,
  ◌==◌, is_some, is_none, is_blank, first, exists, update, select, sort_by, take,
}
use alpha_agent.Json.{obj, end, get, is_true, is_text}
use alpha_agent.Alerts.Schema.{
  Message, Delivery, Claim, Route, leased, started, is_pending, is_delivered, is_enabled, is_test,
  urgency,
}
use alpha_agent.Alerts.Ledger.{
  Tx, ◌>>=◌, ◌>>◌, pure, raise_if, gets, modify, or_raise, fresh_id, option_eq, is_id, integrity,
  unsupported_limit, unsupported_lease, combined_claims, test_needs_id, route_disabled,
  config_changed, no_activation, not_exact_test, inexact_reference, unknown_reference,
  delivery_disappeared,
}
use alpha_agent.Alerts.Checks.{check_optional_fingerprint, check_channel, normalized}
use alpha_agent.Alerts.Outbox.Lookup.{resolve_notification_id}
use alpha_agent.Alerts.Outbox.Recover.{max_attempts, recover_expired}

-- The arguments of a claim.
pub record ClaimRequest : Type 0 where
  pub channel : String
  pub route_alias : String
  pub limit : ℕ
  pub lease_seconds : ℕ
  pub notification_id : Option String
  pub config_fingerprint : Option String
  pub test_config_fingerprint : Option String

-- `claim_scope` with its parameters.
pub data ClaimScope : Type 0 where
  unrouted : ClaimScope
  unrouted_id : String → ClaimScope
  activation : String → ClaimScope
  exact_id : String → ClaimScope

abbrev pub in_scope : ClaimScope → Message → Bool
in_scope unrouted m = is_none m.route_activation_id
in_scope (unrouted_id i) m = is_none m.route_activation_id && str_eq m.notification_id i
in_scope (activation a) m = is_id a m.route_activation_id
in_scope (exact_id i) m = str_eq m.notification_id i

-- The row that `depends_on_notification_id` names is delivered, under the same activation.
abbrev pub releases : Message → Message → Bool
releases m d =
    is_id d.notification_id m.depends_on_notification_id
    && is_delivered d.state
    && is_some d.route_activation_id
    && option_eq d.route_activation_id m.route_activation_id

abbrev pub is_released : List Message → Message → Bool
is_released outbox m = is_none m.depends_on_notification_id || exists (releases m) outbox

-- The WHERE of the candidates.
unfoldable pub is_due : ℕ → ClaimScope → List Message → Message → Bool
is_due now scope outbox m =
    is_pending m.state
    && leb m.available_at now
    && ltb m.attempt_count max_attempts
    && is_released outbox m
    && in_scope scope m

-- ORDER BY the severity, `created_at` and the rowid.
abbrev pub comes_before : Message → Message → Bool
comes_before a b =
    ltb (urgency a.severity) (urgency b.severity)
    || (urgency a.severity == urgency b.severity && leb a.created_at b.created_at)

unfoldable pub candidates : ℕ → ClaimScope → ℕ → List Message → List Message
candidates now scope limit outbox =
    take limit (sort_by comes_before (select (is_due now scope outbox) outbox))

abbrev pub lease_message : (attempt_number : ℕ) (token : String) (expires : ℕ) → Message → Message
lease_message attempt_number token expires m = record m {
  state = leased;
  attempt_count = attempt_number;
  lease_token = some token;
  lease_expires_at = some expires;
  last_error_type = none;
}

abbrev pub is_pending_row : String → Message → Bool
is_pending_row i m = str_eq m.notification_id i && is_pending m.state

-- The primary key and UNIQUE(notification_id, attempt_number).
abbrev pub same_attempt : Delivery → Delivery → Bool
same_attempt d e =
    str_eq e.delivery_id d.delivery_id
    || (str_eq e.notification_id d.notification_id && e.attempt_number == d.attempt_number)

abbrev pub has_delivery_id : String → Delivery → Bool
has_delivery_id i d = str_eq d.delivery_id i

-- The INSERT, and the SELECT that reads the row back.
unfoldable pub insert_delivery : Delivery → Tx Delivery
insert_delivery d = do
  raise_if (← gets (λ l. exists (same_attempt d) l.deliveries)) integrity
  modify (λ l. record l { deliveries = l.deliveries ++ d ∷ [] })
  inserted ← gets (λ l. first (has_delivery_id d.delivery_id) l.deliveries)
  or_raise inserted delivery_disappeared

unfoldable pub start_delivery : ClaimRequest → (now : ℕ) → Message → String → Delivery
start_delivery a now m delivery_id = record {
  delivery_id = delivery_id;
  notification_id = m.notification_id;
  attempt_number = m.attempt_count;
  channel = a.channel;
  route_alias = a.route_alias;
  state = started;
  started_at = now;
  finished_at = none;
  provider_message_id = none;
  provider_response = obj end;
  error_type = none;
  retry_at = none;
}

-- After the UPDATE: the row that it returned, if any, gets its delivery.
unfoldable pub record_claim :
    ClaimRequest → ℕ → String → String → Option Message → List Claim → Tx (List Claim)
unfolding insert_delivery start_delivery
record_claim a now token delivery_id none claims = pure claims
record_claim a now token delivery_id (some m) claims = do
  d ← insert_delivery (start_delivery a now m delivery_id)
  pure (claims ++ record { message = m; delivery = d; lease_token = token } ∷ [])

-- One round of the loop over the candidates.
unfoldable pub claim_row : (ℕ → String) → ClaimRequest → ℕ → Message → List Claim → Tx (List Claim)
unfolding record_claim
claim_row u a now row claims = do
  token ← fresh_id u (str_append "lease-")
  delivery_id ← fresh_id u (str_append "delivery-")
  let lease = lease_message (row.attempt_count + 1) token (now + a.lease_seconds)
  found ← gets (λ l. first (is_pending_row row.notification_id) l.outbox)
  modify (λ l. record l { outbox = update (is_pending_row row.notification_id) lease l.outbox })
  record_claim a now token delivery_id (elim found [ none ↦ none | some m ↦ some (lease m) ]) claims

unfoldable pub claim_rows :
    (ℕ → String) → ClaimRequest → ℕ → List Message → List Claim → Tx (List Claim)
unfolding claim_row
claim_rows u a now [] claims = pure claims
claim_rows u a now (row ∷ rows) claims =
    claim_row u a now row claims >>= λ more. claim_rows u a now rows more

-- The checks of the arguments, before the transaction.
unfoldable pub check_claim : ClaimRequest → Tx (Unit {0})
unfolding check_channel check_optional_fingerprint
check_claim a = do
  check_channel a.channel
  check_channel a.route_alias
  raise_if (ltb a.limit 1 || ltb 100 a.limit) unsupported_limit
  raise_if (ltb a.lease_seconds 30 || ltb 3600 a.lease_seconds) unsupported_lease
  raise_if (is_some a.config_fingerprint && is_some a.test_config_fingerprint) combined_claims
  check_optional_fingerprint a.config_fingerprint
  check_optional_fingerprint a.test_config_fingerprint
  raise_if (is_some a.test_config_fingerprint && is_none a.notification_id) test_needs_id

abbrev pub is_route : String → String → Route → Bool
is_route channel route_alias r = str_eq r.channel channel && str_eq r.route_alias route_alias

-- The scope of a production claim: the activation of the enabled route, under this configuration.
unfoldable pub route_scope : ClaimRequest → (fingerprint : String) → Tx ClaimScope
unfolding is_blank
route_scope a fingerprint = do
  found ← gets (λ l. first (λ r. is_route a.channel a.route_alias r && is_enabled r.state) l.routes)
  route ← or_raise found route_disabled
  raise_if (not (str_eq route.config_fingerprint fingerprint)) config_changed
  raise_if (is_blank route.activation_id) no_activation
  pure (activation route.activation_id)

-- `test_row` is the exact test of the current configuration.
unfoldable pub is_exact_test : String → Message → Bool
unfolding get
is_exact_test fingerprint m =
    is_test m.event_type
    && is_none m.incident_id
    && is_none m.route_activation_id
    && is_true (get "email_test" m.payload)
    && is_text fingerprint (get "config_fingerprint" m.payload)

unfoldable pub test_scope :
    ClaimRequest → (resolved_id : Option String) (fingerprint : String) → Tx ClaimScope
unfolding is_exact_test
test_scope a resolved_id fingerprint = do
  raise_if (not (option_eq resolved_id a.notification_id)) inexact_reference
  i ← or_raise resolved_id unknown_reference
  found ← gets (λ l. first (λ m. str_eq m.notification_id i) l.outbox)
  row ← or_raise found unknown_reference
  raise_if (not (is_exact_test fingerprint row)) not_exact_test
  pure (exact_id i)

-- The `if`, `elif`, `elif` that chooses the scope.
unfoldable pub claim_scope :
    ClaimRequest → (config test_config resolved_id : Option String) → Tx ClaimScope
unfolding route_scope test_scope normalized
claim_scope a (some f) test_config resolved_id = route_scope a (normalized f)
claim_scope a none (some f) resolved_id = test_scope a resolved_id (normalized f)
claim_scope a none none (some i) = pure (unrouted_id i)
claim_scope a none none none = pure unrouted

unfoldable pub resolve_optional : Option String → Tx (Option String)
unfolding resolve_notification_id
resolve_optional none = pure none
resolve_optional (some reference) = resolve_notification_id reference >>= λ i. pure (some i)

-- The SELECT of the candidates and the loop over them.
unfoldable pub claim_due : (ℕ → String) → ClaimRequest → (now : ℕ) → ClaimScope → Tx (List Claim)
unfolding candidates claim_rows is_due
claim_due u a now scope =
    gets (λ l. candidates now scope a.limit l.outbox) >>= λ rows. claim_rows u a now rows []

-- `claim_notifications`
unfoldable pub claim_notifications : (ℕ → String) → ClaimRequest → (now : ℕ) → Tx (List Claim)
unfolding check_claim recover_expired resolve_optional claim_scope claim_due
claim_notifications u a now = do
  check_claim a
  modify (recover_expired now)
  resolved_id ← resolve_optional a.notification_id
  scope ← claim_scope a a.config_fingerprint a.test_config_fingerprint resolved_id
  claim_due u a now scope
