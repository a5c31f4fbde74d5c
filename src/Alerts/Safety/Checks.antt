-- ===== src/Alerts/Safety/Checks.antt =====
-- The validators and the resolution of references read the ledger and leave it.
use alpha_agent.Base.{Option, none, some, String}
use alpha_agent.Alerts.Checks.{
  check_optional_fingerprint, check_text, check_optional, check_channel, check_fingerprint,
}
use alpha_agent.Alerts.Outbox.Lookup.{resolve_notification_id}
use alpha_agent.Alerts.Outbox.Claim.{
  ClaimRequest, check_claim, route_scope, test_scope, claim_scope, resolve_optional,
}
use alpha_agent.Alerts.Outbox.Complete.{Completion, check_completion}
use alpha_agent.Alerts.Outbox.Enqueue.{check_request}
use alpha_agent.Alerts.Schema.{Request, Alert}
use alpha_agent.Alerts.Incidents.Lifecycle.{check_alert}
use alpha_agent.Alerts.Incidents.Actions.{
  action_text, action_sha256, resolution_outcome, exact_incident,
}
use alpha_agent.Alerts.Safety.Advance.{Safe, safe_rules}

pub check_text-Safe : (value : String) → Safe (check_text value)
unfolding check_text
check_text-Safe value = search safe_rules

pub check_optional-Safe : (value : Option String) → Safe (check_optional value)
unfolding check_optional
check_optional-Safe none = search safe_rules
check_optional-Safe (some value) = check_text-Safe value

pub check_channel-Safe : (value : String) → Safe (check_channel value)
unfolding check_channel
check_channel-Safe value = search (safe_rules, check_text-Safe)

pub check_fingerprint-Safe : (value : String) → Safe (check_fingerprint value)
unfolding check_fingerprint
check_fingerprint-Safe value = search safe_rules

pub ruleset check_rules =
    (safe_rules, check_text-Safe, check_optional-Safe, check_channel-Safe, check_fingerprint-Safe)

pub resolve_notification_id-Safe : (reference : String) → Safe (resolve_notification_id reference)
unfolding resolve_notification_id
resolve_notification_id-Safe reference = search safe_rules depth 9

pub resolve_optional-Safe : (reference : Option String) → Safe (resolve_optional reference)
unfolding resolve_optional
resolve_optional-Safe none = search safe_rules
resolve_optional-Safe (some r) = search (safe_rules, resolve_notification_id-Safe)

pub check_request-Safe : (r : Request) → Safe (check_request r)
unfolding check_request
check_request-Safe r = search check_rules depth 9

pub check_alert-Safe : (a : Alert) → Safe (check_alert a)
unfolding check_alert
check_alert-Safe a = search check_rules depth 9

pub check_completion-Safe : (c : Completion) → Safe (check_completion c)
unfolding check_completion
check_completion-Safe c = search check_rules depth 9

pub route_scope-Safe : (a : ClaimRequest) (f : String) → Safe (route_scope a f)
unfolding route_scope
route_scope-Safe a f = search safe_rules depth 9

pub test_scope-Safe : (a : ClaimRequest) (i : Option String) (f : String) → Safe (test_scope a i f)
unfolding test_scope
test_scope-Safe a i f = search safe_rules depth 9

pub claim_scope-Safe :
    (a : ClaimRequest) (config test_config i : Option String)
    → Safe (claim_scope a config test_config i)
unfolding claim_scope
claim_scope-Safe a (some f) t i = route_scope-Safe a _
claim_scope-Safe a none (some f) i = test_scope-Safe a i _
claim_scope-Safe a none none (some i) = search safe_rules
claim_scope-Safe a none none none = search safe_rules

pub action_text-Safe : (value : String) → Safe (action_text value)
unfolding action_text
action_text-Safe value = search safe_rules depth 9

pub action_sha256-Safe : (value : String) → Safe (action_sha256 value)
unfolding action_sha256
action_sha256-Safe value = search (safe_rules, action_text-Safe) depth 9

pub resolution_outcome-Safe : (value : String) → Safe (resolution_outcome value)
unfolding resolution_outcome
resolution_outcome-Safe value = search (safe_rules, action_text-Safe) depth 9

pub exact_incident-Safe : (value : String) → Safe (exact_incident value)
unfolding exact_incident
exact_incident-Safe value = search safe_rules depth 9

pub check_optional_fingerprint-Safe :
    (value : Option String) → Safe (check_optional_fingerprint value)
unfolding check_optional_fingerprint
check_optional_fingerprint-Safe none = search safe_rules
check_optional_fingerprint-Safe (some value) = check_fingerprint-Safe value

pub check_claim-Safe : (a : ClaimRequest) → Safe (check_claim a)
unfolding check_claim
check_claim-Safe a = search (check_rules, check_optional_fingerprint-Safe) depth 12
