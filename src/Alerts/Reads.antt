-- ===== src/Alerts/Reads.antt =====
-- The validators and the resolution of references read the ledger and leave it.
use alpha_agent.Base.{Option, none, some, String}
use alpha_agent.Alerts.Checks.{
  check_optional_fingerprint, check_text, check_optional, check_channel, check_fingerprint,
}
use alpha_agent.Alerts.Outbox.Lookup.{resolve_notification_id}
use alpha_agent.Alerts.Outbox.Claim.{
  ClaimRequest, check_claim, route_scope, test_scope, claim_scope, resolve_optional,
}
use alpha_agent.Alerts.Outbox.Complete.{Completion, check_completion}
use alpha_agent.Alerts.Outbox.Enqueue.{check_request}
use alpha_agent.Alerts.Schema.{Request, Alert}
use alpha_agent.Alerts.Incidents.Lifecycle.{check_alert}
use alpha_agent.Alerts.Incidents.Actions.{
  action_text, action_sha256, resolution_outcome, exact_incident,
}
use alpha_agent.Alerts.Ends.{Reads, reads_rules}

pub check_text-Reads : (value : String) → Reads (check_text value)
unfolding check_text
check_text-Reads value = search reads_rules

pub check_optional-Reads : (value : Option String) → Reads (check_optional value)
unfolding check_optional
check_optional-Reads none = search reads_rules
check_optional-Reads (some value) = check_text-Reads value

pub check_channel-Reads : (value : String) → Reads (check_channel value)
unfolding check_channel
check_channel-Reads value = search (reads_rules, check_text-Reads)

pub check_fingerprint-Reads : (value : String) → Reads (check_fingerprint value)
unfolding check_fingerprint
check_fingerprint-Reads value = search reads_rules

pub ruleset validator_rules = (
  reads_rules, check_text-Reads, check_optional-Reads, check_channel-Reads, check_fingerprint-Reads,
)

pub resolve_notification_id-Reads : (reference : String) → Reads (resolve_notification_id reference)
unfolding resolve_notification_id
resolve_notification_id-Reads reference = search reads_rules depth 9

pub resolve_optional-Reads : (reference : Option String) → Reads (resolve_optional reference)
unfolding resolve_optional
resolve_optional-Reads none = search reads_rules
resolve_optional-Reads (some r) = search (reads_rules, resolve_notification_id-Reads)

pub check_request-Reads : (r : Request) → Reads (check_request r)
unfolding check_request
check_request-Reads r = search validator_rules depth 9

pub check_alert-Reads : (a : Alert) → Reads (check_alert a)
unfolding check_alert
check_alert-Reads a = search validator_rules depth 9

pub check_completion-Reads : (c : Completion) → Reads (check_completion c)
unfolding check_completion
check_completion-Reads c = search validator_rules depth 9

pub route_scope-Reads : (a : ClaimRequest) (f : String) → Reads (route_scope a f)
unfolding route_scope
route_scope-Reads a f = search reads_rules depth 9

pub test_scope-Reads :
    (a : ClaimRequest) (i : Option String) (f : String) → Reads (test_scope a i f)
unfolding test_scope
test_scope-Reads a i f = search reads_rules depth 9

pub claim_scope-Reads :
    (a : ClaimRequest) (config test_config i : Option String)
    → Reads (claim_scope a config test_config i)
unfolding claim_scope
claim_scope-Reads a (some f) t i = route_scope-Reads a _
claim_scope-Reads a none (some f) i = test_scope-Reads a i _
claim_scope-Reads a none none (some i) = search reads_rules
claim_scope-Reads a none none none = search reads_rules

pub action_text-Reads : (value : String) → Reads (action_text value)
unfolding action_text
action_text-Reads value = search reads_rules depth 9

pub action_sha256-Reads : (value : String) → Reads (action_sha256 value)
unfolding action_sha256
action_sha256-Reads value = search (reads_rules, action_text-Reads) depth 9

pub resolution_outcome-Reads : (value : String) → Reads (resolution_outcome value)
unfolding resolution_outcome
resolution_outcome-Reads value = search (reads_rules, action_text-Reads) depth 9

pub exact_incident-Reads : (value : String) → Reads (exact_incident value)
unfolding exact_incident
exact_incident-Reads value = search reads_rules depth 9

pub check_optional_fingerprint-Reads :
    (value : Option String) → Reads (check_optional_fingerprint value)
unfolding check_optional_fingerprint
check_optional_fingerprint-Reads none = search reads_rules
check_optional_fingerprint-Reads (some value) = check_fingerprint-Reads value

pub check_claim-Reads : (a : ClaimRequest) → Reads (check_claim a)
unfolding check_claim
check_claim-Reads a = search (validator_rules, check_optional_fingerprint-Reads) depth 12
