-- ===== src/Dispatch/Tests.antt =====
-- A pass over a ledger with two messages under an enabled route; the first message is refused.
use alpha_agent.Dispatch.Counts.{email_dispatch_counts, IsCountOf}
use alpha_agent.Dispatch.Rounds.{Stops}
use alpha_agent.Dispatch.Trace.{Attempt, Pass}
use alpha_agent.Alerts.Outbox.Claim.{claim_notifications}
use alpha_agent.Alerts.Outbox.Complete.{complete_notification_delivery}
use alpha_agent.Base.{
  ℕ, zero, suc, ◌≤◌, true, false, Option, none, some, List, [], ◌∷◌, String, str_eq, ◌≡◌, refl,
  if◌then◌else◌,
}
use alpha_agent.Alerts.Ledger.{Ledger, Result, ok}
use Prim.Native.String.{◌++◌ as str_append}
use alpha_agent.Json.{obj, end, field, int}
use alpha_agent.Alerts.Schema.{Message, Route, RouteState, warning, critical, active, pending}
use alpha_agent.Dispatch.{
  complete_notification_delivery, claim_notifications, Sent, accepted, rejected, Summary,
  dispatch_email_notifications, email_claim,
}

abbrev ids : ℕ → String
ids zero = "a"
ids (suc n) = str_append "a" (ids n)

abbrev config : String
config = "00000000000000000000000000000000ffffffffffffffffffffffffffffffff"

abbrev message : Message
message = record {
  notification_id = "notification-1";
  idempotency_key = "daily:0";
  incident_id = none;
  source_event_id = none;
  route_activation_id = some "activation-1";
  depends_on_notification_id = none;
  event_type = active;
  severity = warning;
  title = "Prices are stale";
  body = "No prices since Monday.";
  source_job = "daily";
  payload = obj end;
  state = pending;
  created_at = 10;
  available_at = 10;
  attempt_count = 0;
  lease_token = none;
  lease_expires_at = none;
  delivered_at = none;
  dead_lettered_at = none;
  last_error_type = none;
}

abbrev primary : Route
primary = record {
  route_id = "route-1";
  channel = "smtp-email";
  route_alias = "primary";
  activation_id = "activation-1";
  state = RouteState.enabled;
  config_fingerprint = config;
  enabled_at = some 5;
  disabled_at = none;
  updated_at = 5;
}

abbrev two_due : Ledger
two_due = record {
  outbox =
      message
      ∷ record message {
        notification_id = "notification-2";
        idempotency_key = "daily:2";
        severity = critical;
      }
      ∷ [];
  deliveries = [];
  routes = primary ∷ [];
  route_events = [];
  incidents = [];
  incident_events = [];
  job_runs = [];
  drawn = 0;
}

abbrev refuse_first : Message → Sent
refuse_first m =
    if str_eq m.notification_id "notification-1"
    then rejected "smtp_busy" none (field "status_code" (int false 421) end)
    else accepted none end

abbrev pass : Result (Option Summary) × Ledger
pass = dispatch_email_notifications ids refuse_first config 10 none true 100 two_due

abbrev summary : Summary
summary = record { claimed = 2; succeeded = 1; failed = 1; dead_lettered = 0 }

pass_ends : pass ≡ (ok (some summary), pass.1)
unfolding dispatch_email_notifications claim_notifications complete_notification_delivery
pass_ends = refl

email_dispatch_counts_example :
    (t : Summary) × (ps : List Attempt) × (some summary ≡ some t)
    × Pass ids refuse_first (email_claim none true config) 100 ps two_due pass.1
    × IsCountOf refuse_first ps t
    × (t.claimed ≤ 10)
    × Stops ids refuse_first (email_claim none true config) 100 10 ps two_due pass.1
email_dispatch_counts_example =
    email_dispatch_counts ids refuse_first config 10 none true 100 two_due (some summary) pass.1
      pass_ends
