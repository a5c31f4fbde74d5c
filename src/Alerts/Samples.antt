-- ===== src/Alerts/Samples.antt =====
-- Small ledgers and requests for the tests.
use alpha_agent.Alerts.Schema.{Alert, Incident, IncidentState}
use alpha_agent.Base.{true, ℕ, zero, suc, false, none, some, [], ◌∷◌, String}
use alpha_agent.Alerts.Ledger.{Ledger, Result, ok, err}
use Prim.Native.String.{◌++◌ as str_append}
use alpha_agent.Json.{obj, end, field, str, int}
use alpha_agent.Alerts.Schema.{
  Message, Delivery, Route, JobRun, Request, warning, critical, active, pending, leased, started,
  RouteState, running,
}
use alpha_agent.Alerts.Outbox.Claim.{ClaimRequest}
use alpha_agent.Alerts.Outbox.Complete.{Completion}

abbrev pub uuid : ℕ → String
uuid zero = "a"
uuid (suc n) = str_append "a" (uuid n)

abbrev pub no_rows : Ledger
no_rows = record {
  outbox = [];
  deliveries = [];
  routes = [];
  route_events = [];
  incidents = [];
  incident_events = [];
  job_runs = [];
  drawn = 0;
}

abbrev pub got : {A : Type 0} → A → Result (A × Ledger) → A
got d (ok r) = r.0
got d (err e) = d

abbrev pub left : {A : Type 0} → Result (A × Ledger) → Ledger
left (ok r) = r.1
left (err e) = no_rows

abbrev pub request : Request
request = record {
  idempotency_key = "daily:1";
  event_type = active;
  severity = warning;
  title = "Prices are stale";
  body = "No prices since Monday.";
  source_job = "daily";
  payload = field "api_key" (str "k") (field "days" (int false 3) end);
  incident_id = none;
  source_event_id = none;
}

abbrev pub waiting : Message
waiting = record {
  notification_id = "notification-1";
  idempotency_key = "daily:0";
  incident_id = none;
  source_event_id = none;
  route_activation_id = none;
  depends_on_notification_id = none;
  event_type = active;
  severity = warning;
  title = "Prices are stale";
  body = "No prices since Monday.";
  source_job = "daily";
  payload = obj end;
  state = pending;
  created_at = 10;
  available_at = 10;
  attempt_count = 0;
  lease_token = none;
  lease_expires_at = none;
  delivered_at = none;
  dead_lettered_at = none;
  last_error_type = none;
}

abbrev pub graver : Message
graver = record waiting {
  notification_id = "notification-2";
  idempotency_key = "daily:2";
  severity = critical;
  created_at = 20;
}

abbrev pub sent : Message
sent = record waiting {
  state = leased;
  attempt_count = 1;
  lease_token = some "lease-1";
  lease_expires_at = some 400;
}

abbrev pub attempt : Delivery
attempt = record {
  delivery_id = "delivery-1";
  notification_id = "notification-1";
  attempt_number = 1;
  channel = "email";
  route_alias = "operator";
  state = started;
  started_at = 100;
  finished_at = none;
  provider_message_id = none;
  provider_response = obj end;
  error_type = none;
  retry_at = none;
}

abbrev pub in_flight : Ledger
in_flight = record no_rows { outbox = sent ∷ []; deliveries = attempt ∷ [] }

abbrev pub refused : Completion
refused = record {
  delivery_id = "delivery-1";
  lease_token = "lease-1";
  succeeded = false;
  provider_message_id = none;
  provider_response = field "status_code" (int false 421) end;
  error_type = some "smtp_busy";
  failure_state = none;
}

abbrev pub fingerprint : String
fingerprint = "00000000000000000000000000000000ffffffffffffffffffffffffffffffff"

abbrev pub route : Route
route = record {
  route_id = "route-1";
  channel = "email";
  route_alias = "operator";
  activation_id = "activation-1";
  state = RouteState.enabled;
  config_fingerprint = fingerprint;
  enabled_at = some 5;
  disabled_at = none;
  updated_at = 5;
}

abbrev pub routed : Ledger
routed = record no_rows {
  outbox =
      record waiting { route_activation_id = some "activation-1" }
      ∷ record graver { route_activation_id = some "activation-1" }
      ∷ [];
  routes = route ∷ [];
}

abbrev pub claim : ClaimRequest
claim = record {
  channel = "email";
  route_alias = "operator";
  limit = 1;
  lease_seconds = 300;
  notification_id = none;
  config_fingerprint = some fingerprint;
  test_config_fingerprint = none;
}

abbrev pub old_run : JobRun
old_run = record {
  run_id = "job-1";
  job_name = "daily";
  state = running;
  target_session = "2024-01-01";
  started_at = 1;
  finished_at = none;
  owner_pid = 7;
  owner_boot_id = "boot-0";
  detail = "The local workflow is in progress.";
  payload = obj end;
}

abbrev pub incident : Incident
incident = record {
  incident_id = "inc-1";
  fingerprint = "prices:stale";
  alert_code = "stale_prices";
  severity = warning;
  title = "Prices are stale";
  body = "No prices since Monday.";
  source_job = "daily";
  state = IncidentState.live;
  first_seen_at = 10;
  last_seen_at = 20;
  occurrence_count = 2;
  payload = obj end;
  acknowledged_at = none;
  resolved_at = none;
  notifications_enabled = true;
}

abbrev pub symptom : Alert
symptom = record {
  alert_code = "stale_prices";
  severity = critical;
  title = "Prices are still stale";
  body = "No prices for three days.";
  dedup_key = "prices:stale";
  source_job = "daily";
  payload = end;
  notify = true;
}
