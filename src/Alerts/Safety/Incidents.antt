-- ===== src/Alerts/Safety/Incidents.antt =====
-- The operations on incidents and jobs are safe: what they put into the outbox goes through the
-- insertion of messages.
use alpha_agent.Base.{ℕ, Bool, Option, none, some, List, [], ◌∷◌, String, refl}
use alpha_agent.Json.{Json, Fields}
use alpha_agent.Alerts.Schema.{JobRun, Incident, IncidentEventType, EventType, Alert, Route}
use alpha_agent.Alerts.Ledger.{Ledger}
use alpha_agent.Alerts.Incidents.Notify.{
  enqueue_incident_notification, enabled_notification_route, one_route,
}
use alpha_agent.Alerts.Incidents.Lifecycle.{
  insert_event, insert_incident, announce, emit_found, emit, update_incident,
}
use alpha_agent.Alerts.Incidents.Actions.{
  Action, acknowledge_exact, resolve_exact, Host, acknowledge, resolve,
}
use alpha_agent.Alerts.Jobs.{interrupt_runs, insert_job, begin_job, JobOutcome, finish_job}
use alpha_agent.Alerts.Safety.Checks.{
  check_rules, check_alert-Safe, action_text-Safe, action_sha256-Safe, resolution_outcome-Safe,
  exact_incident-Safe,
}
use alpha_agent.Alerts.Safety.Enqueue.{insert_outbox_message-Safe}
use alpha_agent.Alerts.Safety.Routes.{Safe-elsewhere}
use alpha_agent.Alerts.Safety.Advance.{Safe, safe_rules}

one_route-Safe : (rs : List Route) → Safe (one_route rs)
one_route-Safe [] = search safe_rules
one_route-Safe (r ∷ []) = search safe_rules
one_route-Safe (r ∷ s ∷ rs) = λ l. tt

enabled_notification_route-Safe : Safe enabled_notification_route
unfolding enabled_notification_route
enabled_notification_route-Safe = search (safe_rules, one_route-Safe)

enqueue_incident_notification-Safe :
    (u : ℕ → String) (i : Incident) (event : EventType) (timestamp : ℕ) (source_event_id : String)
    → Safe (enqueue_incident_notification u i event timestamp source_event_id)
unfolding enqueue_incident_notification
enqueue_incident_notification-Safe u i event timestamp source_event_id =
    search (safe_rules, enabled_notification_route-Safe, insert_outbox_message-Safe) depth 9

insert_event-Safe :
    (u : ℕ → String) (i : String) (event : IncidentEventType) (timestamp : ℕ) (payload : Json)
    → Safe (insert_event u i event timestamp payload)
unfolding insert_event
insert_event-Safe u i event timestamp payload =
    search (safe_rules, Safe-elsewhere, λ (l : Ledger). refl {a = l.outbox}) depth 9

insert_incident-Safe : (i : Incident) → Safe (insert_incident i)
unfolding insert_incident
insert_incident-Safe i =
    search (safe_rules, Safe-elsewhere, λ (l : Ledger). refl {a = l.outbox}) depth 9

update_incident-Safe : (i : String) (f : Incident → Incident) → Safe (update_incident i f)
update_incident-Safe i f = Safe-elsewhere _ (λ l. refl)

announce-Safe :
    (u : ℕ → String) (i : Incident) (event : IncidentEventType) (message : Option EventType)
    (timestamp : ℕ) (payload : Json)
    → Safe (announce u i event message timestamp payload)
unfolding announce
announce-Safe u i event none timestamp payload = search (safe_rules, insert_event-Safe)
announce-Safe u i event (some message) timestamp payload =
    search (safe_rules, insert_event-Safe, enqueue_incident_notification-Safe) depth 9

emit_found-Safe :
    (u : ℕ → String) (a : Alert) (timestamp : ℕ) (found : Option Incident)
    → Safe (emit_found u a timestamp found)
unfolding emit_found
emit_found-Safe u a timestamp none =
    search (safe_rules, insert_incident-Safe, announce-Safe) depth 9
emit_found-Safe u a timestamp (some i) =
    search (safe_rules, update_incident-Safe, announce-Safe) depth 9

pub emit-Safe : (u : ℕ → String) (a : Alert) (timestamp : ℕ) → Safe (emit u a timestamp)
unfolding emit
emit-Safe u a timestamp = search (safe_rules, check_alert-Safe, emit_found-Safe) depth 9

ruleset action_rules = (
  safe_rules, action_text-Safe, action_sha256-Safe, resolution_outcome-Safe, exact_incident-Safe,
  update_incident-Safe, insert_event-Safe, announce-Safe,
)

acknowledge_exact-Safe :
    (h : Host) (i : String) (a : Action) (timestamp : ℕ) → Safe (acknowledge_exact h i a timestamp)
unfolding acknowledge_exact
acknowledge_exact-Safe h i a timestamp = search action_rules depth 12

pub acknowledge-Safe :
    (h : Host) (i actor note expected : String) (timestamp : ℕ)
    → Safe (acknowledge h i actor note expected timestamp)
unfolding acknowledge
acknowledge-Safe h i actor note expected timestamp =
    search (action_rules, acknowledge_exact-Safe) depth 9

resolve_exact-Safe :
    (h : Host) (i : String) (a : Action) (outcome : String) (timestamp : ℕ)
    → Safe (resolve_exact h i a outcome timestamp)
unfolding resolve_exact
resolve_exact-Safe h i a outcome timestamp = search action_rules depth 12

pub resolve-Safe :
    (h : Host) (i actor note outcome expected : String) (timestamp : ℕ)
    → Safe (resolve h i actor note outcome expected timestamp)
unfolding resolve
resolve-Safe h i actor note outcome expected timestamp =
    search (action_rules, resolve_exact-Safe) depth 9

interrupt_runs-Safe :
    (alive : ℕ → Bool) (boot : String) (timestamp : ℕ) (js : List JobRun)
    → Safe (interrupt_runs alive boot timestamp js)
unfolding interrupt_runs
interrupt_runs-Safe alive boot timestamp [] = search safe_rules
interrupt_runs-Safe alive boot timestamp (j ∷ js) =
    search
      (
        safe_rules,
        Safe-elsewhere,
        λ (l : Ledger). refl {a = l.outbox},
        interrupt_runs-Safe alive boot timestamp js,
      )
      depth 9

insert_job-Safe : (j : JobRun) → Safe (insert_job j)
unfolding insert_job
insert_job-Safe j = search (safe_rules, Safe-elsewhere, λ (l : Ledger). refl {a = l.outbox}) depth 9

pub begin_job-Safe :
    (u : ℕ → String) (alive : ℕ → Bool) (job_name target : String) (pid : ℕ) (boot : String)
    (timestamp : ℕ)
    → Safe (begin_job u alive job_name target pid boot timestamp)
unfolding begin_job
begin_job-Safe u alive job_name target pid boot timestamp =
    search (check_rules, interrupt_runs-Safe, insert_job-Safe) depth 14

pub finish_job-Safe :
    (run_id : String) (outcome : JobOutcome) (detail : String) (payload : Fields) (timestamp : ℕ)
    → Safe (finish_job run_id outcome detail payload timestamp)
unfolding finish_job
finish_job-Safe run_id outcome detail payload timestamp =
    search (check_rules, Safe-elsewhere, λ (l : Ledger). refl {a = l.outbox}) depth 12
