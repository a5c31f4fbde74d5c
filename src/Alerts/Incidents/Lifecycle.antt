-- ===== src/Alerts/Incidents/Lifecycle.antt =====
-- `AlertStore.emit` and `_insert_event` of src/aios/alerts.py: a symptom opens, repeats or reopens
-- the incident of its deduplication key.
use Prim.Native.String.{◌++◌ as str_append}
use alpha_agent.Base.{
  ltb, ℕ, ◌+◌, ◌||◌, not, Bool, true, false, Option, none, some, [], ◌∷◌, ◌++◌, String, str_eq, ltb,
  leb, if◌then◌else◌, first, exists, update,
}
use alpha_agent.Json.{Json, obj}
use alpha_agent.Alerts.Schema.{
  Severity, EventType, opened, reopened, escalated, Incident, IncidentEvent, IncidentState,
  IncidentEventType, Alert, rank,
}
use alpha_agent.Alerts.Payload.{payload_json}
use alpha_agent.Alerts.Ledger.{Tx, ◌>>=◌, ◌>>◌, pure, raise_if, gets, modify, fresh_id, integrity}
use alpha_agent.Alerts.Checks.{check_text}
use alpha_agent.Alerts.Incidents.Notify.{enqueue_incident_notification}

-- `_higher_severity`
unfoldable pub higher_severity : Severity → Severity → Severity
higher_severity left right = if leb (rank right) (rank left) then left else right

-- `_validate_alert`
unfoldable pub check_alert : Alert → Tx (Unit {0})
unfolding check_text
check_alert a = do
  check_text a.alert_code
  check_text a.title
  check_text a.body
  check_text a.dedup_key
  check_text a.source_job

-- `_insert_event`, under the primary key and the reference to the incident.
unfoldable pub insert_event :
    (ℕ → String) → (incident_id : String) → IncidentEventType → ℕ → Json → Tx String
insert_event u incident_id event_type timestamp payload = do
  event_id ← fresh_id u (str_append "evt-")
  raise_if
      (← gets (λ l.
        exists (λ (e : IncidentEvent). str_eq e.event_id event_id) l.incident_events
        || not (exists (λ (i : Incident). str_eq i.incident_id incident_id) l.incidents)))
      integrity
  modify (λ l. record l {
    incident_events =
        l.incident_events
        ++ record {
          event_id = event_id;
          incident_id = incident_id;
          event_type = event_type;
          created_at = timestamp;
          payload = payload;
        }
          ∷ [];
  })
  pure event_id

abbrev pub is_incident : String → Incident → Bool
is_incident i row = str_eq row.incident_id i

abbrev pub has_fingerprint : String → Incident → Bool
has_fingerprint f row = str_eq row.fingerprint f

-- The row of a symptom that is seen for the first time.
abbrev pub open_incident : Alert → ℕ → String → Incident
open_incident a timestamp incident_id = record {
  incident_id = incident_id;
  fingerprint = a.dedup_key;
  alert_code = a.alert_code;
  severity = a.severity;
  title = a.title;
  body = a.body;
  source_job = a.source_job;
  state = IncidentState.live;
  first_seen_at = timestamp;
  last_seen_at = timestamp;
  occurrence_count = 1;
  payload = payload_json (obj a.payload);
  acknowledged_at = none;
  resolved_at = none;
  notifications_enabled = a.notify;
}

-- The row of a symptom that is seen again.
abbrev pub repeat_incident : Alert → ℕ → Incident → Incident
repeat_incident a timestamp i = record i {
  alert_code = a.alert_code;
  severity = higher_severity i.severity a.severity;
  title = a.title;
  body = a.body;
  source_job = a.source_job;
  state = IncidentState.live;
  last_seen_at = timestamp;
  occurrence_count = i.occurrence_count + 1;
  payload = payload_json (obj a.payload);
  acknowledged_at = none;
  resolved_at = none;
}

abbrev pub is_live : IncidentState → Bool
is_live IncidentState.live = true
is_live _ = false

-- `event_type` and `notification_event` of a symptom that is seen again.
abbrev pub repeat_event : Incident → IncidentEventType
repeat_event i = if is_live i.state then IncidentEventType.repeated else IncidentEventType.reopened

abbrev pub repeat_notification : Alert → Incident → Option EventType
repeat_notification a i =
    if is_live i.state
    then (if ltb (rank i.severity) (rank (higher_severity i.severity a.severity))
        then some escalated
        else none)
    else some reopened

-- INSERT INTO incidents, under the primary key and UNIQUE(fingerprint).
unfoldable pub insert_incident : Incident → Tx (Unit {0})
insert_incident i = do
  raise_if
      (← gets (λ l.
        exists (λ r. is_incident i.incident_id r || has_fingerprint i.fingerprint r) l.incidents))
      integrity
  modify (λ l. record l { incidents = l.incidents ++ i ∷ [] })

abbrev pub update_incident : String → (Incident → Incident) → Tx (Unit {0})
update_incident i f = modify (λ l. record l { incidents = update (is_incident i) f l.incidents })

-- The event, and the message if the row asks for one.
unfoldable pub announce :
    (ℕ → String) → Incident → IncidentEventType → Option EventType → ℕ → Json → Tx (Unit {0})
unfolding insert_event enqueue_incident_notification
announce u i event_type none timestamp payload =
    insert_event u i.incident_id event_type timestamp payload >>= λ _. pure tt
announce u i event_type (some event) timestamp payload =
    insert_event u i.incident_id event_type timestamp payload >>= λ event_id.
    (if i.notifications_enabled
      then (enqueue_incident_notification u i event timestamp event_id >>= λ _. pure tt)
      else pure tt)

unfoldable pub emit_found : (ℕ → String) → Alert → ℕ → Option Incident → Tx Incident
unfolding insert_incident announce higher_severity payload_json
emit_found u a timestamp none = do
  incident_id ← fresh_id u (str_append "inc-")
  let i = open_incident a timestamp incident_id
  insert_incident i
  announce u i IncidentEventType.opened (some opened) timestamp (payload_json (obj a.payload))
  pure i
emit_found u a timestamp (some existing) = do
  let i = repeat_incident a timestamp existing
  update_incident existing.incident_id (repeat_incident a timestamp)
  announce u i (repeat_event existing) (repeat_notification a existing) timestamp
      (payload_json (obj a.payload))
  pure i

-- `emit`
unfoldable pub emit : (ℕ → String) → Alert → ℕ → Tx Incident
unfolding check_alert emit_found
emit u a timestamp = do
  check_alert a
  found ← gets (λ l. first (has_fingerprint a.dedup_key) l.incidents)
  emit_found u a timestamp found
