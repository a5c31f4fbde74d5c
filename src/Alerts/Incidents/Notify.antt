-- ===== src/Alerts/Incidents/Notify.antt =====
-- `AlertStore._enqueue_incident_notification` and `_enabled_notification_route`: the message of an
-- incident event, held unless a route is enabled, and a recovery held unless the alarm of the same
-- cycle was or will be sent.
use Prim.Native.String.{◌++◌ as str_append}
use alpha_agent.Base.{
  ℕ, ◌&&◌, Bool, true, false, Option, none, some, List, [], ◌∷◌, String, str_eq, leb, if◌then◌else◌,
  is_none, select, latest,
}
use alpha_agent.Json.{str, int, end, field}
use alpha_agent.Alerts.Schema.{
  Severity, info, EventType, active, opened, reopened, escalated, resolved, test, Message,
  MessageState, pending, leased, delivered, Route, Incident, IncidentEvent, IncidentEventType,
  IncidentState, Request, is_enabled,
}
use alpha_agent.Alerts.Ledger.{Ledger, Tx, ◌>>=◌, pure, raise, gets, is_id, many_routes}
use alpha_agent.Alerts.Outbox.Enqueue.{insert_outbox_message}

abbrev pub event_text : EventType → String
event_text active = "active"
event_text opened = "opened"
event_text reopened = "reopened"
event_text escalated = "escalated"
event_text resolved = "resolved"
event_text test = "test"

abbrev pub state_text : IncidentState → String
state_text IncidentState.live = "open"
state_text IncidentState.acknowledged = "acknowledged"
state_text IncidentState.resolved = "resolved"

abbrev pub one_route : List Route → Tx (Option Route)
one_route [] = pure none
one_route (r ∷ []) = pure (some r)
one_route (r ∷ s ∷ rest) = raise many_routes

-- `_enabled_notification_route`
unfoldable pub enabled_notification_route : Tx (Option Route)
enabled_notification_route = do
  rows ← gets (λ l. select (λ r. is_enabled r.state) l.routes)
  one_route rows

-- The severity, title and body of the message, by the event.
abbrev pub message_severity : EventType → Incident → Severity
message_severity resolved i = info
message_severity event i = i.severity

abbrev pub message_title : EventType → Incident → String
message_title resolved i = str_append "Recovered: " i.title
message_title reopened i = str_append "Reopened: " i.title
message_title escalated i = str_append "Escalated: " i.title
message_title active i = str_append "Active incident: " i.title
message_title event i = i.title

abbrev pub message_body : EventType → Incident → String
message_body resolved i = "The previously reported operating condition is now resolved."
message_body event i = i.body

unfoldable pub incident_request : Incident → EventType → (source_event_id : String) → Request
incident_request i event source_event_id = record {
  idempotency_key = str_append "incident-event:" source_event_id;
  event_type = event;
  severity = message_severity event i;
  title = message_title event i;
  body = message_body event i;
  source_job = i.source_job;
  payload = field "incident" i.payload (
      field "incident_event" (str (event_text event)) (
        field "incident_state" (str (state_text i.state))
          (field "occurrence_count" (int false i.occurrence_count) end)));
  incident_id = some i.incident_id;
  source_event_id = some source_event_id;
}

-- The last event that opened the incident.
abbrev is_anchor : String → IncidentEvent → Bool
is_anchor incident_id e = str_eq e.incident_id incident_id && opens e.event_type
  where
    opens : IncidentEventType → Bool
    opens IncidentEventType.opened = true
    opens IncidentEventType.reopened = true
    opens _ = false

abbrev pub is_alarm : EventType → Bool
is_alarm active = true
is_alarm opened = true
is_alarm reopened = true
is_alarm escalated = true
is_alarm _ = false

abbrev pub is_sendable : MessageState → Bool
is_sendable pending = true
is_sendable leased = true
is_sendable delivered = true
is_sendable _ = false

abbrev pub is_dependency : String → String → ℕ → Message → Bool
is_dependency incident_id activation_id since m =
    is_id incident_id m.incident_id
    && is_id activation_id m.route_activation_id
    && is_alarm m.event_type
    && is_sendable m.state
    && leb since m.created_at

-- The alarm of the current cycle that a recovery has to wait for.
unfoldable pub recovery_dependency : String → String → Ledger → Option String
recovery_dependency incident_id activation_id l =
    elim (latest (λ e. e.created_at) (select (is_anchor incident_id) l.incident_events)) [
      | none ↦ none
      | some anchor ↦
          elim (latest (λ m. m.created_at)
            (select (is_dependency incident_id activation_id anchor.created_at) l.outbox)) [
              | none ↦ none
              | some m ↦ some m.notification_id
            ]
    ]

-- Whether the message is held, under which activation, after which message, and why.
pub record Routing : Type 0 where
  pub hold : Bool
  pub activation_id : Option String
  pub depends_on : Option String
  pub hold_reason : Option String

abbrev pub route_recovery : String → Option String → Routing
route_recovery activation_id dependency = record {
  hold = is_none dependency;
  activation_id = some activation_id;
  depends_on = dependency;
  hold_reason = if is_none dependency then some "active_notification_not_delivered" else none;
}

unfoldable pub choose_routing : EventType → String → Ledger → Option Route → Routing
unfolding recovery_dependency
choose_routing event incident_id l none = record {
  hold = true;
  activation_id = none;
  depends_on = none;
  hold_reason = some "route_disabled";
}
choose_routing resolved incident_id l (some r) =
    route_recovery r.activation_id (recovery_dependency incident_id r.activation_id l)
choose_routing event incident_id l (some r) = record {
  hold = false;
  activation_id = some r.activation_id;
  depends_on = none;
  hold_reason = none;
}

-- `_enqueue_incident_notification`
unfoldable pub enqueue_incident_notification :
    (ℕ → String) → Incident → EventType → (timestamp : ℕ) (source_event_id : String) → Tx Message
unfolding enabled_notification_route incident_request choose_routing insert_outbox_message
enqueue_incident_notification u i event timestamp source_event_id = do
  route ← enabled_notification_route
  way ← gets (λ l. choose_routing event i.incident_id l route)
  insert_outbox_message u (incident_request i event source_event_id) timestamp way.hold
      way.activation_id way.depends_on way.hold_reason
