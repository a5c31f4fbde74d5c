-- ===== src/Alerts/Schema.antt =====
-- The tables of the operations ledger (`AlertStore._initialize` and the data classes of
-- src/aios/alerts.py): enumerations for the columns that a CHECK restricts, and a record for
-- each row. A time is a number of seconds: the ledger writes UTC texts of one width, to the
-- second, whose order as texts is the order of the moments.
use alpha_agent.Base.{ℕ, Bool, true, false, Option, String}
use alpha_agent.Json.{Json, Fields}

pub data Severity : Type 0 where
  info warning critical : Severity

pub data EventType : Type 0 where
  active opened reopened escalated resolved test : EventType

pub data MessageState : Type 0 where
  held pending leased delivered dead_letter : MessageState

pub data DeliveryState : Type 0 where
  started succeeded retryable_failure permanent_failure ambiguous abandoned : DeliveryState

pub data RouteState : Type 0 where
  enabled disabled : RouteState

pub data RouteEventType : Type 0 where
  enabled disabled reconfigured : RouteEventType

-- `live` is the state that the table spells 'open'.
pub data IncidentState : Type 0 where
  live acknowledged resolved : IncidentState

pub data IncidentEventType : Type 0 where
  opened repeated acknowledged resolved reopened : IncidentEventType

pub data JobState : Type 0 where
  running success failed interrupted : JobState

-- A row of `notification_outbox`.
pub record Message : Type 0 where
  pub notification_id : String
  pub idempotency_key : String
  pub incident_id : Option String
  pub source_event_id : Option String
  pub route_activation_id : Option String
  pub depends_on_notification_id : Option String
  pub event_type : EventType
  pub severity : Severity
  pub title : String
  pub body : String
  pub source_job : String
  pub payload : Json
  pub state : MessageState
  pub created_at : ℕ
  pub available_at : ℕ
  pub attempt_count : ℕ
  pub lease_token : Option String
  pub lease_expires_at : Option ℕ
  pub delivered_at : Option ℕ
  pub dead_lettered_at : Option ℕ
  pub last_error_type : Option String

-- A row of `notification_deliveries`.
pub record Delivery : Type 0 where
  pub delivery_id : String
  pub notification_id : String
  pub attempt_number : ℕ
  pub channel : String
  pub route_alias : String
  pub state : DeliveryState
  pub started_at : ℕ
  pub finished_at : Option ℕ
  pub provider_message_id : Option String
  pub provider_response : Json
  pub error_type : Option String
  pub retry_at : Option ℕ

-- `NotificationClaim`
pub record Claim : Type 0 where
  pub message : Message
  pub delivery : Delivery
  pub lease_token : String

-- A row of `notification_routes`.
pub record Route : Type 0 where
  pub route_id : String
  pub channel : String
  pub route_alias : String
  pub activation_id : String
  pub state : RouteState
  pub config_fingerprint : String
  pub enabled_at : Option ℕ
  pub disabled_at : Option ℕ
  pub updated_at : ℕ

-- A row of `notification_route_events`.
pub record RouteEvent : Type 0 where
  pub event_id : String
  pub route_id : String
  pub event_type : RouteEventType
  pub created_at : ℕ
  pub activation_id : String
  pub config_fingerprint : String

-- A row of `incidents`.
pub record Incident : Type 0 where
  pub incident_id : String
  pub fingerprint : String
  pub alert_code : String
  pub severity : Severity
  pub title : String
  pub body : String
  pub source_job : String
  pub state : IncidentState
  pub first_seen_at : ℕ
  pub last_seen_at : ℕ
  pub occurrence_count : ℕ
  pub payload : Json
  pub acknowledged_at : Option ℕ
  pub resolved_at : Option ℕ
  pub notifications_enabled : Bool

-- A row of `incident_events`.
pub record IncidentEvent : Type 0 where
  pub event_id : String
  pub incident_id : String
  pub event_type : IncidentEventType
  pub created_at : ℕ
  pub payload : Json

-- A row of `job_runs`.
pub record JobRun : Type 0 where
  pub run_id : String
  pub job_name : String
  pub state : JobState
  pub target_session : String
  pub started_at : ℕ
  pub finished_at : Option ℕ
  pub owner_pid : ℕ
  pub owner_boot_id : String
  pub detail : String
  pub payload : Json

-- `NotificationRequest`
pub record Request : Type 0 where
  pub idempotency_key : String
  pub event_type : EventType
  pub severity : Severity
  pub title : String
  pub body : String
  pub source_job : String
  pub payload : Fields
  pub incident_id : Option String
  pub source_event_id : Option String

-- `Alert`
pub record Alert : Type 0 where
  pub alert_code : String
  pub severity : Severity
  pub title : String
  pub body : String
  pub dedup_key : String
  pub source_job : String
  pub payload : Fields
  pub notify : Bool

abbrev pub is_pending : MessageState → Bool
is_pending pending = true
is_pending _ = false

abbrev pub is_leased : MessageState → Bool
is_leased leased = true
is_leased _ = false

abbrev pub is_delivered : MessageState → Bool
is_delivered delivered = true
is_delivered _ = false

abbrev pub is_dead_letter : MessageState → Bool
is_dead_letter dead_letter = true
is_dead_letter _ = false

abbrev pub is_started : DeliveryState → Bool
is_started started = true
is_started _ = false

abbrev pub is_enabled : RouteState → Bool
is_enabled enabled = true
is_enabled disabled = false

abbrev pub is_test : EventType → Bool
is_test test = true
is_test _ = false

abbrev pub is_resolved_event : EventType → Bool
is_resolved_event resolved = true
is_resolved_event _ = false

-- `CASE severity WHEN 'critical' THEN 0 WHEN 'warning' THEN 1 ELSE 2 END`
abbrev pub urgency : Severity → ℕ
urgency critical = 0
urgency warning = 1
urgency info = 2

-- The `rank` of `_higher_severity`.
abbrev pub rank : Severity → ℕ
rank info = 0
rank warning = 1
rank critical = 2
