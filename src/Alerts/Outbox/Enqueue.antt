-- ===== src/Alerts/Outbox/Enqueue.antt =====
-- `AlertStore._insert_outbox_message`, `enqueue_notification` and `hold_notification`.
use alpha_agent.Base.{
  ℕ, ◌&&◌, ◌||◌, not, Bool, Option, none, some, [], ◌∷◌, ◌++◌, String, str_eq, ◌==◌, if◌then◌else◌,
  is_some, is_none, first, exists, update,
}
use Prim.Native.String.{◌++◌ as str_append}
use alpha_agent.Json.{json_eq, obj}
use alpha_agent.Alerts.Schema.{
  EventType, active, opened, reopened, escalated, resolved, test, Message, held, pending, Request,
  urgency, is_leased, is_delivered, Incident, IncidentEvent,
}
use alpha_agent.Alerts.Payload.{payload_json}
use alpha_agent.Alerts.Ledger.{
  Ledger, Tx, ◌>>=◌, ◌>>◌, pure, raise, raise_if, gets, modify, or_raise, fresh_id, option_eq,
  is_id, integrity, key_conflict, source_event_without_incident, leased_cannot_hold,
  unknown_reference,
}
use alpha_agent.Alerts.Checks.{check_text, check_optional}
use alpha_agent.Alerts.Outbox.Lookup.{resolve_notification_id}

-- `_validate_notification_request`; the types of the severity, of the event and of the payload
-- are the record's.
unfoldable pub check_request : Request → Tx (Unit {0})
unfolding check_text check_optional
check_request r = do
  check_optional r.incident_id
  check_optional r.source_event_id
  raise_if (is_some r.source_event_id && is_none r.incident_id) source_event_without_incident
  check_text r.idempotency_key
  check_text r.title
  check_text r.body
  check_text r.source_job

abbrev pub event_number : EventType → ℕ
event_number active = 0
event_number opened = 1
event_number reopened = 2
event_number escalated = 3
event_number resolved = 4
event_number test = 5

-- `observed == expected`
unfoldable pub same_content : Message → Message → Bool
unfolding json_eq
same_content a b =
    option_eq a.incident_id b.incident_id
    && option_eq a.source_event_id b.source_event_id
    && option_eq a.route_activation_id b.route_activation_id
    && option_eq a.depends_on_notification_id b.depends_on_notification_id
    && event_number a.event_type == event_number b.event_type
    && urgency a.severity == urgency b.severity
    && str_eq a.title b.title
    && str_eq a.body b.body
    && str_eq a.source_job b.source_job
    && json_eq a.payload b.payload

-- The row that a request asks for, under an identifier that is yet to be drawn.
unfoldable pub new_message :
    Request
    → (timestamp : ℕ) (hold : Bool) (route_activation_id depends_on last_error : Option String)
    → String
    → Message
unfolding payload_json
new_message r timestamp hold route_activation_id depends_on last_error id = record {
  notification_id = id;
  idempotency_key = r.idempotency_key;
  incident_id = r.incident_id;
  source_event_id = r.source_event_id;
  route_activation_id = route_activation_id;
  depends_on_notification_id = depends_on;
  event_type = r.event_type;
  severity = r.severity;
  title = r.title;
  body = r.body;
  source_job = r.source_job;
  payload = payload_json (obj r.payload);
  state = if hold then held else pending;
  created_at = timestamp;
  available_at = timestamp;
  attempt_count = 0;
  lease_token = none;
  lease_expires_at = none;
  delivered_at = none;
  dead_lettered_at = none;
  last_error_type = last_error;
}

-- The table's constraints on a new row: the primary key, the two UNIQUE columns, and the three
-- REFERENCES.
abbrev pub clashes : Message → Message → Bool
clashes m n =
    str_eq n.notification_id m.notification_id
    || str_eq n.idempotency_key m.idempotency_key
    || (is_some m.source_event_id && option_eq n.source_event_id m.source_event_id)

abbrev pub dangles : Message → Ledger → Bool
dangles m l =
    (is_some m.incident_id
      && not (exists (λ (i : Incident). is_id i.incident_id m.incident_id) l.incidents))
    || (is_some m.source_event_id
        && not
            (exists (λ (e : IncidentEvent). is_id e.event_id m.source_event_id) l.incident_events))
    || (is_some m.depends_on_notification_id
        && not (
            exists (λ (d : Message). is_id d.notification_id m.depends_on_notification_id)
              l.outbox))

unfoldable pub insert_message : Message → Tx Message
insert_message m = do
  raise_if (← gets (λ l. exists (clashes m) l.outbox || dangles m l)) integrity
  modify (λ l. record l { outbox = l.outbox ++ m ∷ [] })
  pure m

-- The row with the request's key, if there is one, must be the request's own.
unfoldable pub insert_or_match : (ℕ → String) → (String → Message) → Option Message → Tx Message
unfolding same_content insert_message
insert_or_match u make (some existing) =
    if same_content existing (make existing.notification_id)
    then pure existing
    else raise key_conflict
insert_or_match u make none = do
  id ← fresh_id u (str_append "notification-")
  insert_message (make id)

-- `_insert_outbox_message`
unfoldable pub insert_outbox_message :
    (ℕ → String)
    → Request
    → (timestamp : ℕ) (hold : Bool) (route_activation_id depends_on last_error : Option String)
    → Tx Message
unfolding check_request new_message insert_or_match
insert_outbox_message u r timestamp hold route_activation_id depends_on last_error = do
  check_request r
  existing ← gets (λ l. first (λ m. str_eq m.idempotency_key r.idempotency_key) l.outbox)
  insert_or_match u (new_message r timestamp hold route_activation_id depends_on last_error)
      existing

-- `enqueue_notification`; its `_validate_notification_request` comes once more inside.
unfoldable pub enqueue_notification : (ℕ → String) → Request → (hold : Bool) → ℕ → Tx Message
unfolding check_request insert_outbox_message
enqueue_notification u r hold timestamp = do
  check_request r
  insert_outbox_message u r timestamp hold none none none

abbrev pub put_on_hold : String → Message → Message
put_on_hold reason m = record m {
  state = held;
  lease_token = none;
  lease_expires_at = none;
  dead_lettered_at = none;
  last_error_type = some reason;
}

-- The transaction of a hold, once the reference is resolved.
unfoldable pub hold_resolved : (resolved_id reason : String) → Tx Message
hold_resolved resolved_id reason = do
  found ← gets (λ l. first (λ m. str_eq m.notification_id resolved_id) l.outbox)
  row ← or_raise found unknown_reference
  raise_if (is_leased row.state) leased_cannot_hold
  if is_delivered row.state
      then pure row
      else (modify (λ l. record l {
        outbox = update (λ m. str_eq m.notification_id resolved_id) (put_on_hold reason) l.outbox;
      })
          >> pure (put_on_hold reason row))

-- `hold_notification`
unfoldable pub hold_notification : String → (reason : String) → Tx Message
unfolding check_text resolve_notification_id hold_resolved
hold_notification notification_id reason = do
  check_text reason
  resolved_id ← resolve_notification_id notification_id
  hold_resolved resolved_id reason
