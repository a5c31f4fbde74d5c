-- ===== src/Alerts/Incidents/Actions.antt =====
-- `AlertStore.acknowledge` and `resolve` of src/aios/alerts.py, and the evidence hash that binds an
-- operator's action to what the operator has seen. The digest (`hashlib.sha256` of a canonical
-- text) and the ISO text of a moment are parameters.
use alpha_agent.Base.{
  ℕ, ◌||◌, not, Bool, true, false, Option, none, some, String, str_eq, ltb, first, strip, is_blank,
  length_text, lower, is_lower_hex,
}
use alpha_agent.Json.{Json, null, bool, str, int, obj, end, field, Fields}
use alpha_agent.Alerts.Schema.{
  Severity, info, warning, critical, resolved, Incident, IncidentState, IncidentEventType,
}
use alpha_agent.Alerts.Ledger.{
  Tx, ◌>>=◌, ◌>>◌, pure, raise_if, gets, or_raise, text_required, text_too_long, bad_fingerprint,
  inexact_reference, bad_outcome, already_resolved, already_acknowledged, evidence_changed,
}
use alpha_agent.Alerts.Incidents.Notify.{state_text}
use alpha_agent.Alerts.Incidents.Lifecycle.{insert_event, announce, is_incident, update_incident}

-- What the ledger takes from Python's library.
pub record Host : Type 0 where
  pub uuid : ℕ → String
  pub sha256 : Json → String
  pub iso : ℕ → String

abbrev severity_text : Severity → String
severity_text info = "info"
severity_text warning = "warning"
severity_text critical = "critical"

abbrev optional_time : Host → Option ℕ → Json
optional_time h none = null
optional_time h (some t) = str (h.iso t)

-- The projection that is hashed, its members in key order. The stored payload stands in it as
-- the value of its canonical text.
unfoldable pub evidence_document : Host → Incident → Json
evidence_document h i = obj (
    field "acknowledged_at" (optional_time h i.acknowledged_at) (
      field "body" (str i.body) (
        field "code" (str i.alert_code) (
          field "contract" (str "aios-incident-evidence.v1") (
            field "fingerprint" (str i.fingerprint) (
              field "first_seen_at" (str (h.iso i.first_seen_at)) (
                field "incident_id" (str i.incident_id) (
                  field "last_seen_at" (str (h.iso i.last_seen_at)) (
                    field "notifications_enabled" (bool i.notifications_enabled) (
                      field "occurrence_count" (int false i.occurrence_count) (
                        field "payload_json" i.payload (
                          field "resolved_at" (optional_time h i.resolved_at) (
                            field "severity" (str (severity_text i.severity)) (
                              field "source_job" (str i.source_job) (
                                field "state" (str (state_text i.state))
                                  (field "title" (str i.title) end))))))))))))))))

-- `_incident_evidence_sha256`
unfoldable pub evidence_sha256 : Host → Incident → String
unfolding evidence_document
evidence_sha256 h i = h.sha256 (evidence_document h i)

-- `_incident_action_text`
unfoldable pub action_text : String → Tx String
unfolding strip is_blank length_text
action_text value = do
  let text = strip value
  raise_if (is_blank text) text_required
  raise_if (ltb 4000 (length_text text)) text_too_long
  pure text

-- `_incident_sha256`
unfoldable pub action_sha256 : String → Tx String
unfolding action_text lower is_lower_hex
action_sha256 value = do
  text ← action_text value
  let digest = lower text
  raise_if (not (is_lower_hex 64 digest)) bad_fingerprint
  pure digest

-- `_manual_incident_resolution_outcome`
unfoldable pub resolution_outcome : String → Tx String
unfolding action_text
resolution_outcome value = do
  text ← action_text value
  raise_if (not (str_eq text "verified_recovery" || str_eq text "false_positive")) bad_outcome
  pure text

-- `_resolve_incident_id` with `allow_prefix=False`.
unfoldable pub exact_incident : String → Tx Incident
unfolding strip is_blank
exact_incident reference = do
  let value = strip reference
  raise_if (is_blank value) text_required
  found ← gets (λ l. first (is_incident value) l.incidents)
  or_raise found inexact_reference

-- An action of an operator on an incident, its texts normalized.
pub record Action : Type 0 where
  pub actor : String
  pub note : String
  pub expected_evidence : String

-- `_incident_action_payload_json`: the proof without its own hash, then with it. `outcome` and
-- `transitioned` are the members that only a resolution sets.
abbrev proof_members :
    Host
    → (incident_id event : String) (timestamp : ℕ) (a : Action) (outcome resulting : Json)
    → (proof_hash : Fields → Fields) (transitioned : Fields) → Fields
proof_members h incident_id event timestamp a outcome resulting proof_hash transitioned =
    field "actor" (str a.actor) (
      field "contract" (str "aios-incident-action.v1") (
        field "created_at" (str (h.iso timestamp)) (
          field "event_type" (str event) (
            field "expected_evidence_sha256" (str a.expected_evidence) (
              field "incident_id" (str incident_id) (
                field "note" (str a.note) (
                  proof_hash (
                    field "resolution_outcome" outcome
                      (field "resulting_evidence_sha256" resulting transitioned)))))))))

unfoldable pub action_payload :
    Host
    → (incident_id event : String) (timestamp : ℕ) (a : Action) (outcome resulting : Json)
    → (transitioned : Fields) → Json
action_payload h incident_id event timestamp a outcome resulting transitioned =
    let proof = λ (hash : Fields → Fields).
      proof_members h incident_id event timestamp a outcome resulting hash transitioned in
    let digest = h.sha256 (obj (proof (λ rest. rest))) in
    obj (
      field "_aios_incident_action_audit_v1"
        (obj (proof (λ rest. field "proof_sha256" (str digest) rest))) end)

abbrev pub is_resolved : IncidentState → Bool
is_resolved IncidentState.resolved = true
is_resolved _ = false

abbrev pub is_acknowledged : IncidentState → Bool
is_acknowledged IncidentState.acknowledged = true
is_acknowledged _ = false

abbrev pub mark_acknowledged : ℕ → Incident → Incident
mark_acknowledged timestamp i = record i {
  state = IncidentState.acknowledged;
  acknowledged_at = some timestamp;
}

abbrev pub mark_resolved : ℕ → Incident → Incident
mark_resolved timestamp i = record i {
  state = IncidentState.resolved;
  resolved_at = some timestamp;
}

-- The transaction of an acknowledgement whose arguments are valid.
unfoldable pub acknowledge_exact :
    Host → (incident_id : String) (a : Action) (timestamp : ℕ) → Tx Incident
unfolding exact_incident evidence_sha256 action_payload insert_event
acknowledge_exact h incident_id a timestamp = do
  row ← exact_incident incident_id
  raise_if (is_resolved row.state) already_resolved
  raise_if (is_acknowledged row.state) already_acknowledged
  raise_if (not (str_eq (evidence_sha256 h row) a.expected_evidence)) evidence_changed
  update_incident row.incident_id (mark_acknowledged timestamp)
  let updated = mark_acknowledged timestamp row
  event_id ← insert_event h.uuid row.incident_id IncidentEventType.acknowledged timestamp (
      action_payload h row.incident_id "acknowledged" timestamp a null
        (str (evidence_sha256 h updated)) end)
  pure updated

-- `acknowledge`
unfoldable pub acknowledge :
    Host → (incident_id actor note expected_evidence_sha256 : String) (timestamp : ℕ) → Tx Incident
unfolding action_text action_sha256 acknowledge_exact
acknowledge h incident_id actor note expected timestamp = do
  actor' ← action_text actor
  note' ← action_text note
  expected' ← action_sha256 expected
  let a : Action = record { actor = actor'; note = note'; expected_evidence = expected' }
  acknowledge_exact h incident_id a timestamp

-- The transaction of a resolution whose arguments are valid.
unfoldable pub resolve_exact :
    Host → (incident_id : String) (a : Action) (outcome : String) (timestamp : ℕ) → Tx Incident
unfolding exact_incident evidence_sha256 action_payload announce
resolve_exact h incident_id a outcome timestamp = do
  row ← exact_incident incident_id
  raise_if (is_resolved row.state) already_resolved
  raise_if (not (str_eq (evidence_sha256 h row) a.expected_evidence)) evidence_changed
  update_incident row.incident_id (mark_resolved timestamp)
  let updated = mark_resolved timestamp row
  announce h.uuid updated IncidentEventType.resolved (some resolved) timestamp (
      action_payload h row.incident_id "resolved" timestamp a (str outcome)
        (str (evidence_sha256 h updated)) (field "transitioned_state" (bool true) end))
  pure updated

-- `resolve`
unfoldable pub resolve :
    Host
    → (incident_id actor note outcome expected_evidence_sha256 : String) (timestamp : ℕ)
    → Tx Incident
unfolding action_text resolution_outcome action_sha256 resolve_exact
resolve h incident_id actor note outcome expected timestamp = do
  actor' ← action_text actor
  note' ← action_text note
  outcome' ← resolution_outcome outcome
  expected' ← action_sha256 expected
  let a : Action = record { actor = actor'; note = note'; expected_evidence = expected' }
  resolve_exact h incident_id a outcome' timestamp
