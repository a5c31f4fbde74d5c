-- ===== src/Alerts/Effects/Symptom.antt =====
-- A symptom that is seen again.
use alpha_agent.Alerts.Effects.Elsewhere.{announce-Leaves, first-updated}
use alpha_agent.Alerts.Payload.{payload_json}
use alpha_agent.Json.{obj}
use alpha_agent.Alerts.Reads.{check_alert-Reads}
use alpha_agent.Base.{
  eq_refl, ℕ, ◌+◌, ◌≤◌, some, String, ◌≡◌, refl, ap, inl, inr, leb, arith, Bool-cases,
}
use alpha_agent.Alerts.Ledger.{Ledger, ok}
use alpha_agent.Base.{first, update}
use alpha_agent.Alerts.Schema.{Incident, IncidentState, Alert, Severity, rank}
use alpha_agent.Alerts.Incidents.Lifecycle.{
  emit, emit_found, higher_severity, has_fingerprint, is_incident, repeat_incident, repeat_event,
  repeat_notification, announce, check_alert,
}
use alpha_agent.Alerts.Incidents.Notify.{}
use alpha_agent.Alerts.Outbox.Enqueue.{}
use alpha_agent.Alerts.Ends.{Ends, Ends-ok, Ends-bind, Ends-after, Ends-map}

higher_severity-bounds :
    (a b : Severity) → (rank a ≤ rank (higher_severity a b)) × (rank b ≤ rank (higher_severity a b))
unfolding higher_severity
higher_severity-bounds a b = elim (Bool-cases (leb (rank b) (rank a))) [
  | inl e ↦ rw e (omega arith, ground (arith, e))
  | inr e ↦ rw e (ground (arith, e), omega arith)
]

-- The row that is found again after a symptom is seen again.
abbrev Repeated : Alert → ℕ → Incident → Incident → Ledger → Type 0
Repeated a t old i l =
    (i ≡ repeat_incident a t old) × (first (has_fingerprint a.dedup_key) l.incidents ≡ some i)

emit_found-Repeated :
    (u : ℕ → String) (a : Alert) (t : ℕ) (l : Ledger) (old : Incident)
    → first (has_fingerprint a.dedup_key) l.incidents ≡ some old
    → Ends (Repeated a t old) (emit_found u a t (some old) l)
unfolding emit_found
emit_found-Repeated u a t l old e =
    Ends-bind (Repeated a t old)
      (announce u (repeat_incident a t old) (repeat_event old) (repeat_notification a old) t
        (payload_json (obj a.payload)))
      _ l2
      (Ends-map (λ _ l'. l'.incidents ≡ l2.incidents) _ _
        (λ _ l' k. (
          refl,
          rw k (
              first-updated (has_fingerprint a.dedup_key) (is_incident old.incident_id)
                (repeat_incident a t) l.incidents old (λ i. refl) e (eq_refl old.incident_id)),
        ))
        (announce-Leaves u (repeat_incident a t old) (repeat_event old) (repeat_notification a old)
          t (payload_json (obj a.payload)) l2))
  where
    l2 : Ledger
    l2 = record l {
      incidents = update (is_incident old.incident_id) (repeat_incident a t) l.incidents;
    }

emit-Repeated :
    (u : ℕ → String) (a : Alert) (t : ℕ) (l : Ledger) (old : Incident)
    → first (has_fingerprint a.dedup_key) l.incidents ≡ some old
    → Ends (Repeated a t old) (emit u a t l)
unfolding emit
emit-Repeated u a t l old e =
    Ends-after (Repeated a t old) (check_alert a) _ l (check_alert-Reads a)
      λ _. rw e (emit_found-Repeated u a t l old e)

-- When a symptom is seen whose incident is recorded, the incident that is returned keeps its
-- identifier and the time it was first seen, is open, counts one more occurrence, and has a
-- severity that is neither below the one it had nor below that of the symptom; and in the ledger
-- that this leaves, this row is what the symptom's key finds.
pub emit_repeats :
    (u : ℕ → String) (a : Alert) (t : ℕ) (l : Ledger) (old i : Incident) (l' : Ledger)
    → first (has_fingerprint a.dedup_key) l.incidents ≡ some old
    → emit u a t l ≡ ok (i, l')
    → (i.incident_id ≡ old.incident_id)
      × (i.first_seen_at ≡ old.first_seen_at)
      × (i.state ≡ IncidentState.live)
      × (i.occurrence_count ≡ old.occurrence_count + 1)
      × (rank old.severity ≤ rank i.severity)
      × (rank a.severity ≤ rank i.severity)
      × (first (has_fingerprint a.dedup_key) l'.incidents ≡ some i)
emit_repeats u a t l old i l' e h =
    let k = Ends-ok (Repeated a t old) (emit u a t l) (emit-Repeated u a t l old e) h in
    (
      ap (λ x. x.incident_id) k.0,
      ap (λ x. x.first_seen_at) k.0,
      ap (λ x. x.state) k.0,
      ap (λ x. x.occurrence_count) k.0,
      rw (k.0) (higher_severity-bounds old.severity a.severity).0,
      rw (k.0) (higher_severity-bounds old.severity a.severity).1,
      k.1,
    )
