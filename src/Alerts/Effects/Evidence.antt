-- ===== src/Alerts/Effects/Evidence.antt =====
-- An operator's action is bound to the evidence that it names.
use alpha_agent.Alerts.Effects.Elsewhere.{announce-Leaves, first-updated}
use alpha_agent.Base.{
  length_text, update, is_blank, is_lower_hex, subst, ℕ, not, true, false, some, String, str_eq,
  ◌≡◌, refl, sym, ap, ltb, arith,
}
use alpha_agent.Alerts.Ledger.{
  text_too_long, inexact_reference, bad_fingerprint, evidence_changed, text_required,
  already_resolved, Ledger, ok, ◌>>◌, pure, raise_if,
}
use alpha_agent.Base.{eq_iff, eq_refl, strip, lower, first}
use alpha_agent.Json.{str, field, bool, end}
use alpha_agent.Alerts.Schema.{Incident, IncidentEventType, resolved}
use alpha_agent.Alerts.Incidents.Lifecycle.{is_incident, announce, update_incident}
use alpha_agent.Alerts.Incidents.Actions.{
  Host, Action, exact_incident, resolve_exact, resolve, is_resolved, evidence_sha256, mark_resolved,
  action_payload, action_text, action_sha256, resolution_outcome,
}
use alpha_agent.Alerts.Ends.{
  reads_rules, Reads, Ends, Ends-ok, Ends-bind, Ends-after, Ends-map, Ends-raise_if, Ends-or_raise,
  Reads-raise_if,
}

exact_incident-Ends :
    (reference : String) (l : Ledger)
    → Ends
        (λ row l'. (l' ≡ l) × (first (is_incident (strip reference)) l.incidents ≡ some row))
        (exact_incident reference l)
unfolding exact_incident
exact_incident-Ends reference l =
    Ends-after _ (raise_if (is_blank (strip reference)) text_required) _ l (Reads-raise_if _ _) λ _.
      Ends-or_raise _ (first (is_incident (strip reference)) l.incidents) inexact_reference l
        λ row e. (refl, e)

-- The row that a resolution acts on, and that it leaves resolved.
abbrev Acts : Host → String → String → ℕ → Ledger → Incident → Ledger → Type 0
Acts h reference digest t l i l' =
    (row : Incident) × (first (is_incident (strip reference)) l.incidents ≡ some row)
    × (is_resolved row.state ≡ false)
    × (evidence_sha256 h row ≡ digest)
    × (i ≡ mark_resolved t row)
    × (first (is_incident (strip reference)) l'.incidents ≡ some i)

resolve_exact-Acts :
    (h : Host) (reference : String) (a : Action) (outcome : String) (t : ℕ) (l : Ledger)
    → Ends (Acts h reference a.expected_evidence t l) (resolve_exact h reference a outcome t l)
unfolding resolve_exact
resolve_exact-Acts h reference a outcome t l = Ends-bind _ (exact_incident reference) _ l (
    Ends-map _ _ (exact_incident reference l) (λ row l' k. rw k.0 (act row k.1))
      (exact_incident-Ends reference l))
  where
    written : Incident → Ledger
    written row = record l {
      incidents = update (is_incident row.incident_id) (mark_resolved t) l.incidents;
    }

    same :
        (row : Incident)
        → not (str_eq (evidence_sha256 h row) a.expected_evidence) ≡ false
        → evidence_sha256 h row ≡ a.expected_evidence
    same row seen = ground (arith, eq_iff (evidence_sha256 h row) a.expected_evidence)

    act :
        (row : Incident)
        → first (is_incident (strip reference)) l.incidents ≡ some row
        → Ends (Acts h reference a.expected_evidence t l) (
            (raise_if (is_resolved row.state) already_resolved
                >> (raise_if
                      (not (str_eq (evidence_sha256 h row) a.expected_evidence))
                      evidence_changed
                    >> (update_incident row.incident_id (mark_resolved t)
                        >> (announce h.uuid
                              (mark_resolved t row)
                              IncidentEventType.resolved
                              (some resolved)
                              t
                              (action_payload h row.incident_id "resolved" t a
                                (str outcome)
                                (str (evidence_sha256 h (mark_resolved t row)))
                                (field "transitioned_state" (bool true) end))
                            >> pure (mark_resolved t row)))))
              l)
    act row e = Ends-bind _ (raise_if (is_resolved row.state) already_resolved) _ l (
        Ends-raise_if _ (is_resolved row.state) already_resolved l λ fresh.
          Ends-bind _
            (raise_if (not (str_eq (evidence_sha256 h row) a.expected_evidence)) evidence_changed) _
            l
            (Ends-raise_if _ (not (str_eq (evidence_sha256 h row) a.expected_evidence))
              evidence_changed l
              λ seen.
                Ends-bind _
                  (announce h.uuid (mark_resolved t row) IncidentEventType.resolved (some resolved)
                    t
                    (action_payload h row.incident_id "resolved" t a (str outcome)
                      (str (evidence_sha256 h (mark_resolved t row)))
                      (field "transitioned_state" (bool true) end)))
                  _ (written row)
                  (Ends-map (λ _ l''. l''.incidents ≡ (written row).incidents) _ _
                    (λ _ l'' k. (
                      row,
                      e,
                      fresh,
                      same row seen,
                      refl,
                      rw k (
                          first-updated (is_incident (strip reference))
                            (is_incident row.incident_id) (mark_resolved t) l.incidents row
                            (λ i. refl) e (eq_refl row.incident_id)),
                    ))
                    (announce-Leaves h.uuid (mark_resolved t row) IncidentEventType.resolved
                      (some resolved) t
                      (action_payload h row.incident_id "resolved" t a (str outcome)
                        (str (evidence_sha256 h (mark_resolved t row)))
                        (field "transitioned_state" (bool true) end))
                      (written row)))))

action_text-Reads : (value : String) → Reads (action_text value)
unfolding action_text
action_text-Reads value = search reads_rules depth 9

resolution_outcome-Reads : (value : String) → Reads (resolution_outcome value)
unfolding resolution_outcome
resolution_outcome-Reads value = search (reads_rules, action_text-Reads) depth 9

-- What the checked texts are.
action_text-Ends :
    (value : String) (l : Ledger)
    → Ends (λ text l'. (l' ≡ l) × (text ≡ strip value)) (action_text value l)
unfolding action_text
action_text-Ends value l =
    Ends-after _ (raise_if (is_blank (strip value)) text_required) _ l (Reads-raise_if _ _) λ _.
      Ends-after _ (raise_if (ltb 4000 (length_text (strip value))) text_too_long) _ l
        (Reads-raise_if _ _) λ _. (refl, refl)

action_sha256-Ends :
    (value : String) (l : Ledger)
    → Ends (λ digest l'. (l' ≡ l) × (digest ≡ lower (strip value))) (action_sha256 value l)
unfolding action_sha256
action_sha256-Ends value l = Ends-bind _ (action_text value) _ l (
    Ends-map _ _ (action_text value l) (λ text l' k. checked text l' k.0 k.1)
      (action_text-Ends value l))
  where
    checked :
        (text : String) (l' : Ledger)
        → l' ≡ l
        → text ≡ strip value
        → Ends
            (λ digest l''. (l'' ≡ l) × (digest ≡ lower (strip value)))
            ((raise_if (not (is_lower_hex 64 (lower text))) bad_fingerprint >> pure (lower text))
              l')
    checked text l' e k =
        Ends-bind _ (raise_if (not (is_lower_hex 64 (lower text))) bad_fingerprint) _ l' (
          Ends-raise_if _ (not (is_lower_hex 64 (lower text))) bad_fingerprint l'
            (λ _. (e, ap lower k)))

resolve-Acts :
    (h : Host) (reference actor note outcome expected : String) (t : ℕ) (l : Ledger)
    → Ends
        (Acts h reference (lower (strip expected)) t l)
        (resolve h reference actor note outcome expected t l)
unfolding resolve
resolve-Acts h reference actor note outcome expected t l =
    Ends-after _ (action_text actor) _ l (action_text-Reads actor) λ actor'.
      Ends-after _ (action_text note) _ l (action_text-Reads note) λ note'.
        Ends-after _ (resolution_outcome outcome) _ l (resolution_outcome-Reads outcome) λ outcome'.
          Ends-bind _ (action_sha256 expected) _ l (
            Ends-map _ _ (action_sha256 expected l)
              (λ digest l' k. exact actor' note' outcome' digest l' k.0 k.1)
              (action_sha256-Ends expected l))
  where
    exact :
        (actor' note' outcome' digest : String) (l' : Ledger)
        → l' ≡ l
        → digest ≡ lower (strip expected)
        → Ends (Acts h reference (lower (strip expected)) t l) (
            resolve_exact h reference
              (record { actor = actor'; note = note'; expected_evidence = digest })
              outcome'
              t
              l')
    exact actor' note' outcome' digest l' e k =
        subst
          (λ x. Ends (Acts h reference (lower (strip expected)) t l) (
            resolve_exact h reference
              (record { actor = actor'; note = note'; expected_evidence = digest }) outcome' t x))
          (sym e)
          (subst
            (λ d. Ends (Acts h reference d t l) (
              resolve_exact h reference
                (record { actor = actor'; note = note'; expected_evidence = digest }) outcome' t l))
            k
            (resolve_exact-Acts h reference
              (record { actor = actor'; note = note'; expected_evidence = digest }) outcome' t l))

-- A resolution that commits acted on the incident with exactly the identifier that was given,
-- stripped; that incident was not resolved, and the digest of the evidence it held was the one that
-- the operator named; what is returned is that incident, resolved at the given time; and in the
-- ledger that this leaves, this row is what the identifier finds.
pub resolve_needs_evidence :
    (h : Host) (reference actor note outcome expected : String) (t : ℕ) (l : Ledger) (i : Incident)
    (l' : Ledger)
    → resolve h reference actor note outcome expected t l ≡ ok (i, l')
    → (row : Incident) × (first (is_incident (strip reference)) l.incidents ≡ some row)
      × (is_resolved row.state ≡ false)
      × (evidence_sha256 h row ≡ lower (strip expected))
      × (i ≡ mark_resolved t row)
      × (first (is_incident (strip reference)) l'.incidents ≡ some i)
resolve_needs_evidence h reference actor note outcome expected t l i l' e =
    Ends-ok (Acts h reference (lower (strip expected)) t l)
      (resolve h reference actor note outcome expected t l)
      (resolve-Acts h reference actor note outcome expected t l) e
