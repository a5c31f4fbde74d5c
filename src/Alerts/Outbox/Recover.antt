-- ===== src/Alerts/Outbox/Recover.antt =====
-- `AlertStore._recover_expired_notification_leases` and `_hold_unreachable_recoveries`.
use alpha_agent.Base.{
  ℕ, ◌&&◌, Bool, false, Option, none, some, List, [], ◌∷◌, str_eq, leb, ◌==◌, select, exists,
  update, sort_by,
}
use alpha_agent.Json.{Json, null, str, end, field}
use alpha_agent.Alerts.Schema.{
  Message, Delivery, held, dead_letter, ambiguous, is_pending, is_leased, is_dead_letter,
  is_started, is_resolved_event,
}
use alpha_agent.Alerts.Payload.{provider_response_json}
use alpha_agent.Alerts.Ledger.{Ledger, is_id}

abbrev pub max_attempts : ℕ
max_attempts = 5

-- `lease_expires_at <= ?`, which is not true of NULL.
abbrev pub expired_by : ℕ → Option ℕ → Bool
expired_by now none = false
expired_by now (some t) = leb t now

abbrev pub is_expired : ℕ → Message → Bool
is_expired now m = is_leased m.state && expired_by now m.lease_expires_at

abbrev pub expiry : Message → ℕ
expiry m = elim m.lease_expires_at [ none ↦ 0 | some t ↦ t ]

-- `{"delivery_phase": "worker", "provider_state": "outcome_unknown"}`, which has safe fields only.
pub unknown_outcome : Json
unfolding provider_response_json
unknown_outcome =
    elim (provider_response_json (
      field "delivery_phase" (str "worker") (field "provider_state" (str "outcome_unknown") end))) [
        | some p ↦ p
        | none ↦ null
      ]

-- The attempt that a worker left unfinished.
abbrev pub is_attempt_of : Message → Delivery → Bool
is_attempt_of m d =
    str_eq d.notification_id m.notification_id
    && d.attempt_number == m.attempt_count
    && is_started d.state

abbrev pub mark_ambiguous : ℕ → Delivery → Delivery
mark_ambiguous now d = record d {
  state = ambiguous;
  finished_at = some now;
  error_type = some "lease_expired_outcome_unknown";
  retry_at = none;
  provider_response = unknown_outcome;
}

abbrev pub expire_lease : ℕ → Message → Message
expire_lease now m = record m {
  state = dead_letter;
  available_at = now;
  lease_token = none;
  lease_expires_at = none;
  delivered_at = none;
  dead_lettered_at = some now;
  last_error_type = some "lease_expired_outcome_unknown";
}

-- One round of the loop over the expired rows.
unfoldable pub expire_row : ℕ → Message → Ledger → Ledger
expire_row now row l = record l {
  deliveries = update (is_attempt_of row) (mark_ambiguous now) l.deliveries;
  outbox = update (λ m. str_eq m.notification_id row.notification_id) (expire_lease now) l.outbox;
}

unfoldable pub expire_rows : ℕ → List Message → Ledger → Ledger
unfolding expire_row
expire_rows now [] l = l
expire_rows now (row ∷ rows) l = expire_rows now rows (expire_row now row l)

abbrev pub is_exhausted : Message → Bool
is_exhausted m = is_pending m.state && leb max_attempts m.attempt_count

-- `COALESCE(last_error_type, 'attempt_limit_exhausted')`
abbrev pub exhaust : ℕ → Message → Message
exhaust now m = record m {
  state = dead_letter;
  dead_lettered_at = some now;
  last_error_type = elim m.last_error_type [
    | none ↦ some "attempt_limit_exhausted"
    | some e ↦ some e
  ];
}

-- The EXISTS of `_hold_unreachable_recoveries`, over the table as the statement finds it.
abbrev pub is_unreachable : List Message → Message → Bool
is_unreachable outbox m =
    is_pending m.state
    && is_resolved_event m.event_type
    && exists (λ d. is_id d.notification_id m.depends_on_notification_id && is_dead_letter d.state)
        outbox

abbrev pub hold_unreached : Message → Message
hold_unreached m = record m {
  state = held;
  last_error_type = some "active_notification_not_delivered";
}

unfoldable pub hold_unreachable : Ledger → Ledger
hold_unreachable l = record l { outbox = update (is_unreachable l.outbox) hold_unreached l.outbox }

unfoldable pub recover_expired : ℕ → Ledger → Ledger
unfolding expire_rows hold_unreachable
recover_expired now l =
    let rows = sort_by (λ a b. leb (expiry a) (expiry b)) (select (is_expired now) l.outbox) in
    let l' = expire_rows now rows l in
    hold_unreachable (record l' { outbox = update is_exhausted (exhaust now) l'.outbox })
