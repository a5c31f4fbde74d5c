-- ===== src/Alerts/Tests.antt =====
-- Runs of the operations on small ledgers, and the theorems at these inputs.
use alpha_agent.Alerts.Effects.Symptom.{emit_repeats}
use alpha_agent.Alerts.Effects.Evidence.{resolve_needs_evidence}
use alpha_agent.Alerts.Incidents.Lifecycle.{has_fingerprint, is_incident}
use alpha_agent.Alerts.Delivery.Retry.{retry_delay_backoff}
use alpha_agent.Alerts.Delivery.Once.{completed_not_resent}
use alpha_agent.Alerts.Delivery.Expiry.{recover_expired_clears}
use alpha_agent.Alerts.Effects.Disable.{disabled_sends_nothing, AllDisabled}
use alpha_agent.Alerts.Effects.Repeat.{enqueue_notification_again}
use alpha_agent.Alerts.Effects.Exclusive.{begin_job_exclusive}
use alpha_agent.Alerts.Outbox.Recover.{is_exhausted, recover_expired, is_expired}
use alpha_agent.Alerts.Payload.{redact, payload_json}
use alpha_agent.Alerts.Delivery.Final.{completed_once}
use alpha_agent.Alerts.Effects.Redaction.{payload_json-Redacted, Redacted}
use alpha_agent.Alerts.Effects.Scope.{route_claim_ignores_id}
use alpha_agent.Alerts.Outbox.Enqueue.{enqueue_notification}
use alpha_agent.Alerts.Routes.{disable_found, has_route_id}
use alpha_agent.Alerts.Jobs.{is_owned, is_running_job, begin_job}
use alpha_agent.Alerts.Safety.Run.{run_preserves_outbox, enqueued, here, next}
use alpha_agent.Alerts.Delivery.Handed.{IsLease, NoneWaits, IsRecorded}
use alpha_agent.Alerts.Delivery.Lease.{claim_is_exclusive}
use alpha_agent.Alerts.Delivery.Order.{candidates_order, MayBeSent, Precedes}
use alpha_agent.Alerts.Safety.Advance.{WellFormed}
use alpha_agent.Alerts.Safety.Rows.{Keeps}
use alpha_agent.Alerts.Schema.{rank, IncidentState, Incident}
use alpha_agent.Alerts.Incidents.Actions.{
  mark_resolved, evidence_sha256, is_resolved, Host, resolve,
}
use alpha_agent.Base.{
  strip, lower, first, ◌*◌, ◌+◌, true, str_eq, All, ◌≤◌, List, Grows, Memᴰ, min, IsOrdered, length,
  select, ◌⊎◌, false, none, some, [], ◌∷◌, String, ◌≡◌, refl,
}
use alpha_agent.Alerts.Ledger.{Ledger, Result, ok}
use alpha_agent.Json.{obj}
use alpha_agent.Alerts.Schema.{Claim, is_test, Message, Route, JobRun, pending, RouteState}
use alpha_agent.Alerts.Outbox.Claim.{
  activation, unrouted, candidates, resolve_optional, is_due, claim_notifications,
}
use alpha_agent.Alerts.Outbox.Complete.{
  retry_max_seconds, failure_of, retry_delay, is_retryable, retry_base_seconds,
  complete_notification_delivery,
}
use alpha_agent.Alerts.Incidents.Lifecycle.{emit}
use alpha_agent.Alerts.Schema.{warning, critical}
use alpha_agent.Alerts.Samples.{
  symptom, uuid, no_rows, got, left, request, waiting, graver, sent, in_flight, refused,
  fingerprint, route, routed, claim, old_run, incident,
}

failed_once :
    complete_notification_delivery refused 110 in_flight
    ≡ ok (
      got sent (complete_notification_delivery refused 110 in_flight),
      left (complete_notification_delivery refused 110 in_flight),
    )
unfolding complete_notification_delivery
failed_once = refl

claimed_one :
    claim_notifications uuid claim 100 routed
    ≡ ok (
      got [] (claim_notifications uuid claim 100 routed),
      left (claim_notifications uuid claim 100 routed),
    )
unfolding claim_notifications
claimed_one = refl

abbrev taken : Result (Message × Ledger)
taken = enqueue_notification uuid request false 50 no_rows

request_taken : taken ≡ ok (got waiting taken, left taken)
unfolding enqueue_notification
request_taken = refl

no_rows-WellFormed : WellFormed no_rows
no_rows-WellFormed = record { distinct = tt; rows = tt }

run_preserves_outbox_example :
    WellFormed (left taken) × Grows Keeps no_rows.outbox (left taken).outbox
run_preserves_outbox_example =
    run_preserves_outbox no_rows (left taken)
      (next here (enqueued uuid request false 50 (got waiting taken) request_taken))
      no_rows-WellFormed

candidates_order_example :
    let rows : List Message = candidates 100 unrouted 1 (waiting ∷ graver ∷ []) in
    (length rows ≤ 1)
    × All (MayBeSent 100 unrouted (waiting ∷ graver ∷ [])) rows
    × IsOrdered Precedes rows
    × All
        (λ m. Memᴰ m rows ⊎ (All (λ r. Precedes r m) rows × (length rows ≡ 1)))
        (select (is_due 100 unrouted (waiting ∷ graver ∷ [])) (waiting ∷ graver ∷ []))
candidates_order_example = candidates_order 100 unrouted 1 (waiting ∷ graver ∷ [])

abbrev claimed : Result (List Claim × Ledger)
claimed = claim_notifications uuid claim 100 routed

claim_is_exclusive_example :
    (length (got [] claimed) ≤ 1)
    × All
        (λ c. IsLease claim 100 c × NoneWaits (left claimed) c × IsRecorded (left claimed) c)
        (got [] claimed)
claim_is_exclusive_example =
    claim_is_exclusive uuid claim 100 routed (got [] claimed) (left claimed) claimed_one

abbrev failure : Result (Message × Ledger)
failure = complete_notification_delivery refused 110 in_flight

abbrev to_retry : Message
to_retry = record sent {
  state = pending;
  available_at = 170;
  lease_token = none;
  lease_expires_at = none;
  last_error_type = some "smtp_busy";
}

retry_listed : Memᴰ to_retry (left failure).outbox
unfolding complete_notification_delivery
retry_listed = Memᴰ.head refl

retry_named : str_eq to_retry.notification_id (got sent failure).notification_id ≡ true
unfolding complete_notification_delivery
retry_named = refl

retry_due : is_due 170 unrouted (to_retry ∷ []) to_retry ≡ true
unfolding is_due
retry_due = refl

completed_not_resent_example :
    (refused.succeeded ≡ false) × (is_retryable (failure_of refused) ≡ true) × (110 + 60 ≤ 170)
completed_not_resent_example =
    completed_not_resent refused 110 in_flight (got sent failure) (left failure) failed_once
      to_retry retry_listed retry_named 170 unrouted (to_retry ∷ []) retry_due

completed_once_example :
    ¬ (complete_notification_delivery refused 120 (left failure) ≡ ok (sent, in_flight))
completed_once_example =
    completed_once refused 110 in_flight (got sent failure) (left failure) failed_once refused 120
      sent in_flight refl

recover_expired_clears_example :
    All
      (λ m. (is_expired 500 m ≡ false) × (is_exhausted m ≡ false))
      (recover_expired 500 in_flight).outbox
recover_expired_clears_example = recover_expired_clears 500 in_flight

enqueue_notification_again_example :
    enqueue_notification (λ n. "b") request true 60 (left taken)
    ≡ ok (got waiting taken, left taken)
enqueue_notification_again_example =
    enqueue_notification_again uuid (λ n. "b") request false true 50 60 no_rows (got waiting taken)
      (left taken) request_taken

first_resolves :
    resolve_optional (some "notification-1") (recover_expired 100 routed)
    ≡ ok (some "notification-1", recover_expired 100 routed)
unfolding resolve_optional recover_expired
first_resolves = refl

second_resolves :
    resolve_optional (some "notification-2") (recover_expired 100 routed)
    ≡ ok (some "notification-2", recover_expired 100 routed)
unfolding resolve_optional recover_expired
second_resolves = refl

route_claim_ignores_id_example :
    claim_notifications uuid (record claim { notification_id = some "notification-1" }) 100 routed
    ≡ claim_notifications uuid (record claim { notification_id = some "notification-2" }) 100 routed
route_claim_ignores_id_example =
    route_claim_ignores_id uuid claim fingerprint "notification-1" "notification-2" "notification-1"
      "notification-2" 100 routed refl first_resolves second_resolves

abbrev stopped : Result (Route × Ledger)
stopped = disable_found uuid route 100 routed

disable_succeeds : stopped ≡ ok (got route stopped, left stopped)
unfolding disable_found
disable_succeeds = refl

disabled_sends_nothing_example :
    (first (has_route_id "route-1") (left stopped).routes ≡ some (got route stopped))
    × ((got route stopped).state ≡ RouteState.disabled)
    × AllDisabled "route-1" (left stopped)
    × All
        (λ m. is_test m.event_type ≡ true)
        (candidates 200 (activation "activation-1") 10 (left stopped).outbox)
disabled_sends_nothing_example =
    disabled_sends_nothing uuid route 100 routed (got route stopped) (left stopped) disable_succeeds
      200 10

abbrev begun : Result ((JobRun × List String) × Ledger)
begun =
    begin_job uuid (λ p. true) "daily" "2024-01-02" 9 "boot-1" 100
      (record no_rows { job_runs = old_run ∷ [] })

job_begun_again : begun ≡ ok (got (old_run, []) begun, left begun)
unfolding begin_job
job_begun_again = refl

begin_job_exclusive_example :
    (select (is_running_job "daily") (left begun).job_runs ≡ (got (old_run, []) begun).0 ∷ [])
    × All
        (λ j. is_owned (λ p. true) "boot-1" j ≡ false)
        (select (is_running_job "daily") (old_run ∷ []))
begin_job_exclusive_example =
    begin_job_exclusive uuid (λ p. true) "daily" "2024-01-02" 9 "boot-1" 100
      (record no_rows { job_runs = old_run ∷ [] }) (got (old_run, []) begun) (left begun)
      job_begun_again

retry_delay_backoff_example :
    (retry_base_seconds ≤ retry_delay 3)
    × (retry_delay 3 ≤ retry_max_seconds)
    × (retry_delay 5 ≡ min (2 * retry_delay 4) retry_max_seconds)
retry_delay_backoff_example = retry_delay_backoff 3

payload_json-Redacted_example :
    Redacted (payload_json (obj request.payload))
    × (redact (payload_json (obj request.payload)) ≡ payload_json (obj request.payload))
payload_json-Redacted_example = payload_json-Redacted (obj request.payload)

-- Every document has the same digest here.
abbrev host : Host
host = record { uuid = uuid; sha256 = λ j. fingerprint; iso = λ t. "2024-01-02T00:00:00Z" }

abbrev closed : Result (Incident × Ledger)
closed =
    resolve host " inc-1" "ops" "Feed restarted." "verified_recovery" fingerprint 100
      (record no_rows { incidents = incident ∷ [] })

resolve_commits : closed ≡ ok (got incident closed, left closed)
unfolding resolve
resolve_commits = refl

resolve_needs_evidence_example :
    (row : Incident) × (first (is_incident (strip " inc-1")) (incident ∷ []) ≡ some row)
    × (is_resolved row.state ≡ false)
    × (evidence_sha256 host row ≡ lower (strip fingerprint))
    × (got incident closed ≡ mark_resolved 100 row)
    × (first (is_incident (strip " inc-1")) (left closed).incidents ≡ some (got incident closed))
resolve_needs_evidence_example =
    resolve_needs_evidence host " inc-1" "ops" "Feed restarted." "verified_recovery" fingerprint 100
      (record no_rows { incidents = incident ∷ [] }) (got incident closed) (left closed)
      resolve_commits

abbrev seen_again : Result (Incident × Ledger)
seen_again = emit uuid symptom 100 (record no_rows { incidents = incident ∷ [] })

emit_commits : seen_again ≡ ok (got incident seen_again, left seen_again)
unfolding emit
emit_commits = refl

emit_repeats_example :
    ((got incident seen_again).incident_id ≡ "inc-1")
    × ((got incident seen_again).first_seen_at ≡ 10)
    × ((got incident seen_again).state ≡ IncidentState.live)
    × ((got incident seen_again).occurrence_count ≡ 2 + 1)
    × (rank warning ≤ rank (got incident seen_again).severity)
    × (rank critical ≤ rank (got incident seen_again).severity)
    × (first (has_fingerprint "prices:stale") (left seen_again).incidents
        ≡ some (got incident seen_again))
emit_repeats_example =
    emit_repeats uuid symptom 100 (record no_rows { incidents = incident ∷ [] }) incident
      (got incident seen_again) (left seen_again) refl emit_commits
