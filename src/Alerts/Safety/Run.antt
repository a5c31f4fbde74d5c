-- ===== src/Alerts/Safety/Run.antt =====
-- Any sequence of committed operations on the ledger.
use alpha_agent.Base.{ℕ, Bool, List, String, ◌≡◌, Grows}
use alpha_agent.Json.{Fields}
use alpha_agent.Alerts.Schema.{Message, Claim, Route, JobRun, Incident, Alert, Request}
use alpha_agent.Alerts.Ledger.{Ledger, ok, Tx}
use alpha_agent.Alerts.Outbox.Enqueue.{enqueue_notification, hold_notification}
use alpha_agent.Alerts.Outbox.Claim.{ClaimRequest, claim_notifications}
use alpha_agent.Alerts.Outbox.Complete.{Completion, complete_notification_delivery}
use alpha_agent.Alerts.Routes.{enable_notification_route, disable_notification_route}
use alpha_agent.Alerts.Incidents.Lifecycle.{emit}
use alpha_agent.Alerts.Incidents.Actions.{Host, acknowledge, resolve}
use alpha_agent.Alerts.Jobs.{begin_job, JobOutcome, finish_job}
use alpha_agent.Alerts.Safety.Rows.{Keeps}
use alpha_agent.Alerts.Safety.Advance.{WellFormed, Advances, Safe, Advances-refl, Advances-trans}
use alpha_agent.Alerts.Safety.Enqueue.{enqueue_notification-Safe, hold_notification-Safe}
use alpha_agent.Alerts.Safety.Claim.{claim_notifications-Safe}
use alpha_agent.Alerts.Safety.Complete.{complete_notification_delivery-Safe}
use alpha_agent.Alerts.Safety.Routes.{
  enable_notification_route-Safe, disable_notification_route-Safe,
}
use alpha_agent.Alerts.Safety.Incidents.{
  emit-Safe, acknowledge-Safe, resolve-Safe, begin_job-Safe, finish_job-Safe,
}

-- One call of an operation that commits. What the operation takes from its surroundings (the
-- identifiers, the time, the digest, which processes live) is arbitrary in each call.
pub data Step (l l' : Ledger) : Type 0 where
  enqueued :
      (u : ℕ → String) (r : Request) (hold : Bool) (now : ℕ) (m : Message)
      → enqueue_notification u r hold now l ≡ ok (m, l')
      → Step l l'
  put_aside :
      (reference reason : String) (m : Message)
      → hold_notification reference reason l ≡ ok (m, l')
      → Step l l'
  claimed :
      (u : ℕ → String) (a : ClaimRequest) (now : ℕ) (claims : List Claim)
      → claim_notifications u a now l ≡ ok (claims, l')
      → Step l l'
  completed :
      (c : Completion) (now : ℕ) (m : Message)
      → complete_notification_delivery c now l ≡ ok (m, l')
      → Step l l'
  route_enabled :
      (u : ℕ → String) (channel fingerprint route_alias : String) (now : ℕ) (r : Route)
      → enable_notification_route u channel fingerprint route_alias now l ≡ ok (r, l')
      → Step l l'
  route_disabled :
      (u : ℕ → String) (channel route_alias : String) (now : ℕ) (r : Route)
      → disable_notification_route u channel route_alias now l ≡ ok (r, l')
      → Step l l'
  emitted :
      (u : ℕ → String) (a : Alert) (now : ℕ) (i : Incident)
      → emit u a now l ≡ ok (i, l')
      → Step l l'
  incident_acknowledged :
      (h : Host) (reference actor note expected : String) (now : ℕ) (i : Incident)
      → acknowledge h reference actor note expected now l ≡ ok (i, l')
      → Step l l'
  incident_resolved :
      (h : Host) (reference actor note outcome expected : String) (now : ℕ) (i : Incident)
      → resolve h reference actor note outcome expected now l ≡ ok (i, l')
      → Step l l'
  job_begun :
      (u : ℕ → String) (alive : ℕ → Bool) (name target : String) (pid : ℕ) (boot : String) (now : ℕ)
      (started : JobRun × List String)
      → begin_job u alive name target pid boot now l ≡ ok (started, l')
      → Step l l'
  job_finished :
      (run_id : String) (outcome : JobOutcome) (detail : String) (payload : Fields) (now : ℕ)
      (j : JobRun)
      → finish_job run_id outcome detail payload now l ≡ ok (j, l')
      → Step l l'

pub data Reach (l : Ledger) : Ledger → Type 0 where
  here : Reach l l
  next : {m n : Ledger} → Reach l m → Step m n → Reach l n

committed :
    {A : Type 0} (m : Tx A) (l : Ledger) {a : A} {l' : Ledger}
    → Safe m
    → m l ≡ ok (a, l')
    → Advances l l'
committed m l h e = rw e at (h l)

Step-Advances : (l l' : Ledger) → Step l l' → Advances l l'
Step-Advances l l' (enqueued u r hold now m e) =
    committed (enqueue_notification u r hold now) l (enqueue_notification-Safe u r hold now) e
Step-Advances l l' (put_aside reference reason m e) =
    committed (hold_notification reference reason) l (hold_notification-Safe reference reason) e
Step-Advances l l' (claimed u a now claims e) =
    committed (claim_notifications u a now) l (claim_notifications-Safe u a now) e
Step-Advances l l' (completed c now m e) =
    committed (complete_notification_delivery c now) l (complete_notification_delivery-Safe c now) e
Step-Advances l l' (route_enabled u channel fingerprint route_alias now r e) =
    committed (enable_notification_route u channel fingerprint route_alias now) l
      (enable_notification_route-Safe u channel fingerprint route_alias now) e
Step-Advances l l' (route_disabled u channel route_alias now r e) =
    committed (disable_notification_route u channel route_alias now) l
      (disable_notification_route-Safe u channel route_alias now) e
Step-Advances l l' (emitted u a now i e) = committed (emit u a now) l (emit-Safe u a now) e
Step-Advances l l' (incident_acknowledged h i actor note expected now r e) =
    committed (acknowledge h i actor note expected now) l
      (acknowledge-Safe h i actor note expected now) e
Step-Advances l l' (incident_resolved h i actor note outcome expected now r e) =
    committed (resolve h i actor note outcome expected now) l
      (resolve-Safe h i actor note outcome expected now) e
Step-Advances l l' (job_begun u alive name target pid boot now started e) =
    committed (begin_job u alive name target pid boot now) l
      (begin_job-Safe u alive name target pid boot now) e
Step-Advances l l' (job_finished run_id outcome detail payload now j e) =
    committed (finish_job run_id outcome detail payload now) l
      (finish_job-Safe run_id outcome detail payload now) e

-- Whatever operations commit, in whatever order, from a well-formed ledger: the ledger stays
-- well formed (distinct identifiers; in each row the lease columns are set exactly when the state
-- is leased, the delivery time exactly when it is delivered, the dead-letter time exactly when it
-- is a dead letter, and at most five attempts are counted), and every row of the outbox stays at
-- its place with the content that it was inserted with, with no fewer attempts, and wholly
-- unchanged once it is delivered.
pub run_preserves_outbox :
    (l l' : Ledger) → Reach l l' → WellFormed l → WellFormed l' × Grows Keeps l.outbox l'.outbox
run_preserves_outbox l l' here w = Advances-refl l w
run_preserves_outbox l l' (next {m} r s) w =
    Advances-trans l m l' (run_preserves_outbox l m r) (Step-Advances m l' s) w
