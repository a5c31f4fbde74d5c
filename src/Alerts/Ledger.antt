-- ===== src/Alerts/Ledger.antt =====
-- The ledger as a value, and its transactions. `with self._connect()` commits what a block
-- wrote when it ends and rolls back when it raises, so a transaction that raises returns no ledger.
-- `drawn` counts the calls of `uuid4`, whose results are a parameter `u` of the operations.
use alpha_agent.Base.{
  ℕ, ◌+◌, Bool, true, false, Option, none, some, List, String, str_eq, if◌then◌else◌,
}
use alpha_agent.Alerts.Schema.{
  Message, Delivery, Route, RouteEvent, Incident, IncidentEvent, JobRun,
}

pub record Ledger : Type 0 where
  pub outbox : List Message
  pub deliveries : List Delivery
  pub routes : List Route
  pub route_events : List RouteEvent
  pub incidents : List Incident
  pub incident_events : List IncidentEvent
  pub job_runs : List JobRun
  pub drawn : ℕ

-- The exceptions, one for each message of the source. `integrity` is sqlite3.IntegrityError.
pub data Error : Type 0 where
  integrity : Error
  text_required text_too_long whitespace_in_channel bad_fingerprint : Error
  unsupported_limit unsupported_lease combined_claims test_needs_id : Error
  unknown_reference ambiguous_reference inexact_reference : Error
  route_disabled config_changed no_activation not_exact_test : Error
  leased_cannot_hold : Error
  success_with_failure failure_without_type unsupported_failure unsafe_response : Error
  delivery_missing lease_missing lease_expired : Error
  key_conflict source_event_without_incident many_routes : Error
  active_delivery route_missing : Error
  delivery_disappeared route_disappeared : Error
  bad_outcome already_resolved already_acknowledged evidence_changed : Error
  bad_pid already_running job_missing : Error
  send_raised : Error

pub data Result {ℓ} (A : Type ℓ) : Type ℓ where
  ok : A → Result A
  err : Error → Result A

abbrev pub Tx : Type 0 → Type 0
Tx A = Ledger → Result (A × Ledger)

infixl 5 ◌>>=◌ ◌>>◌
abbrev pub ◌>>=◌ : {A B : Type 0} → Tx A → (A → Tx B) → Tx B
◌>>=◌ m f l = elim (m l) [ ok r ↦ f r.0 r.1 | err e ↦ err e ]

abbrev pub ◌>>◌ : {B : Type 0} → Tx (Unit {0}) → Tx B → Tx B
m >> k = m >>= λ _. k

abbrev pub pure : {A : Type 0} → A → Tx A
pure a l = ok (a, l)

abbrev pub raise : {A : Type 0} → Error → Tx A
raise e l = err e

abbrev pub raise_if : Bool → Error → Tx (Unit {0})
raise_if b e l = if b then err e else ok (tt, l)

abbrev pub gets : {A : Type 0} → (Ledger → A) → Tx A
gets f l = ok (f l, l)

abbrev pub modify : (Ledger → Ledger) → Tx (Unit {0})
modify f l = ok (tt, f l)

abbrev pub or_raise : {A : Type 0} → Option A → Error → Tx A
or_raise none e l = err e
or_raise (some a) e l = ok (a, l)

-- `uuid4().hex`, behind the prefix that the identifier has.
abbrev pub fresh_id : (ℕ → String) → (String → String) → Tx String
fresh_id u prefix l = ok (prefix (u l.drawn), record l { drawn = l.drawn + 1 })

-- Equality of nullable texts, as `=` of two columns that are not both compared with NULL.
abbrev pub is_id : String → Option String → Bool
is_id i none = false
is_id i (some j) = str_eq j i

-- `==` of two values that may be None.
abbrev pub option_eq : Option String → Option String → Bool
option_eq none none = true
option_eq (some a) (some b) = str_eq a b
option_eq none (some b) = false
option_eq (some a) none = false
