-- ===== src/Alerts/Safety/Routes.antt =====
-- The operations on routes, incidents and jobs are safe.
use alpha_agent.Alerts.Safety.Recover.{recover_expired-Advances}
use alpha_agent.Alerts.Safety.Checks.{check_rules}
use alpha_agent.Base.{none, some, Option, ℕ, String, ◌≡◌, refl, arith}
use alpha_agent.Alerts.Schema.{Route, RouteEventType}
use alpha_agent.Alerts.Ledger.{Ledger, modify}
use alpha_agent.Alerts.Routes.{
  add_route, enable_notification_route, disable_found, enable_found, reactivate_route,
  disable_notification_route, waits_under, hold_because, hold_waiting, insert_route_event,
  insert_route,
}
use alpha_agent.Alerts.Safety.Rows.{Keeps-change, pending-not_delivered, hold_because-IsConsistent}
use alpha_agent.Alerts.Safety.Advance.{
  Safe-modify, Advances, Safe, Advances-same, Advances-update, safe_rules,
}

-- A write that leaves the outbox.
pub Safe-elsewhere :
    (f : Ledger → Ledger) → ((l : Ledger) → (f l).outbox ≡ l.outbox) → Safe (modify f)
Safe-elsewhere f h l = Advances-same l (f l) (h l)

hold_waiting-Advances :
    (activation_id reason : String) (l : Ledger) → Advances l (hold_waiting activation_id reason l)
unfolding hold_waiting
hold_waiting-Advances activation_id reason l =
    Advances-update (waits_under activation_id) (hold_because reason) l (λ m. refl)
      (λ m t c. hold_because-IsConsistent reason m (ground arith) c)
      (λ m t.
        Keeps-change m (hold_because reason m) refl (omega arith)
          (pending-not_delivered m.state (ground arith)))

insert_route_event-Safe :
    (u : ℕ → String) (route_id : String) (event_type : RouteEventType) (timestamp : ℕ)
    (activation_id fingerprint : String)
    → Safe (insert_route_event u route_id event_type timestamp activation_id fingerprint)
unfolding insert_route_event
insert_route_event-Safe u route_id event_type timestamp activation_id fingerprint =
    search (safe_rules, Safe-elsewhere, λ (l : Ledger). refl {a = l.outbox}) depth 9

insert_route-Safe : (r : Route) → Safe (insert_route r)
unfolding insert_route
insert_route-Safe r =
    search (safe_rules, Safe-elsewhere, λ (l : Ledger). refl {a = l.outbox}) depth 9

ruleset elsewhere_rules = (safe_rules, Safe-elsewhere, insert_route_event-Safe, insert_route-Safe)

add_route-Safe :
    (u : ℕ → String) (channel route_alias fingerprint : String) (timestamp : ℕ)
    → Safe (add_route u channel route_alias fingerprint timestamp)
unfolding add_route
add_route-Safe u channel route_alias fingerprint timestamp = search elsewhere_rules depth 9

reactivate_route-Safe :
    (u : ℕ → String) (r : Route) (fingerprint : String) (timestamp : ℕ)
    → Safe (reactivate_route u r fingerprint timestamp)
unfolding reactivate_route
reactivate_route-Safe u r fingerprint timestamp =
    search
      (elsewhere_rules, Safe-modify, hold_waiting-Advances, λ (l : Ledger). refl {a = l.outbox})
      depth 12

enable_found-Safe :
    (u : ℕ → String) (channel route_alias fingerprint : String) (timestamp : ℕ)
    (found : Option Route)
    → Safe (enable_found u channel route_alias fingerprint timestamp found)
unfolding enable_found
enable_found-Safe u channel route_alias fingerprint timestamp none =
    add_route-Safe u channel route_alias fingerprint timestamp
enable_found-Safe u channel route_alias fingerprint timestamp (some r) =
    search (safe_rules, reactivate_route-Safe)

pub enable_notification_route-Safe :
    (u : ℕ → String) (channel fingerprint route_alias : String) (timestamp : ℕ)
    → Safe (enable_notification_route u channel fingerprint route_alias timestamp)
unfolding enable_notification_route
enable_notification_route-Safe u channel fingerprint route_alias timestamp =
    search (check_rules, Safe-modify, recover_expired-Advances, enable_found-Safe) depth 12

disable_found-Safe :
    (u : ℕ → String) (r : Route) (timestamp : ℕ) → Safe (disable_found u r timestamp)
unfolding disable_found
disable_found-Safe u r timestamp =
    search
      (elsewhere_rules, Safe-modify, hold_waiting-Advances, λ (l : Ledger). refl {a = l.outbox})
      depth 12

pub disable_notification_route-Safe :
    (u : ℕ → String) (channel route_alias : String) (timestamp : ℕ)
    → Safe (disable_notification_route u channel route_alias timestamp)
unfolding disable_notification_route
disable_notification_route-Safe u channel route_alias timestamp =
    search (check_rules, Safe-modify, recover_expired-Advances, disable_found-Safe) depth 12
