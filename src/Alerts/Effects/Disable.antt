-- ===== src/Alerts/Effects/Disable.antt =====
-- After a route is disabled.
use Prim.Native.String.{◌++◌ as str_append}
use alpha_agent.Base.{
  ℕ, ◌+◌, ◌||◌, not, Bool, true, false, List, String, str_eq, ◌≡◌, refl, arith, All,
}
use alpha_agent.Alerts.Ledger.{
  integrity, active_delivery, route_disappeared, Ledger, Tx, ok, raise_if,
}
use alpha_agent.Base.{
  first, first-holds, All-first, some, All-map, All-every, All-zip, All-update_both, All-take,
  All-sort_by, All-select, select-holds, exists, update, select,
}
use alpha_agent.Alerts.Schema.{RouteEvent, RouteEventType, Message, Route, RouteState, is_test}
use alpha_agent.Alerts.Outbox.Claim.{activation, candidates, is_due, comes_before}
use alpha_agent.Alerts.Routes.{
  has_route_id, reread_route, disable_found, disable, waits_under, hold_because, hold_waiting,
  insert_route_event, is_active_attempt,
}
use alpha_agent.Alerts.Ends.{Ends, Ends-ok, Ends-bind, Ends-map, Ends-raise_if, Ends-or_raise}

-- A disabled route has released its messages.
abbrev Released : Route → Ledger → Type 0
Released r l = All (λ m. waits_under r.activation_id m ≡ false) l.outbox

-- Every route of this identifier is disabled.
abbrev pub AllDisabled : (route_id : String) → Ledger → Type 0
AllDisabled i l = All (λ s. has_route_id i s ≡ true → s.state ≡ RouteState.disabled) l.routes

-- What is left when this route is disabled and `x` is returned.
abbrev Stopped : Route → Route → Ledger → Type 0
Stopped r x l =
    (first (has_route_id r.route_id) l.routes ≡ some x)
    × (x.state ≡ RouteState.disabled)
    × AllDisabled r.route_id l
    × Released r l

insert_route_event-elsewhere :
    (u : ℕ → String) (route_id : String) (event_type : RouteEventType) (t : ℕ)
    (activation_id fingerprint : String) (l : Ledger)
    → Ends
        (λ _ l'. (l'.outbox ≡ l.outbox) × (l'.routes ≡ l.routes))
        (insert_route_event u route_id event_type t activation_id fingerprint l)
unfolding insert_route_event
insert_route_event-elsewhere u route_id event_type t activation_id fingerprint l =
    Ends-bind _ (raise_if (clash l') integrity) _ l'
      (Ends-raise_if _ (clash l') integrity l' (λ _. (refl, refl)))
  where
    l' : Ledger
    l' = record l { drawn = l.drawn + 1 }

    clash : Ledger → Bool
    clash x =
        exists (λ (e : RouteEvent). str_eq e.event_id (str_append "route-event-" (u l.drawn)))
          x.route_events
        || not (exists (λ (r : Route). str_eq r.route_id route_id) x.routes)

hold_waiting-Released :
    (r : Route) (reason : String) (l : Ledger) → Released r (hold_waiting r.activation_id reason l)
unfolding hold_waiting
hold_waiting-Released r reason l =
    All-update_both {P = λ _. Unit {0}} (waits_under r.activation_id) (hold_because reason) l.outbox
      (λ m _ _. refl) (λ m _ e. e) (All-every l.outbox (λ _. tt))

disable-AllDisabled :
    (i : String) (t : ℕ) (l : Ledger)
    → AllDisabled i (record l { routes = update (has_route_id i) (disable t) l.routes })
disable-AllDisabled i t l =
    All-update_both {P = λ _. Unit {0}} (has_route_id i) (disable t) l.routes (λ s _ _ _. refl)
      (λ s _ e k. absurd (ground (arith, e, k))) (All-every l.routes (λ _. tt))

-- The route that is read back is disabled, since every route of its identifier is.
reread_route-Stopped :
    (r : Route) (l : Ledger)
    → AllDisabled r.route_id l
    → Released r l
    → Ends (Stopped r) (reread_route r.route_id l)
unfolding reread_route
reread_route-Stopped r l off h =
    Ends-or_raise (Stopped r) (first (has_route_id r.route_id) l.routes) route_disappeared l λ x e.
      (
        e,
        All-first _ (has_route_id r.route_id) l.routes off e
            (first-holds (has_route_id r.route_id) l.routes e),
        off,
        h,
      )

disable_found-Stopped :
    (u : ℕ → String) (r : Route) (t : ℕ) (l : Ledger) → Ends (Stopped r) (disable_found u r t l)
unfolding disable_found
disable_found-Stopped u r t l =
    Ends-bind _
      (raise_if (exists (is_active_attempt r.channel r.route_alias) l.deliveries) active_delivery) _
      l
      (Ends-raise_if _ (exists (is_active_attempt r.channel r.route_alias) l.deliveries)
        active_delivery l
        λ _. Ends-bind _ event _ held (
          Ends-map _ _ (event held)
            (λ _ l' e.
              reread_route-Stopped r l' (rw e.1 (disable-AllDisabled r.route_id t l))
                (rw e.0 (hold_waiting-Released r "route_disabled" routed)))
            (insert_route_event-elsewhere u r.route_id RouteEventType.disabled t r.activation_id
              r.config_fingerprint held)))
  where
    routed : Ledger
    routed = record l { routes = update (has_route_id r.route_id) (disable t) l.routes }

    held : Ledger
    held = hold_waiting r.activation_id "route_disabled" routed

    event : Tx (Unit {0})
    event =
        insert_route_event u r.route_id RouteEventType.disabled t r.activation_id
          r.config_fingerprint

due-test :
    (t : ℕ) (i : String) (outbox : List Message) (m : Message)
    → (is_due t (activation i) outbox m ≡ true) × (waits_under i m ≡ false)
    → is_test m.event_type ≡ true
unfolding is_due
due-test t i outbox m h = ground arith

-- When a route is disabled, every route with its identifier is left disabled in the ledger, and
-- what is returned is the route that this identifier finds there, disabled; and in that ledger, at
-- any time and with any limit, no production message is a candidate for a claim under the
-- activation that the route had: the candidates under that activation are tests only.
pub disabled_sends_nothing :
    (u : ℕ → String) (r : Route) (t : ℕ) (l : Ledger) (x : Route) (l' : Ledger)
    → disable_found u r t l ≡ ok (x, l')
    → (later limit : ℕ)
    → (first (has_route_id r.route_id) l'.routes ≡ some x)
      × (x.state ≡ RouteState.disabled)
      × AllDisabled r.route_id l'
      × All
          (λ m. is_test m.event_type ≡ true)
          (candidates later (activation r.activation_id) limit l'.outbox)
unfolding candidates
disabled_sends_nothing u r t l x l' e later limit =
    let k = Ends-ok (Stopped r) (disable_found u r t l) (disable_found-Stopped u r t l) e in
    (
      k.0,
      k.1,
      k.2,
      All-take _ limit _ (
          All-sort_by _ comes_before _ (
            All-map _ (due-test later r.activation_id l'.outbox) (
              All-zip _ _ (select (is_due later (activation r.activation_id) l'.outbox) l'.outbox)
                (select-holds (is_due later (activation r.activation_id) l'.outbox) l'.outbox)
                (All-select _ (is_due later (activation r.activation_id) l'.outbox) l'.outbox
                  k.3)))),
    )
