-- ===== src/Alerts/Routes.antt =====
-- `enable_notification_route`, `disable_notification_route` and `_insert_notification_route_event`
-- of `AlertStore` in src/aios/alerts.py.
use Prim.Native.String.{◌++◌ as str_append}
use alpha_agent.Base.{
  ℕ, ◌&&◌, ◌||◌, not, Bool, Option, none, some, [], ◌∷◌, ◌++◌, String, str_eq, if◌then◌else◌, first,
  exists, update,
}
use alpha_agent.Alerts.Schema.{
  Message, Delivery, Route, RouteState, RouteEvent, RouteEventType, held, is_pending, is_started,
  is_enabled, is_test,
}
use alpha_agent.Alerts.Ledger.{
  Ledger, Tx, ◌>>=◌, ◌>>◌, pure, raise_if, gets, modify, or_raise, fresh_id, is_id, integrity,
  active_delivery, route_missing, route_disappeared,
}
use alpha_agent.Alerts.Checks.{check_channel, check_fingerprint, normalized}
use alpha_agent.Alerts.Outbox.Recover.{recover_expired}
use alpha_agent.Alerts.Outbox.Claim.{is_route}

-- SELECT COUNT(*) of the route's started attempts, as a test.
abbrev pub is_active_attempt : String → String → Delivery → Bool
is_active_attempt channel route_alias d =
    str_eq d.channel channel && str_eq d.route_alias route_alias && is_started d.state

-- The production messages that wait under an activation.
abbrev pub waits_under : String → Message → Bool
waits_under activation_id m =
    is_pending m.state && not (is_test m.event_type) && is_id activation_id m.route_activation_id

abbrev pub hold_because : String → Message → Message
hold_because reason m = record m { state = held; last_error_type = some reason }

unfoldable pub hold_waiting : (activation_id reason : String) → Ledger → Ledger
hold_waiting activation_id reason l = record l {
  outbox = update (waits_under activation_id) (hold_because reason) l.outbox;
}

-- `_insert_notification_route_event`; the key is unique and the route exists.
unfoldable pub insert_route_event :
    (ℕ → String)
    → (route_id : String) (event_type : RouteEventType) (timestamp : ℕ)
      (activation_id config_fingerprint : String)
    → Tx (Unit {0})
insert_route_event u route_id event_type timestamp activation_id config_fingerprint = do
  event_id ← fresh_id u (str_append "route-event-")
  raise_if
      (← gets (λ l.
        exists (λ (e : RouteEvent). str_eq e.event_id event_id) l.route_events
        || not (exists (λ (r : Route). str_eq r.route_id route_id) l.routes)))
      integrity
  modify (λ l. record l {
    route_events =
        l.route_events
        ++ record {
          event_id = event_id;
          route_id = route_id;
          event_type = event_type;
          created_at = timestamp;
          activation_id = activation_id;
          config_fingerprint = config_fingerprint;
        }
          ∷ [];
  })

-- INSERT INTO notification_routes, under its primary key and UNIQUE(channel, route_alias).
unfoldable pub insert_route : Route → Tx (Unit {0})
insert_route r = do
  raise_if
      (← gets (λ l.
        exists (λ (s : Route). str_eq s.route_id r.route_id || is_route r.channel r.route_alias s)
          l.routes))
      integrity
  modify (λ l. record l { routes = l.routes ++ r ∷ [] })

abbrev pub enable : (activation_id config_fingerprint : String) → ℕ → Route → Route
enable activation_id config_fingerprint timestamp r = record r {
  state = RouteState.enabled;
  activation_id = activation_id;
  config_fingerprint = config_fingerprint;
  enabled_at = some timestamp;
  disabled_at = none;
  updated_at = timestamp;
}

abbrev pub disable : ℕ → Route → Route
disable timestamp r = record r {
  state = RouteState.disabled;
  disabled_at = some timestamp;
  updated_at = timestamp;
}

abbrev pub has_route_id : String → Route → Bool
has_route_id i r = str_eq r.route_id i

-- The SELECT of the row that was written. Its `raise` stands after the transaction; the row is there,
-- since `insert_route_event` refuses an event of a route that is not.
unfoldable pub reread_route : (route_id : String) → Tx Route
reread_route route_id = do
  row ← gets (λ l. first (has_route_id route_id) l.routes)
  or_raise row route_disappeared

-- The first activation of a channel and alias.
unfoldable pub add_route : (ℕ → String) → (channel route_alias fingerprint : String) → ℕ → Tx Route
unfolding insert_route insert_route_event reread_route
add_route u channel route_alias fingerprint timestamp = do
  activation_id ← fresh_id u (str_append "activation-")
  route_id ← fresh_id u (str_append "route-")
  let r : Route = record {
    route_id = route_id;
    channel = channel;
    route_alias = route_alias;
    activation_id = activation_id;
    state = RouteState.enabled;
    config_fingerprint = fingerprint;
    enabled_at = some timestamp;
    disabled_at = none;
    updated_at = timestamp;
  }
  insert_route r
  insert_route_event u route_id RouteEventType.enabled timestamp activation_id fingerprint
  reread_route route_id

-- A new activation of a route that exists: what waits under the old one is held.
unfoldable pub reactivate_route : (ℕ → String) → Route → (fingerprint : String) → ℕ → Tx Route
unfolding hold_waiting insert_route_event reread_route
reactivate_route u r fingerprint timestamp = do
  raise_if (← gets (λ l. exists (is_active_attempt r.channel r.route_alias) l.deliveries))
      active_delivery
  modify (hold_waiting r.activation_id "route_reconfigured")
  activation_id ← fresh_id u (str_append "activation-")
  modify (λ l. record l {
    routes = update (has_route_id r.route_id) (enable activation_id fingerprint timestamp) l.routes;
  })
  insert_route_event u r.route_id
      (if is_enabled r.state then RouteEventType.reconfigured else RouteEventType.enabled) timestamp
      activation_id fingerprint
  reread_route r.route_id

unfoldable pub enable_found :
    (ℕ → String) → (channel route_alias fingerprint : String) → ℕ → Option Route → Tx Route
unfolding add_route reactivate_route
enable_found u channel route_alias fingerprint timestamp none =
    add_route u channel route_alias fingerprint timestamp
enable_found u channel route_alias fingerprint timestamp (some r) =
    if is_enabled r.state && str_eq r.config_fingerprint fingerprint
    then pure r
    else reactivate_route u r fingerprint timestamp

-- `enable_notification_route`
unfoldable pub enable_notification_route :
    (ℕ → String) → (channel config_fingerprint route_alias : String) → ℕ → Tx Route
unfolding check_channel check_fingerprint normalized recover_expired enable_found
enable_notification_route u channel config_fingerprint route_alias timestamp = do
  check_channel channel
  check_channel route_alias
  check_fingerprint config_fingerprint
  modify (recover_expired timestamp)
  found ← gets (λ l. first (is_route channel route_alias) l.routes)
  enable_found u channel route_alias (normalized config_fingerprint) timestamp found

unfoldable pub disable_found : (ℕ → String) → Route → ℕ → Tx Route
unfolding hold_waiting insert_route_event reread_route
disable_found u r timestamp = do
  raise_if (← gets (λ l. exists (is_active_attempt r.channel r.route_alias) l.deliveries))
      active_delivery
  modify (λ l. record l { routes = update (has_route_id r.route_id) (disable timestamp) l.routes })
  modify (hold_waiting r.activation_id "route_disabled")
  insert_route_event u r.route_id RouteEventType.disabled timestamp r.activation_id
      r.config_fingerprint
  reread_route r.route_id

-- `disable_notification_route`
unfoldable pub disable_notification_route :
    (ℕ → String) → (channel route_alias : String) → ℕ → Tx Route
unfolding check_channel recover_expired disable_found
disable_notification_route u channel route_alias timestamp = do
  check_channel channel
  check_channel route_alias
  modify (recover_expired timestamp)
  found ← gets (λ l. first (is_route channel route_alias) l.routes)
  r ← or_raise found route_missing
  if is_enabled r.state then disable_found u r timestamp else pure r
