-- ===== src/Alerts/Effects/Elsewhere.antt =====
-- Which parts of a transaction leave the table of incidents, and what an UPDATE of it leaves to find.
use alpha_agent.Alerts.Payload.{}
use alpha_agent.Json.{Json}
use alpha_agent.Alerts.Reads.{check_request-Reads}
use alpha_agent.Base.{
  ◌∙◌, ℕ, Bool, true, false, Option, none, some, List, [], ◌∷◌, String, ◌≡◌, refl, ap, ◌⊎◌, inl,
  inr, if◌then◌else◌, arith, Bool-cases,
}
use alpha_agent.Alerts.Ledger.{Ledger, Error, Tx, ◌>>=◌, pure, raise, raise_if, gets, fresh_id}
use alpha_agent.Base.{first, update}
use alpha_agent.Alerts.Schema.{IncidentEventType, Request, Route, EventType, Message, Incident}
use alpha_agent.Alerts.Incidents.Lifecycle.{announce, insert_event}
use alpha_agent.Alerts.Incidents.Notify.{
  enqueue_incident_notification, enabled_notification_route, one_route,
}
use alpha_agent.Alerts.Outbox.Enqueue.{insert_outbox_message, insert_or_match, insert_message}
use alpha_agent.Alerts.Ends.{Reads, Ends, Ends-bind, Ends-map, Ends-raise_if}

-- A part of a transaction that does not write the table of incidents.
abbrev Leaves : {A : Type 0} → Tx A → Type 0
Leaves m = (l : Ledger) → Ends (λ a l'. l'.incidents ≡ l.incidents) (m l)

Leaves-bind :
    {A B : Type 0} (m : Tx A) (f : A → Tx B)
    → Leaves m
    → ((a : A) → Leaves (f a))
    → Leaves (m >>= f)
Leaves-bind m f h k l = Ends-bind _ m f l (
    Ends-map (λ a l'. l'.incidents ≡ l.incidents) _ (m l)
      (λ a l' e.
        Ends-map (λ b l''. l''.incidents ≡ l'.incidents) (λ b l''. l''.incidents ≡ l.incidents)
          (f a l') (λ b l'' e'. e' ∙ e) (k a l'))
      (h l))

Leaves-pure : {A : Type 0} (a : A) → Leaves (pure a)
Leaves-pure a l = refl

Leaves-raise : (A : Type 0) (e : Error) → Leaves (raise {A = A} e)
Leaves-raise A e l = tt

Leaves-raise_if : (b : Bool) (e : Error) → Leaves (raise_if b e)
Leaves-raise_if b e l = Ends-raise_if _ b e l (λ _. refl)

Leaves-gets : {A : Type 0} (f : Ledger → A) → Leaves (gets f)
Leaves-gets f l = refl

Leaves-fresh_id : (u : ℕ → String) (prefix : String → String) → Leaves (fresh_id u prefix)
Leaves-fresh_id u prefix l = refl

Leaves-if : {A : Type 0} (b : Bool) (m n : Tx A) → Leaves m → Leaves n → Leaves (if b then m else n)
Leaves-if true m n h k = h
Leaves-if false m n h k = k

Leaves-Reads : {A : Type 0} (m : Tx A) → Reads m → Leaves m
Leaves-Reads m h l = Ends-map (λ a l'. l' ≡ l) _ (m l) (λ a l' e. ap (λ x. x.incidents) e) (h l)

ruleset leaves_rules = (
  Leaves-bind, Leaves-pure, Leaves-raise, Leaves-raise_if, Leaves-gets, Leaves-fresh_id, Leaves-if,
)

insert_event-Leaves :
    (u : ℕ → String) (i : String) (e : IncidentEventType) (t : ℕ) (p : Json)
    → Leaves (insert_event u i e t p)
unfolding insert_event
insert_event-Leaves u i e t p =
    search (leaves_rules, λ (l : Ledger). refl {a = l.incidents}) depth 9

insert_message-Leaves : (m : Message) → Leaves (insert_message m)
unfolding insert_message
insert_message-Leaves m = search (leaves_rules, λ (l : Ledger). refl {a = l.incidents}) depth 9

insert_or_match-Leaves :
    (u : ℕ → String) (make : String → Message) (found : Option Message)
    → Leaves (insert_or_match u make found)
unfolding insert_or_match
insert_or_match-Leaves u make none = search (leaves_rules, insert_message-Leaves)
insert_or_match-Leaves u make (some m) = search leaves_rules

insert_outbox_message-Leaves :
    (u : ℕ → String) (r : Request) (t : ℕ) (hold : Bool) (a d e : Option String)
    → Leaves (insert_outbox_message u r t hold a d e)
unfolding insert_outbox_message
insert_outbox_message-Leaves u r t hold a d e =
    search (leaves_rules, insert_or_match-Leaves, Leaves-Reads, check_request-Reads) depth 9

one_route-Leaves : (rs : List Route) → Leaves (one_route rs)
one_route-Leaves [] = λ l. refl
one_route-Leaves (r ∷ []) = λ l. refl
one_route-Leaves (r ∷ s ∷ rest) = λ l. tt

enqueue_incident_notification-Leaves :
    (u : ℕ → String) (i : Incident) (e : EventType) (t : ℕ) (s : String)
    → Leaves (enqueue_incident_notification u i e t s)
unfolding enqueue_incident_notification enabled_notification_route
enqueue_incident_notification-Leaves u i e t s =
    search (leaves_rules, insert_outbox_message-Leaves, one_route-Leaves) depth 9

pub announce-Leaves :
    (u : ℕ → String) (i : Incident) (e : IncidentEventType) (n : Option EventType) (t : ℕ)
    (p : Json)
    → Leaves (announce u i e n t p)
unfolding announce
announce-Leaves u i e none t p = search (leaves_rules, insert_event-Leaves) depth 9
announce-Leaves u i e (some n) t p =
    search (leaves_rules, insert_event-Leaves, enqueue_incident_notification-Leaves) depth 9

pub first-updated :
    (p q : Incident → Bool) (f : Incident → Incident) (rows : List Incident) (old : Incident)
    → ((i : Incident) → p (f i) ≡ p i)
    → first p rows ≡ some old
    → q old ≡ true
    → first p (update q f rows) ≡ some (f old)
first-updated p q f [] old keep h e = absurd (ground arith)
first-updated p q f (i ∷ rows) old keep h e =
    go (Bool-cases (p i)) (first-updated p q f rows old keep)
  where
    some-is : some i ≡ some old → i ≡ old
    some-is k = cc

    changed : (b : Bool) → p (if b then f i else i) ≡ p i
    changed true = keep i
    changed false = refl

    go :
        (p i ≡ true) ⊎ (p i ≡ false)
        → (first p rows ≡ some old → q old ≡ true → first p (update q f rows) ≡ some (f old))
        → first p (update q f (i ∷ rows)) ≡ some (f old)
    go (inl k) rest = let s = some-is (rw k at h) in rw (changed (q i) ∙ k) (rw (s, e) refl)
    go (inr k) rest = rw (changed (q i) ∙ k) (rest (rw k at h) e)
