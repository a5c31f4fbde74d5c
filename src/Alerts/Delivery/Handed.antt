-- ===== src/Alerts/Delivery/Handed.antt =====
-- A message that is handed out, and the attempt that is recorded with it.
use alpha_agent.Alerts.Outbox.Recover.{}
use alpha_agent.Alerts.Reads.{}
use alpha_agent.Alerts.Delivery.Order.{}
use alpha_agent.Base.{ℕ, ◌+◌, ◌≤◌, false, some, List, [], ◌∷◌, String, ◌≡◌, refl, arith, All}
use alpha_agent.Alerts.Ledger.{Ledger}
use alpha_agent.Base.{
  eq_refl, Memᴰ, Bool-cases, inl, inr, ◌++◌, exists-narrow, first-append, first-append_new,
  All-append, All-map, length, length-append, first, exists,
}
use Prim.Native.String.{}
use alpha_agent.Alerts.Schema.{Message, Delivery, Claim, leased, started}
use alpha_agent.Alerts.Outbox.Claim.{
  ClaimRequest, record_claim, insert_delivery, has_delivery_id, start_delivery, is_pending_row,
  same_attempt,
}
use alpha_agent.Alerts.Ends.{Ends, Ends-bind, Ends-map}

-- A claim of this request, made at this time.
pub record IsLease (a : ClaimRequest) (now : ℕ) (c : Claim) : Type 0 where
  pub is_leased_now : c.message.state ≡ leased
  pub has_token : c.message.lease_token ≡ some c.lease_token
  pub ends : c.message.lease_expires_at ≡ some (now + a.lease_seconds)
  pub first_attempt : 1 ≤ c.message.attempt_count
  pub last_attempt : c.message.attempt_count ≤ 5
  pub begun : c.delivery.state ≡ started
  pub begun_now : c.delivery.started_at ≡ now
  pub on_channel : c.delivery.channel ≡ a.channel
  pub under_alias : c.delivery.route_alias ≡ a.route_alias
  pub of_message : c.delivery.notification_id ≡ c.message.notification_id
  pub of_attempt : c.delivery.attempt_number ≡ c.message.attempt_count

-- No row of the claimed message waits any more.
abbrev pub NoneWaits : Ledger → Claim → Type 0
NoneWaits l c = All (λ m. is_pending_row c.message.notification_id m ≡ false) l.outbox

-- The ledger holds what was handed out: the leased row, and the attempt under its identifier.
pub record IsRecorded (l : Ledger) (c : Claim) : Type 0 where
  pub leased_row : Memᴰ c.message l.outbox
  pub begun_row : first (has_delivery_id c.delivery.delivery_id) l.deliveries ≡ some c.delivery

abbrev pub Holds : ClaimRequest → ℕ → Ledger → Claim → Type 0
Holds a now l c = IsLease a now c × NoneWaits l c × IsRecorded l c

abbrev pub Handed : ClaimRequest → ℕ → Ledger → List Claim → Type 0
Handed a now l claims = All (Holds a now l) claims

-- A delivery that is inserted is read back.
insert_delivery-Ends :
    (d : Delivery) (l : Ledger)
    → Ends
        (λ x l'.
          (x ≡ d)
          × (l' ≡ record l { deliveries = l.deliveries ++ d ∷ [] })
          × (first (has_delivery_id d.delivery_id) l'.deliveries ≡ some d))
        (insert_delivery d l)
unfolding insert_delivery
insert_delivery-Ends d l = elim (Bool-cases (exists (same_attempt d) l.deliveries)) [
  | inl e ↦ rw e tt
  | inr e ↦ rw (e, found e) (refl, refl, found e)
]
  where
    found :
        exists (same_attempt d) l.deliveries ≡ false
        → first (has_delivery_id d.delivery_id) (l.deliveries ++ d ∷ []) ≡ some d
    found e =
        first-append_new (has_delivery_id d.delivery_id) l.deliveries d
          (exists-narrow (has_delivery_id d.delivery_id) (same_attempt d) l.deliveries
            (λ x k. rw k refl) e)
          (eq_refl d.delivery_id)

-- What was handed out stays recorded when another attempt is begun.
Handed-insert :
    (a : ClaimRequest) (now : ℕ) (d : Delivery) (l : Ledger) (claims : List Claim)
    → Handed a now l claims
    → Handed a now (record l { deliveries = l.deliveries ++ d ∷ [] }) claims
Handed-insert a now d l claims h =
    All-map claims
      (λ c k. (
        k.0,
        k.1,
        record {
          leased_row = k.2.leased_row;
          begun_row =
              first-append (has_delivery_id c.delivery.delivery_id) l.deliveries (d ∷ [])
                k.2.begun_row;
        },
      ))
      h

pub record_claim-Ends :
    (a : ClaimRequest) (now : ℕ) (token delivery_id : String) (m : Message) (claims : List Claim)
    (l : Ledger)
    → let c : Claim = record {
      message = m;
      delivery = start_delivery a now m delivery_id;
      lease_token = token;
    } in
      Handed a now l claims
      → IsLease a now c × NoneWaits l c × Memᴰ m l.outbox
      → Ends
          (λ cs l'. Handed a now l' cs × (length cs ≤ length claims + 1))
          (record_claim a now token delivery_id (some m) claims l)
unfolding record_claim
record_claim-Ends a now token delivery_id m claims l h k = Ends-bind _ (insert_delivery d) _ l (
    Ends-map _ _ (insert_delivery d l) (λ x l' r. rest x l' r.0 r.1 r.2) (insert_delivery-Ends d l))
  where
    d : Delivery
    d = start_delivery a now m delivery_id

    c : Claim
    c = record { message = m; delivery = d; lease_token = token }

    l2 : Ledger
    l2 = record l { deliveries = l.deliveries ++ d ∷ [] }

    rest :
        (x : Delivery) (l' : Ledger)
        → x ≡ d
        → l' ≡ l2
        → first (has_delivery_id d.delivery_id) l'.deliveries ≡ some d
        → Handed a now l' (claims ++ record { message = m; delivery = x; lease_token = token } ∷ [])
          × (length (claims ++ record { message = m; delivery = x; lease_token = token } ∷ [])
              ≤ length claims + 1)
    rest x l' e q f =
        rw (e, q)
          (
            All-append (Holds a now l2) claims _ (Handed-insert a now d l claims h)
                ((k.0, k.1, record { leased_row = k.2; begun_row = rw q at f }), tt),
            omega (arith, length-append claims (c ∷ [])),
          )
