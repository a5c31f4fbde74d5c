-- ===== src/Alerts/Delivery/Lease.antt =====
-- What a claim hands out.
use alpha_agent.Alerts.Delivery.Handed.{IsLease, NoneWaits, IsRecorded, Handed, record_claim-Ends}
use alpha_agent.Alerts.Outbox.Recover.{recover_expired}
use alpha_agent.Alerts.Reads.{claim_scope-Reads, resolve_optional-Reads, check_claim-Reads}
use alpha_agent.Alerts.Delivery.Order.{MayBeSent, candidates_order}
use alpha_agent.Base.{
  subst, All-every, ℕ, ◌+◌, ◌≤◌, ◌<◌, true, false, Option, none, some, List, [], ◌∷◌, String, ◌≡◌,
  refl, arith, All,
}
use alpha_agent.Alerts.Ledger.{Ledger, ok}
use alpha_agent.Base.{
  eq_iff, mem-update_first, mem-update_other, All-map, All-update_both, length, first, first-holds,
  update,
}
use Prim.Native.String.{◌++◌ as str_append}
use alpha_agent.Alerts.Schema.{Message, Claim}
use alpha_agent.Alerts.Outbox.Claim.{
  claim_scope, resolve_optional, check_claim, ClaimRequest, ClaimScope, claim_notifications,
  claim_due, claim_rows, claim_row, record_claim, start_delivery, is_pending_row, lease_message,
  candidates,
}
use alpha_agent.Alerts.Ends.{Ends-after, Ends, Ends-ok, Ends-bind, Ends-map}

claim_row-Ends :
    (u : ℕ → String) (a : ClaimRequest) (now : ℕ) (row : Message) (claims : List Claim) (l : Ledger)
    → row.attempt_count < 5
    → Handed a now l claims
    → Ends
        (λ cs l'. Handed a now l' cs × (length cs ≤ length claims + 1))
        (claim_row u a now row claims l)
unfolding claim_row start_delivery
claim_row-Ends u a now row claims l few h =
    go (first (is_pending_row row.notification_id) l.outbox) refl
  where
    token : String
    token = str_append "lease-" (u l.drawn)

    delivery_id : String
    delivery_id = str_append "delivery-" (u (l.drawn + 1))

    lease : Message → Message
    lease = lease_message (row.attempt_count + 1) token (now + a.lease_seconds)

    l2 : Ledger
    l2 = record l {
      outbox = update (is_pending_row row.notification_id) lease l.outbox;
      drawn = l.drawn + 1 + 1;
    }

    kept : Handed a now l2 claims
    kept =
        All-map claims
          (λ c k. (
            k.0,
            All-update_both (is_pending_row row.notification_id) lease l.outbox
                (λ x _ _. ground arith) (λ x e _. e) k.1,
            record {
              leased_row =
                  mem-update_other (is_pending_row row.notification_id) lease l.outbox
                    k.2.leased_row (ground (arith, k.0.is_leased_now));
              begun_row = k.2.begun_row;
            },
          ))
          h

    gone : All (λ x. is_pending_row row.notification_id x ≡ false) l2.outbox
    gone =
        All-update_both {P = λ _. Unit {0}} (is_pending_row row.notification_id) lease l.outbox
          (λ x _ _. ground arith) (λ x _ e. e) (All-every l.outbox (λ _. tt))

    same :
        (m : Message)
        → is_pending_row row.notification_id m ≡ true
        → row.notification_id ≡ m.notification_id
    same m e = ground (arith, eq_iff m.notification_id row.notification_id)

    made :
        (m : Message)
        → is_pending_row row.notification_id m ≡ true
        → IsLease a now (record {
          message = lease m;
          delivery = start_delivery a now (lease m) delivery_id;
          lease_token = token;
        })
          × All (λ x. is_pending_row m.notification_id x ≡ false) l2.outbox
    made m e = (
      record {
        is_leased_now = refl;
        has_token = refl;
        ends = refl;
        first_attempt = omega arith;
        last_attempt = omega arith;
        begun = refl;
        begun_now = refl;
        on_channel = refl;
        under_alias = refl;
        of_message = refl;
        of_attempt = refl;
      },
      subst (λ i. All (λ x. is_pending_row i x ≡ false) l2.outbox) (same m e) gone,
    )

    go :
        (w : Option Message)
        → first (is_pending_row row.notification_id) l.outbox ≡ w
        → Ends
            (λ cs l'. Handed a now l' cs × (length cs ≤ length claims + 1))
            (record_claim a now token delivery_id
              (elim w [ none ↦ none | some m ↦ some (lease m) ])
              claims
              l2)
    go none e = (kept, omega arith)
    go (some m) e =
        let k = made m (first-holds (is_pending_row row.notification_id) l.outbox e) in
        record_claim-Ends a now token delivery_id (lease m) claims l2 kept
          (k.0, k.1, mem-update_first (is_pending_row row.notification_id) lease l.outbox e)

claim_rows-Ends :
    (u : ℕ → String) (a : ClaimRequest) (now : ℕ) (rows : List Message) (claims : List Claim)
    (l : Ledger)
    → All (λ m. m.attempt_count < 5) rows
    → Handed a now l claims
    → Ends
        (λ cs l'. Handed a now l' cs × (length cs ≤ length claims + length rows))
        (claim_rows u a now rows claims l)
unfolding claim_rows
claim_rows-Ends u a now [] claims l few h = (h, omega arith)
claim_rows-Ends u a now (row ∷ rows) claims l few h =
    Ends-bind _ (claim_row u a now row claims) (claim_rows u a now rows) l (
      Ends-map _ _ (claim_row u a now row claims l)
        (λ cs l' k.
          Ends-map _ _ (claim_rows u a now rows cs l') (λ ds l'' r. (r.0, omega (arith, r.1, k.1)))
            (claim_rows-Ends u a now rows cs l' few.1 k.0))
        (claim_row-Ends u a now row claims l few.0 h))

claim_due-Ends :
    (u : ℕ → String) (a : ClaimRequest) (now : ℕ) (scope : ClaimScope) (l : Ledger)
    → Ends (λ cs l'. Handed a now l' cs × (length cs ≤ a.limit)) (claim_due u a now scope l)
unfolding claim_due
claim_due-Ends u a now scope l =
    Ends-map _ _ (claim_rows u a now rows [] l) (λ cs l' k. (k.0, omega (arith, k.1, order.0)))
      (claim_rows-Ends u a now rows [] l (All-map rows (λ m k. k.has_attempts) order.1) tt)
  where
    rows : List Message
    rows = candidates now scope a.limit l.outbox

    order : (length rows ≤ a.limit) × All (MayBeSent now scope l.outbox) rows
    order = let o = candidates_order now scope a.limit l.outbox in (o.0, o.1)

-- A claim that commits hands out at most as many messages as its limit; each of them is leased
-- until the requested number of seconds from now under the token that is handed out with it, this
-- is its first to fifth attempt, and the attempt that is handed out with it is begun now, on the
-- channel and alias of the request, is of this message, and has the same number; and in the ledger
-- that the claim leaves, no row of a message that was handed out waits any more, the outbox holds
-- the leased row that was handed out, and the attempt that was handed out is the row that its
-- identifier finds among the deliveries.
pub claim_is_exclusive :
    (u : ℕ → String) (a : ClaimRequest) (now : ℕ) (l : Ledger) (claims : List Claim) (l' : Ledger)
    → claim_notifications u a now l ≡ ok (claims, l')
    → (length claims ≤ a.limit)
      × All (λ c. IsLease a now c × NoneWaits l' c × IsRecorded l' c) claims
unfolding claim_notifications
claim_is_exclusive u a now l claims l' e =
    let k =
      Ends-ok (λ cs l'. Handed a now l' cs × (length cs ≤ a.limit)) (claim_notifications u a now l)
        ends e in
    (k.1, k.0)
  where
    ends :
        Ends (λ cs l'. Handed a now l' cs × (length cs ≤ a.limit)) (claim_notifications u a now l)
    ends = Ends-after _ (check_claim a) _ l (check_claim-Reads a) λ _.
        Ends-after _ (resolve_optional a.notification_id) _ (recover_expired now l)
          (resolve_optional-Reads a.notification_id)
          λ i.
            Ends-after _ (claim_scope a a.config_fingerprint a.test_config_fingerprint i) _
              (recover_expired now l)
              (claim_scope-Reads a a.config_fingerprint a.test_config_fingerprint i)
              λ scope. claim_due-Ends u a now scope (recover_expired now l)
